-- ===== src/Tui/Loop/Quitting.antt =====
-- How a session of the interface ends, and what it keeps.
use Prim.Native.Char.{code}
use voicemcu.Base.{
  ◌≡◌, refl, sym, subst, ◌⊎◌, inl, inr, Bool, true, false, ◌&&◌, Option, none, some, List, [], ◌∷◌,
  ◌++◌, arith, Bool-cases, Option-cases, if_all, if_split, if◌then◌else◌, ◌==◌,
}
use voicemcu.Protocol.{SignalMessage, ClientInfo, leave, kicked}
use voicemcu.Tui.{
  AppState, signal, disconnected, add_event, red_bold, handle_signal, set_peers_from_info,
  find_info, mute_self, mute_peer, update_peer,
}
use voicemcu.Tui.Laws.{IsBounded, add_event-IsBounded, handle_signal-IsBounded}
use voicemcu.Tui.Commands.Settling.{Settled, process_command-Settled}
use voicemcu.Tui.Loop.{
  KeyCode, enter, char, backspace, esc, another, quit, handle_key, LoopEvent, key, no_key, received,
  lost, handle_event, sent_list, run,
}

-- What ends a session without the user: a kick, or the end of the connection.
abbrev pub IsForced : LoopEvent → Type 0
IsForced (received none) = Unit
IsForced (received (some disconnected)) = Unit
IsForced (received (some (signal (kicked reason)))) = Unit
IsForced _ = ⊥

abbrev pub IsForcedBy : List LoopEvent → Type 0
IsForcedBy [] = ⊥
IsForcedBy (e ∷ events) = IsForced e ⊎ IsForcedBy events

-- The last of the commands that were sent is to leave.
abbrev pub EndsWithLeave : List SignalMessage → Type 0
EndsWithLeave [] = ⊥
EndsWithLeave (msg ∷ []) = msg ≡ leave
EndsWithLeave (msg ∷ next ∷ msgs) = EndsWithLeave (next ∷ msgs)

-- What an event leaves: the log within its limit, and no wish to quit that was not there, but for a
-- command to leave or an event that forces it.
abbrev Handled : LoopEvent → AppState → AppState × Option SignalMessage → Type 0
Handled e s (s', sent) =
    IsBounded s' × ((s'.should_quit ≡ s.should_quit) ⊎ (sent ≡ some leave) ⊎ IsForced e)

handle_key-Settled :
    (s : AppState) (k : KeyCode) (control : Bool) → IsBounded s → Settled s (handle_key s k control)
unfolding handle_key quit
handle_key-Settled s enter control h = process_command-Settled s h
handle_key-Settled s (char c) control h =
    if_all (Settled s) (control && code c == 99) _ _ (h, inr refl) (h, inl refl)
handle_key-Settled s backspace control h = (h, inl refl)
handle_key-Settled s esc control h = (h, inr refl)
handle_key-Settled s another control h = (h, inl refl)

pub set_peers-should_quit :
    (clients : List ClientInfo) (s : AppState)
    → (set_peers_from_info clients s).should_quit ≡ s.should_quit
unfolding set_peers_from_info
set_peers-should_quit clients s = ground (arith, Option-cases (find_info s.client_id clients))

mute_self-should_quit :
    (by_server muted : Bool) (s : AppState)
    → (mute_self by_server muted s).should_quit ≡ s.should_quit
unfolding mute_self
mute_self-should_quit true muted s = refl
mute_self-should_quit false muted s = refl

handle_signal-should_quit :
    (msg : SignalMessage) (s : AppState)
    → ((handle_signal msg s).should_quit ≡ s.should_quit) ⊎ IsForced (received (some (signal msg)))
unfolding handle_signal add_event
handle_signal-should_quit (SignalMessage.client_joined client_id display_name) s = inl refl
handle_signal-should_quit (SignalMessage.client_left client_id) s = inl refl
handle_signal-should_quit (SignalMessage.room_info clients) s =
    inl (set_peers-should_quit clients s)
handle_signal-should_quit SignalMessage.you_are_host s = inl refl
handle_signal-should_quit (SignalMessage.kicked reason) s = inr tt
handle_signal-should_quit (SignalMessage.peer_muted client_id muted by_server) s = inl (
    if_all (λ (x : AppState). x.should_quit ≡ s.should_quit) (client_id == s.client_id)
      (mute_self by_server muted
        (record s { peers = update_peer client_id (mute_peer by_server muted) s.peers }))
      (record s { peers = update_peer client_id (mute_peer by_server muted) s.peers })
      (mute_self-should_quit by_server muted
        (record s { peers = update_peer client_id (mute_peer by_server muted) s.peers }))
      refl)
handle_signal-should_quit (SignalMessage.error message) s = inl refl
handle_signal-should_quit (SignalMessage.join room_code display_name) s = inl refl
handle_signal-should_quit SignalMessage.leave s = inl refl
handle_signal-should_quit (SignalMessage.mute muted) s = inl refl
handle_signal-should_quit (SignalMessage.kick target) s = inl refl
handle_signal-should_quit (SignalMessage.server_mute target muted) s = inl refl
handle_signal-should_quit (SignalMessage.block_peer target) s = inl refl
handle_signal-should_quit (SignalMessage.unblock_peer target) s = inl refl
handle_signal-should_quit (SignalMessage.joined client_id) s = inl refl

Settled-Handled :
    (e : LoopEvent) (s : AppState) (r : AppState × Option SignalMessage)
    → Settled s r
    → Handled e s r
Settled-Handled e s (s', sent) (h, inl same) = (h, inl same)
Settled-Handled e s (s', sent) (h, inr left) = (h, inr (inl left))

signal-Handled :
    (msg : SignalMessage) (s : AppState)
    → IsBounded s
    → Handled (received (some (signal msg))) s (handle_signal msg s, none)
signal-Handled msg s h = (
  handle_signal-IsBounded s msg h,
  elim (handle_signal-should_quit msg s) [ inl same ↦ inl same | inr forced ↦ inr (inr forced) ],
)

handle_event-Handled : (s : AppState) (e : LoopEvent) → IsBounded s → Handled e s (handle_event s e)
unfolding handle_event lost
handle_event-Handled s (key k control pressed) h =
    Settled-Handled (key k control pressed) s
      (if pressed then handle_key s k control else (s, none))
      (if_all (Settled s) pressed (handle_key s k control) (s, none)
        (handle_key-Settled s k control h) (h, inl refl))
handle_event-Handled s no_key h = (h, inl refl)
handle_event-Handled s (received none) h =
    (add_event-IsBounded "disconnected from server" red_bold s h, inr (inr tt))
handle_event-Handled s (received (some disconnected)) h =
    (add_event-IsBounded "disconnected from server" red_bold s h, inr (inr tt))
handle_event-Handled s (received (some (signal msg))) h = signal-Handled msg s h

-- How a run of the loop from a state that goes on ends.
abbrev pub Finished : List LoopEvent → AppState × List SignalMessage → Type 0
Finished events (last, cmds) =
    IsBounded last × ((last.should_quit ≡ false) ⊎ EndsWithLeave cmds ⊎ IsForcedBy events)

run_quit : (s : AppState) (events : List LoopEvent) → s.should_quit ≡ true → run s events ≡ (s, [])
unfolding run
run_quit s [] q = refl
run_quit s (e ∷ events) q =
    if_split (λ (r : AppState × List SignalMessage). r ≡ (s, [])) s.should_quit _ _ (λ quits. refl)
      (λ goes_on. absurd (ground (arith, q, goes_on)))

EndsWithLeave-append :
    (sent : Option SignalMessage) (cmds : List SignalMessage)
    → EndsWithLeave cmds
    → EndsWithLeave (sent_list sent ++ cmds)
EndsWithLeave-append none cmds h = h
EndsWithLeave-append (some msg) [] h = absurd h
EndsWithLeave-append (some msg) (c ∷ cmds) h = h

-- The first event, with a run of the others.
Finished-step :
    (e : LoopEvent) (events : List LoopEvent) (s s' : AppState) (sent : Option SignalMessage)
    → s.should_quit ≡ false
    → Handled e s (s', sent)
    → (s'.should_quit ≡ false → Finished events (run s' events))
    → Finished (e ∷ events) ((run s' events).0, sent_list sent ++ (run s' events).1)
Finished-step e events s s' sent goes_on (bounded, why) rest = elim (Bool-cases s'.should_quit) [
  | inr again ↦
      let (kept, ended) = rest again in
      (
        kept,
        elim ended [
          | inl on ↦ inl on
          | inr (inl left) ↦ inr (inl (EndsWithLeave-append sent (run s' events).1 left))
          | inr (inr forced) ↦ inr (inr (inr forced))
        ],
      )
  | inl quits ↦
      subst
        (λ (r : AppState × List SignalMessage). Finished (e ∷ events) (r.0, sent_list sent ++ r.1))
        (sym (run_quit s' events quits))
        (
          bounded,
          elim why [
            | inl same ↦ absurd (ground (arith, same, goes_on, quits))
            | inr (inl left) ↦ inr (inl (rw left refl))
            | inr (inr forced) ↦ inr (inr (inl forced))
          ],
        )
]

-- From a state whose log is within its limit and that does not quit, over any keys and messages: the
-- log stays within its limit, and if the interface quits, then the last command that it sent is to
-- leave, or it was kicked or lost its connection.
pub run-Finished :
    (s : AppState) (events : List LoopEvent)
    → IsBounded s
    → s.should_quit ≡ false
    → Finished events (run s events)
unfolding run
run-Finished s [] h q = (h, inl q)
run-Finished s (e ∷ events) h q =
    if_split (Finished (e ∷ events)) s.should_quit _ _ (λ quits. absurd (ground (arith, q, quits)))
      (λ goes_on.
        Finished-step e events s (handle_event s e).0 (handle_event s e).1 q
          (handle_event-Handled s e h)
          (λ again. run-Finished (handle_event s e).0 events (handle_event-Handled s e h).0 again))
