-- ===== src/Tui/Commands/Settling.antt =====
-- client/src/tui.rs, `process_command`: what becomes of the log, and of the wish to quit.
use Prim.Native.Char.{code}
use Prim.Native.String.{String}
use voicemcu.Base.{
  ◌≡◌, refl, ◌⊎◌, inl, inr, not, ◌&&◌, ◌||◌, Option, none, some, List, [], ◌∷◌, Result, ok, err,
  if_all, ◌==◌, if◌then◌else◌,
}
use voicemcu.Protocol.{ClientId, SignalMessage, leave}
use voicemcu.Tui.{AppState, Style, red, yellow, dark_gray, white, add_event, find_peer}
use voicemcu.Tui.Laws.{IsBounded, add_event-IsBounded}
use voicemcu.Tui.Text.{append, split_space, trim}
use voicemcu.Tui.Commands.{
  with_peer, host_command, block_command, mute_command, run_command, add_lines, help_lines,
  process_line, process_command, is, is_blank,
}

-- The log is within its limit, and the wish to quit is as before.
abbrev pub Keeps : AppState → AppState → Type 0
Keeps s s' = IsBounded s' × (s'.should_quit ≡ s.should_quit)

-- The same, or the command was to leave.
abbrev pub Settled : AppState → AppState × Option SignalMessage → Type 0
Settled s (s', sent) = IsBounded s' × ((s'.should_quit ≡ s.should_quit) ⊎ (sent ≡ some leave))

pub add_event-Keeps :
    (text : String) (style : Style) (s s' : AppState)
    → Keeps s s'
    → Keeps s (add_event text style s')
unfolding add_event
add_event-Keeps text style s s' k = (unfold add_event in add_event-IsBounded text style s' k.0, k.1)

settle : (s s' : AppState) (sent : Option SignalMessage) → Keeps s s' → Settled s (s', sent)
settle s s' sent k = (k.0, inl k.1)

module _ (s : AppState) (h : IsBounded s) where
  logged :
      (text : String) (style : Style) (sent : Option SignalMessage)
      → Settled s (add_event text style s, sent)
  logged text style sent =
      settle s (add_event text style s) sent (add_event-Keeps text style s s (h, refl))

  with_peer-Settled :
      (note : ClientId → AppState → AppState) (message : ClientId → SignalMessage) (arg : String)
      → ((t : ClientId) → Keeps s (note t s))
      → Settled s (with_peer note message arg s)
  unfolding with_peer
  with_peer-Settled note message arg k = go (find_peer s arg)
    where
      go :
          (x : Result String ClientId)
          → Settled s (elim x as (λ y. AppState × Option SignalMessage) [
            | ok target ↦ (note target s, some (message target))
            | err reason ↦ (add_event (append reason (append ": " arg)) red s, none)
          ])
      go (ok t) = settle s (note t s) _ (k t)
      go (err reason) = logged _ red none

  host_command-Settled :
      (usage refusal : String) (message : ClientId → SignalMessage) (arg : String)
      → Settled s (host_command usage refusal message arg s)
  unfolding host_command
  host_command-Settled usage refusal message arg =
      if_all (Settled s) (is_blank arg) _ _ (logged _ _ none) (
        if_all (Settled s) (not s.is_host) _ _ (logged _ _ none)
          (with_peer-Settled _ message arg (λ t. (h, refl))))

  block_command-Settled :
      (usage verb : String) (message : ClientId → SignalMessage) (arg : String)
      → Settled s (block_command usage verb message arg s)
  unfolding block_command
  block_command-Settled usage verb message arg =
      if_all (Settled s) (is_blank arg) _ _ (logged _ _ none)
        (with_peer-Settled _ message arg (λ t. add_event-Keeps _ yellow s s (h, refl)))

  mute_command-Settled : Settled s (mute_command s)
  unfolding mute_command
  mute_command-Settled =
      let toggled : AppState = record s { self_muted = not s.self_muted } in
      let verb : String = if toggled.self_muted then "muted" else "unmuted" in
      let told = add_event (append "you " (append verb " yourself")) yellow toggled in
      let kept =
        add_event-Keeps (append "you " (append verb " yourself")) yellow s toggled (h, refl) in
      let noted =
        if_all (Keeps s) (not told.self_muted && told.server_muted)
          (add_event "note: still silenced by host" dark_gray told) told
          (add_event-Keeps "note: still silenced by host" dark_gray s told kept) kept in
      (noted.0, inl noted.1)

  add_lines-Keeps :
      (lines : List String) (s' : AppState) → Keeps s s' → Keeps s (add_lines lines s')
  unfolding add_lines
  add_lines-Keeps [] s' k = k
  add_lines-Keeps (l ∷ lines) s' k =
      add_lines-Keeps lines (add_event l white s') (add_event-Keeps l white s s' k)

  run_command-Settled : (cmd arg : String) → Settled s (run_command cmd arg s)
  unfolding run_command
  run_command-Settled cmd arg = if_all (Settled s) (is cmd "mute") _ _ mute_command-Settled (
      if_all (Settled s) (is cmd "kick") _ _ (host_command-Settled _ _ _ arg) (
        if_all (Settled s) (is cmd "forcemute") _ _ (host_command-Settled _ _ _ arg) (
          if_all (Settled s) (is cmd "forceunmute") _ _ (host_command-Settled _ _ _ arg) (
            if_all (Settled s) (is cmd "block") _ _ (block_command-Settled _ _ _ arg) (
              if_all (Settled s) (is cmd "unblock") _ _ (block_command-Settled _ _ _ arg) (
                if_all (Settled s) (is cmd "leave" || is cmd "quit" || is cmd "q") _ _ (h, inr refl)
                  (if_all (Settled s) (is cmd "help" || is cmd "?") _ _
                    (settle s (add_lines help_lines s) none
                      (add_lines-Keeps help_lines s (h, refl)))
                    (logged _ red none))))))))

  process_line-Settled : (line : String) → Settled s (process_line line s)
  unfolding process_line
  process_line-Settled String.[] = (h, inl refl)
  process_line-Settled (String.◌∷◌ c line) =
      if_all (Settled s) (not (code c == 47)) _ _ (logged _ dark_gray none)
        (run_command-Settled (split_space line).0 (trim (split_space line).1))

pub process_command-Settled : (s : AppState) → IsBounded s → Settled s (process_command s)
unfolding process_command
process_command-Settled s h = process_line-Settled (record s { input = String.[] }) h (trim s.input)
