-- ===== src/Server/Interleaving/Panics.antt =====
-- When the lookup of the room in `handle_connection` panics.
use Prim.Native.Nat.{zero, suc}
use Prim.Native.String.{String}
use voicemcu.Base.{
  ℕ, ◌≡◌, ◌≢◌, refl, inl, inr, Bool, true, false, List, [], ◌∷◌, ◌++◌, Result, ok, err, arith,
  if◌then◌else◌, Bool-cases, Option-cases,
}
use voicemcu.Base.Assoc.{ℕ_eq, String_eq, lookup, contains, lookup-insert_self, contains-insert}
use voicemcu.Config.{ServerConfig}
use voicemcu.Protocol.{ClientId, SignalMessage}
use voicemcu.Server.{new_client, new_room, Server, new_server, next_id}
use voicemcu.Server.Session.{panicked, check_join, ensure_room}
use voicemcu.Server.Interleaving.{
  Phase, arrived, checked, numbered, roomed, placed, claimed, announced, over, put_client, place,
  advance, advance_at, is_blocked, World, world, Move, arrives, advances, sends, disconnects,
  sweeps, happen, unroll,
}
use voicemcu.Server.Interleaving.Shrinking.{signaling_turn-Shrinks, disconnect-Shrinks}
use voicemcu.Server.Interleaving.Filling.{claim_in-Shrinks, send_command-Shrinks}

-- A room that was made or found is there, and nothing panicked.
unfoldable pub IsSafe : Server → Phase → Type 0
IsSafe s (roomed connection room_code display_name client_id is_new_room) =
    contains room_code s.rooms ≡ true
IsSafe s (over outcome) = outcome ≢ panicked
IsSafe s _ = Unit

unfoldable pub AllSafe : Server → List Phase → Type 0
AllSafe s [] = Unit
AllSafe s (p ∷ tasks) = IsSafe s p × AllSafe s tasks

-- No room goes.
abbrev Keeps : Server → Server → Type 0
Keeps s s' = (code : String) → contains code s.rooms ≡ true → contains code s'.rooms ≡ true

IsSafe-Keeps : (s s' : Server) (p : Phase) → Keeps s s' → IsSafe s p → IsSafe s' p
unfolding IsSafe
IsSafe-Keeps s s' (arrived connection msg) keeps safe = safe
IsSafe-Keeps s s' (checked connection code name) keeps safe = safe
IsSafe-Keeps s s' (numbered connection code name id) keeps safe = safe
IsSafe-Keeps s s' (roomed connection code name id is_new_room) keeps safe = keeps code safe
IsSafe-Keeps s s' (placed connection code name id is_new_room) keeps safe = safe
IsSafe-Keeps s s' (claimed connection code name id is_new_room became_host) keeps safe = safe
IsSafe-Keeps s s' (announced connection code name id is_new_room became_host) keeps safe = safe
IsSafe-Keeps s s' (over outcome) keeps safe = safe

AllSafe-Keeps :
    (s s' : Server) (tasks : List Phase) → Keeps s s' → AllSafe s tasks → AllSafe s' tasks
unfolding AllSafe
AllSafe-Keeps s s' [] keeps safe = safe
AllSafe-Keeps s s' (p ∷ tasks) keeps (now, rest) =
    (IsSafe-Keeps s s' p keeps now, AllSafe-Keeps s s' tasks keeps rest)

-- What a stretch of a safe join does.
abbrev Advances : Server → Server × Phase → Type 0
Advances s r = Keeps s r.0 × IsSafe r.0 r.1

arrived-Advances :
    (writable : Bool) (s : Server) (connection : ℕ) (msg : SignalMessage)
    → Advances s (advance writable s (arrived connection msg))
unfolding advance IsSafe
arrived-Advances writable s connection msg = by_check (check_join s msg) refl
  where
    by_check :
        (x : Result String (String × String))
        → check_join s msg ≡ x
        → Advances s (advance writable s (arrived connection msg))
    by_check (err reason) e = rw (e, advance) ((λ code there. there), (λ same. cc))
    by_check (ok (room_code, name)) e = rw (e, advance) ((λ code there. there), tt)

ensure_room-contains :
    (s : Server) (room_code : String)
    → Keeps s (ensure_room s room_code).0
      × (contains room_code (ensure_room s room_code).0.rooms ≡ true)
unfolding ensure_room
ensure_room-contains s room_code = elim (Option-cases (lookup room_code s.rooms)) [
  | inr (r, e) ↦ rw (e, ensure_room) ((λ code there. there), ground (arith, e))
  | inl e ↦
      rw (e, ensure_room)
        (
          (λ code there. ground (arith, contains-insert room_code code new_room s.rooms, there)),
          ground (arith, lookup-insert_self room_code new_room s.rooms),
        )
]

roomed-Advances :
    (writable : Bool) (s : Server) (connection : ℕ) (room_code name : String) (id : ClientId)
    (is_new_room : Bool)
    → contains room_code s.rooms ≡ true
    → Advances s (advance writable s (roomed connection room_code name id is_new_room))
unfolding advance place IsSafe
roomed-Advances writable s connection room_code name id is_new_room there =
    elim (Option-cases (lookup room_code s.rooms)) [
      | inl e ↦ absurd (ground (arith, e, there))
      | inr (r, e) ↦
          let r' = put_client id (new_client name connection) r in
          rw (e, advance, place)
            ((λ code found. ground (arith, contains-insert room_code code r' s.rooms, found)), tt)
    ]

advance-Advances :
    (writable : Bool) (s : Server) (p : Phase) → IsSafe s p → Advances s (advance writable s p)
unfolding advance IsSafe next_id
advance-Advances writable s (arrived connection msg) safe =
    arrived-Advances writable s connection msg
advance-Advances writable s (checked connection code name) safe = ((λ other there. there), tt)
advance-Advances writable s (numbered connection code name id) safe = ensure_room-contains s code
advance-Advances writable s (roomed connection code name id is_new_room) safe =
    roomed-Advances writable s connection code name id is_new_room safe
advance-Advances writable s (placed connection code name id is_new_room) safe =
    ((claim_in-Shrinks s code id is_new_room).kept, tt)
advance-Advances writable s (claimed connection code name id is_new_room became_host) safe =
    ((send_command-Shrinks s code _).kept, tt)
advance-Advances true s (announced connection code name id is_new_room became_host) safe =
    ((λ other there. there), (λ same. cc))
advance-Advances false s (announced connection code name id is_new_room became_host) safe =
    ((λ other there. there), (λ same. cc))
advance-Advances writable s (over outcome) safe = ((λ other there. there), safe)

advance_at-AllSafe :
    (i : ℕ) (writable : Bool) (s : Server) (tasks : List Phase)
    → AllSafe s tasks
    → Keeps s (advance_at i writable s tasks).0
      × AllSafe (advance_at i writable s tasks).0 (advance_at i writable s tasks).1
unfolding advance_at AllSafe
advance_at-AllSafe i writable s [] safe = ((λ code there. there), tt)
advance_at-AllSafe zero writable s (p ∷ tasks) (now, rest) =
    let (keeps, safe) = advance-Advances writable s p now in
    (keeps, (safe, AllSafe-Keeps s (advance writable s p).0 tasks keeps rest))
advance_at-AllSafe (suc i) writable s (p ∷ tasks) (now, rest) =
    let (keeps, safe) = advance_at-AllSafe i writable s tasks rest in
    (keeps, (IsSafe-Keeps s (advance_at i writable s tasks).0 p keeps now, safe))

AllSafe-arrived :
    (s : Server) (connection : ℕ) (msg : SignalMessage) (tasks : List Phase)
    → AllSafe s tasks
    → AllSafe s (tasks ++ arrived connection msg ∷ [])
unfolding AllSafe IsSafe
AllSafe-arrived s connection msg [] safe = (tt, tt)
AllSafe-arrived s connection msg (p ∷ tasks) (now, rest) =
    (now, AllSafe-arrived s connection msg tasks rest)

abbrev pub is_sweep : Move → Bool
is_sweep (sweeps code) = true
is_sweep _ = false

-- No cleanup runs.
unfoldable pub sweepless : List Move → Bool
sweepless [] = true
sweepless (m ∷ moves) = if is_sweep m then false else sweepless moves

happen-AllSafe :
    (w : World) (m : Move)
    → is_sweep m ≡ false
    → AllSafe w.server w.tasks
    → AllSafe (happen w m).server (happen w m).tasks
unfolding happen
happen-AllSafe w (arrives connection msg) kind safe =
    AllSafe-arrived w.server connection msg w.tasks safe
happen-AllSafe w (advances task writable) kind safe = elim (Bool-cases (is_blocked task w.tasks)) [
  | inl held ↦ rw (held, happen) safe
  | inr free ↦ rw (free, happen) (advance_at-AllSafe task writable w.server w.tasks safe).1
]
happen-AllSafe w (sends code id connection bucket now msg) kind safe =
    AllSafe-Keeps _ _ w.tasks
      (signaling_turn-Shrinks w.server bucket code id connection now msg).kept safe
happen-AllSafe w (disconnects code id connection) kind safe =
    AllSafe-Keeps _ _ w.tasks (disconnect-Shrinks w.server code id connection).kept safe
happen-AllSafe w (sweeps code) kind safe = absurd cc

unroll-AllSafe :
    (w : World) (moves : List Move)
    → sweepless moves ≡ true
    → AllSafe w.server w.tasks
    → AllSafe (unroll w moves).server (unroll w moves).tasks
unfolding unroll sweepless
unroll-AllSafe w [] none_swept safe = safe
unroll-AllSafe w (m ∷ moves) none_swept safe = elim (Bool-cases (is_sweep m)) [
  | inl swept ↦ absurd (ground (arith, swept, none_swept))
  | inr other ↦
      unroll-AllSafe (happen w m) moves (ground (arith, other, none_swept))
        (happen-AllSafe w m other safe)
]

abbrev pub is_panicked : Phase → Bool
is_panicked (over panicked) = true
is_panicked _ = false

unfoldable pub any_panicked : List Phase → Bool
any_panicked [] = false
any_panicked (p ∷ tasks) = if is_panicked p then true else any_panicked tasks

AllSafe-any_panicked :
    (s : Server) (tasks : List Phase) → AllSafe s tasks → any_panicked tasks ≡ false
unfolding AllSafe IsSafe any_panicked
AllSafe-any_panicked s [] safe = refl
AllSafe-any_panicked s (over panicked ∷ tasks) (now, rest) = absurd (now refl)
AllSafe-any_panicked s (p ∷ tasks) (now, rest) = AllSafe-any_panicked s tasks rest

-- Whatever order the stretches of joins, messages and departures run in: as long as no cleanup
-- runs, no join panics at the lookup of the room that it made or found.
pub sweepless-any_panicked :
    (config : ServerConfig) (seed : ℕ) (moves : List Move)
    → sweepless moves ≡ true
    → any_panicked (unroll (world (new_server config seed) []) moves).tasks ≡ false
unfolding AllSafe
sweepless-any_panicked config seed moves none_swept =
    AllSafe-any_panicked _ _
      (unroll-AllSafe (world (new_server config seed) []) moves none_swept tt)
