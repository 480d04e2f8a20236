-- ===== src/Server/Interleaving/Crowding.antt =====
-- How many clients a room can come to hold when joins overlap.
use Prim.Native.Nat.{zero, suc}
use Prim.Native.String.{String}
use voicemcu.Base.{
  ℕ, ◌+◌, ◌≤◌, ◌<◌, ◌≡◌, refl, ap, ◌∙◌, inl, inr, Bool, List, [], ◌∷◌, ◌++◌, arith, length, ltb,
  Bool-cases, Option-cases,
}
use voicemcu.Base.Assoc.{ℕ_eq, String_eq, lookup, lookup-remove}
use voicemcu.Config.{ServerConfig}
use voicemcu.Protocol.{SignalMessage}
use voicemcu.Server.{Server, new_server}
use voicemcu.Server.Interleaving.{
  Phase, arrived, advance_at, is_held, is_blocked, sweep_room, World, world, Move, arrives,
  advances, sends, disconnects, sweeps, happen, unroll, room_size, waits, waiting, AtMost,
}
use voicemcu.Server.Interleaving.Shrinking.{signaling_turn-Shrinks, disconnect-Shrinks}
use voicemcu.Server.Interleaving.Filling.{weight, Fills, Shrinks-Fills, advance-Fills}

-- The other joins are as they were.
advance_at-Fills :
    (i : ℕ) (writable : Bool) (s : Server) (code : String) (tasks : List Phase)
    → 0 < s.config.max_room_size
    → Fills code s
        (waiting code tasks)
        (advance_at i writable s tasks).0
        (waiting code (advance_at i writable s tasks).1)
unfolding advance_at waiting
advance_at-Fills i writable s code [] roomy = (refl, inl (omega arith))
advance_at-Fills zero writable s code (p ∷ tasks) roomy =
    let (same, fills) = advance-Fills writable s code p roomy in
    (same, elim fills [ inl h ↦ inl (omega (arith, h)) | inr h ↦ inr h ])
advance_at-Fills (suc i) writable s code (p ∷ tasks) roomy =
    let (same, fills) = advance_at-Fills i writable s code tasks roomy in
    (same, elim fills [ inl h ↦ inl (omega (arith, h)) | inr h ↦ inr h ])

waiting-arrived :
    (code : String) (connection : ℕ) (msg : SignalMessage) (tasks : List Phase)
    → waiting code (tasks ++ arrived connection msg ∷ []) ≡ waiting code tasks
unfolding waiting waits
waiting-arrived code connection msg [] = refl
waiting-arrived code connection msg (p ∷ tasks) =
    ap (λ n. weight code p + n) (waiting-arrived code connection msg tasks)

sweep_room-Fills :
    (s : Server) (code room_code : String) (n : ℕ) → Fills code s n (sweep_room s room_code) n
unfolding sweep_room room_size
sweep_room-Fills s code room_code n = elim (Option-cases (lookup room_code s.rooms)) [
  | inl e ↦ rw (e, sweep_room) (refl, inl (omega arith))
  | inr (r, e) ↦ elim (Bool-cases (ltb 0 (length r.clients))) [
    | inl busy ↦ rw (e, busy, sweep_room) (refl, inl (omega arith))
    | inr idle ↦
        rw (e, idle, sweep_room) (refl, inl (ground (arith, lookup-remove room_code code s.rooms)))
  ]
]

happen-Fills :
    (code : String) (w : World) (m : Move)
    → 0 < w.server.config.max_room_size
    → Fills code w.server
        (waiting code w.tasks)
        (happen w m).server
        (waiting code (happen w m).tasks)
unfolding happen
happen-Fills code w (arrives connection msg) roomy =
    (refl, inl (omega (arith, waiting-arrived code connection msg w.tasks)))
happen-Fills code w (advances task writable) roomy = elim (Bool-cases (is_blocked task w.tasks)) [
  | inl held ↦ rw (held, happen) (refl, inl (omega arith))
  | inr free ↦ rw (free, happen) (advance_at-Fills task writable w.server code w.tasks roomy)
]
happen-Fills code w (sends room_code id connection bucket now msg) roomy =
    Shrinks-Fills code _ (signaling_turn-Shrinks w.server bucket room_code id connection now msg)
happen-Fills code w (disconnects room_code id connection) roomy =
    Shrinks-Fills code _ (disconnect-Shrinks w.server room_code id connection)
happen-Fills code w (sweeps room_code) roomy = elim (Bool-cases (is_held room_code w.tasks)) [
  | inl held ↦ rw (held, happen) (refl, inl (omega arith))
  | inr free ↦ rw (free, happen) (sweep_room-Fills w.server code room_code _)
]

unroll-Fills :
    (limit k : ℕ) (code : String) (w : World) (moves : List Move)
    → 0 < limit
    → w.server.config.max_room_size ≡ limit
    → room_size w.server code + waiting code w.tasks < limit + k
    → AtMost k code w moves
    → room_size (unroll w moves).server code + waiting code (unroll w moves).tasks < limit + k
unfolding unroll AtMost
unroll-Fills limit k code w [] roomy same h bounded = h
unroll-Fills limit k code w (m ∷ moves) roomy same h (now, later) =
    let (kept, fills) = happen-Fills code w m (rw same roomy) in
    let soon = AtMost-now k code (happen w m) moves later in
    unroll-Fills limit k code (happen w m) moves roomy
      (ap (λ (c : ServerConfig). c.max_room_size) kept ∙ same)
      (elim fills [ inl less ↦ omega (arith, less) | inr free ↦ omega (arith, free, soon, same) ])
      later
  where
    AtMost-now :
        (k : ℕ) (code : String) (w : World) (moves : List Move)
        → AtMost k code w moves
        → waiting code w.tasks ≤ k
    AtMost-now k code w [] h = h
    AtMost-now k code w (m ∷ moves) h = h.0

-- Whatever order the stretches of joins, messages, departures and cleanups run in: as long as no
-- more than `k` joins of a room are between the check of its size and the insertion at a time,
-- its clients and those joins are fewer than `max_room_size + k` together. So the room holds at
-- most `max_room_size` clients if joins of it do not overlap there, and `k - 1` more if they do.
pub room_size_bounded :
    (config : ServerConfig) (seed k : ℕ) (code : String) (moves : List Move)
    → 0 < config.max_room_size
    → AtMost k code (world (new_server config seed) []) moves
    → (let w = unroll (world (new_server config seed) []) moves in
        room_size w.server code + waiting code w.tasks < config.max_room_size + k)
unfolding new_server room_size waiting lookup
room_size_bounded config seed k code moves roomy bounded =
    unroll-Fills config.max_room_size k code _ moves roomy refl (omega arith) bounded
