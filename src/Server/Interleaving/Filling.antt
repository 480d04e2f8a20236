-- ===== src/Server/Interleaving/Filling.antt =====
-- What one stretch of a join does to the number of clients of each room.
use Prim.Native.String.{String}
use voicemcu.Base.{
  ℕ, ◌+◌, ◌≤◌, ◌<◌, ◌≡◌, refl, sym, ap, ◌∙◌, ◌⊎◌, inl, inr, Bool, false, some, Result, ok, err,
  arith, length, if◌then◌else◌, Bool-cases, Option-cases,
}
use voicemcu.Base.Assoc.{ℕ_eq, String_eq, lookup, insert, lookup-insert, length-insert}
use voicemcu.Protocol.{ClientId, SignalMessage}
use voicemcu.Server.{
  MixCommand, ClientState, new_client, Room, new_room, update_room, Server, next_id, try_claim_host,
  swap_host,
}
use voicemcu.Server.Session.{is_full, check_join, ensure_room, send_command}
use voicemcu.Server.Invariant.Joining.{check_join-has_room}
use voicemcu.Server.Interleaving.{
  Phase, arrived, checked, numbered, roomed, placed, claimed, announced, over, claim, put_client,
  place, claim_in, advance, room_size, waits,
}
use voicemcu.Server.Interleaving.Shrinking.{Shrinks, Shrinks-self, update_room-Shrinks, put-Shrinks}

abbrev pub weight : String → Phase → ℕ
weight code p = if waits code p then 1 else 0

-- What is taken of a room, by its clients and the joins on their way to it, does not grow, or the
-- room was found with a place left.
abbrev pub Fills : String → Server → ℕ → Server → ℕ → Type 0
Fills code s n s' n' =
    (s'.config ≡ s.config)
    × ((room_size s' code + n' ≤ room_size s code + n)
        ⊎ (room_size s' code < s.config.max_room_size))

pub Shrinks-Fills : {s s' : Server} (code : String) (n : ℕ) → Shrinks s s' → Fills code s n s' n
Shrinks-Fills code n shrinks = (shrinks.same_config, inl (omega (arith, shrinks.smaller code)))

-- A room that a check let through has a place left.
room_size-checked :
    (s : Server) (code : String)
    → 0 < s.config.max_room_size
    → is_full s code ≡ false
    → room_size s code < s.config.max_room_size
unfolding room_size is_full
room_size-checked s code roomy free = elim (Option-cases (lookup code s.rooms)) [
  | inl e ↦ rw (e, room_size) (omega arith)
  | inr (r, e) ↦ ground (arith, e, free)
]

arrived-Fills :
    (writable : Bool) (s : Server) (code : String) (connection : ℕ) (msg : SignalMessage)
    → 0 < s.config.max_room_size
    → Fills code s 0
        (advance writable s (arrived connection msg)).0
        (weight code (advance writable s (arrived connection msg)).1)
unfolding advance waits
arrived-Fills writable s code connection msg roomy = by_check (check_join s msg) refl
  where
    by_check :
        (x : Result String (String × String))
        → check_join s msg ≡ x
        → Fills code s 0
            (advance writable s (arrived connection msg)).0
            (weight code (advance writable s (arrived connection msg)).1)
    by_check (err reason) e = rw (e, advance) (refl, inl (omega arith))
    by_check (ok (room_code, name)) e = elim (Bool-cases (String_eq.beq room_code code)) [
      | inr other ↦ rw (e, advance) (refl, inl (ground (arith, other)))
      | inl same ↦
          let free = check_join-has_room s msg room_code name e in
          let here : room_code ≡ code = (String_eq.beq_iff room_code code).0 same in
          rw (e, advance)
            (refl, inr (room_size-checked s code roomy (ap (is_full s) (sym here) ∙ free)))
    ]

-- A new room is empty.
ensure_room-Fills :
    (s : Server) (code room_code : String) (n : ℕ) → Fills code s n (ensure_room s room_code).0 n
unfolding ensure_room room_size new_room
ensure_room-Fills s code room_code n = elim (Option-cases (lookup room_code s.rooms)) [
  | inr (r, e) ↦ rw (e, ensure_room) (refl, inl (omega arith))
  | inl e ↦
      rw (e, ensure_room)
        (
          refl,
          inl (
              ground (
                arith,
                lookup-insert room_code code new_room s.rooms,
                e,
                String_eq.beq_iff room_code code,
              )),
        )
]

-- One more client for one join less.
put-Fills :
    (s : Server) (code room_code : String) (id : ClientId) (state : ClientState) (r : Room)
    → lookup room_code s.rooms ≡ some r
    → Fills code s
        (if String_eq.beq room_code code then 1 else 0)
        (record s { rooms = insert room_code (put_client id state r) s.rooms })
        0
unfolding room_size put_client
put-Fills s code room_code id state r e = (
  refl,
  inl (
      ground (
        arith,
        lookup-insert room_code code (put_client id state r) s.rooms,
        e,
        String_eq.beq_iff room_code code,
        length-insert id state r.clients,
      )),
)

place-Fills :
    (writable : Bool) (s : Server) (code room_code name : String) (connection : ℕ) (id : ClientId)
    (is_new_room : Bool)
    → Fills code s
        (weight code (roomed connection room_code name id is_new_room))
        (advance writable s (roomed connection room_code name id is_new_room)).0
        (weight code (advance writable s (roomed connection room_code name id is_new_room)).1)
unfolding advance place waits
place-Fills writable s code room_code name connection id is_new_room =
    elim (Option-cases (lookup room_code s.rooms)) [
      | inl e ↦ rw (e, advance, place) (refl, inl (omega arith))
      | inr (r, e) ↦
          rw (e, advance, place) (put-Fills s code room_code id (new_client name connection) r e)
    ]

clients-claim :
    (r : Room) (id : ClientId) (is_new_room : Bool) → (claim r id is_new_room).0.clients ≡ r.clients
unfolding claim try_claim_host swap_host
clients-claim r id is_new_room = ground arith

pub claim_in-Shrinks :
    (s : Server) (room_code : String) (id : ClientId) (is_new_room : Bool)
    → Shrinks s (claim_in s room_code id is_new_room).0
unfolding claim_in
claim_in-Shrinks s room_code id is_new_room = elim (Option-cases (lookup room_code s.rooms)) [
  | inl e ↦ rw (e, claim_in) (Shrinks-self s)
  | inr (r, e) ↦
      rw (e, claim_in)
        (put-Shrinks s room_code r (claim r id is_new_room).0 e
          (omega (arith, ap length (clients-claim r id is_new_room))))
]

pub send_command-Shrinks :
    (s : Server) (room_code : String) (c : MixCommand)
    → Shrinks s (update_room s room_code (send_command c))
unfolding send_command
send_command-Shrinks s room_code c = update_room-Shrinks s room_code _ (λ r. omega arith)

pub advance-Fills :
    (writable : Bool) (s : Server) (code : String) (p : Phase)
    → 0 < s.config.max_room_size
    → Fills code s (weight code p) (advance writable s p).0 (weight code (advance writable s p).1)
unfolding advance waits next_id room_size
advance-Fills writable s code (arrived connection msg) roomy =
    arrived-Fills writable s code connection msg roomy
advance-Fills writable s code (checked connection room_code name) roomy = (refl, inl (omega arith))
advance-Fills writable s code (numbered connection room_code name id) roomy =
    ensure_room-Fills s code room_code _
advance-Fills writable s code (roomed connection room_code name id is_new_room) roomy =
    place-Fills writable s code room_code name connection id is_new_room
advance-Fills writable s code (placed connection room_code name id is_new_room) roomy =
    Shrinks-Fills code 0 (claim_in-Shrinks s room_code id is_new_room)
advance-Fills writable s code (claimed connection room_code name id is_new_room became_host) roomy =
    Shrinks-Fills code 0 (send_command-Shrinks s room_code _)
advance-Fills writable s code (announced connection room_code name id is_new_room became_host) _ =
    (refl, inl (omega arith))
advance-Fills writable s code (over outcome) roomy = (refl, inl (omega arith))
