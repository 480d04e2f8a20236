-- ===== src/Server/Interleaving/Hosts.antt =====
-- A client that claims the host of a room before the client that made the room is in it.
use Prim.Native.String.{String}
use voicemcu.Base.{ℕ, ◌≡◌, refl, ap, ◌∙◌, Bool, true, false, none, some, List, [], ◌∷◌, ◌++◌, ok}
use voicemcu.Base.Assoc.{String_eq, lookup, insert, lookup-insert_self}
use voicemcu.Protocol.{ClientId, SignalMessage}
use voicemcu.Server.{new_client, Room, new_room, Server, next_id, try_claim_host, swap_host}
use voicemcu.Server.Session.{check_join, seat}
use voicemcu.Server.Invariant.Joining.{ensure_existing, ensure_vacant}
use voicemcu.Server.Interleaving.{
  arrived, checked, numbered, roomed, placed, claimed, put_client, advance, world, Move, unroll,
  is_held, holds,
}
use voicemcu.Server.Interleaving.Stretches.{repeat, stretches, unroll-repeat, repeat-step}
use voicemcu.Server.Interleaving.Alone.{advance-roomed, advance-placed, claim_in-placed}
use voicemcu.Server.Interleaving.Races.{repeat-arrived_ok}

-- Both are checked; the first makes the room; the second goes into it and claims the host; then
-- the first does.
abbrev pub usurping : List Move
usurping =
    stretches 0 1 true
    ++ (stretches 1 1 true ++ (stretches 0 2 true ++ (stretches 1 4 true ++ stretches 0 2 true)))

repeat-makes :
    (s : Server) (connection : ℕ) (code name : String)
    → lookup code s.rooms ≡ none
    → repeat 2 true s (checked connection code name) ≡ (
      record (next_id s).1 { rooms = insert code new_room s.rooms },
      roomed connection code name (next_id s).0 true,
    )
unfolding repeat advance next_id
repeat-makes s connection code name vacant =
    rw (ensure_vacant (next_id s).1 code vacant, repeat, advance) refl

-- The two stretches under the guard.
repeat-roomed :
    (s : Server) (connection : ℕ) (code name : String) (id : ClientId) (is_new_room : Bool)
    (r : Room)
    → lookup code s.rooms ≡ some r
    → repeat 2 true s (roomed connection code name id is_new_room) ≡ (
      record s {
        rooms = insert code (seat r id (new_client name connection) is_new_room).0 s.rooms;
      },
      claimed connection code name id is_new_room
          (seat r id (new_client name connection) is_new_room).1,
    )
unfolding repeat
repeat-roomed s connection code name id is_new_room r e =
    let state = new_client name connection in
    repeat-step 1 true s (record s { rooms = insert code (put_client id state r) s.rooms })
      (roomed connection code name id is_new_room) (placed connection code name id is_new_room)
      (advance-roomed connection code name id true is_new_room s r e)
    ∙ advance-placed connection code name id true is_new_room _ _ _
        (claim_in-placed s code id state is_new_room r)

repeat-claims :
    (s : Server) (connection : ℕ) (code name : String) (r : Room)
    → lookup code s.rooms ≡ some r
    → repeat 4 true s (checked connection code name) ≡ (
      record (next_id s).1 {
        rooms = insert code (seat r (next_id s).0 (new_client name connection) false).0 s.rooms;
      },
      claimed connection code name
          (next_id s).0
          false
          (seat r (next_id s).0 (new_client name connection) false).1,
    )
unfolding advance next_id
repeat-claims s connection code name r e =
    let id = (next_id s).0 in
    repeat-step 3 true s (next_id s).1 (checked connection code name)
      (numbered connection code name id) refl
    ∙ repeat-step 2 true (next_id s).1 (next_id s).1 (numbered connection code name id)
        (roomed connection code name id false)
        (rw (ensure_existing (next_id s).1 code r e, advance) refl)
    ∙ repeat-roomed (next_id s).1 connection code name id false r e

-- Two joins of a room that is not there pass the checks, and the second, which finds the room that
-- the first made, goes into it before the first does: then each of the two handlers has it that
-- its client became the host, and the host of the room is the first.
pub usurping_hosts :
    (s : Server) (first second : ℕ) (msg msg' : SignalMessage) (code name name' : String)
    → check_join s msg ≡ ok (code, name)
    → check_join s msg' ≡ ok (code, name')
    → lookup code s.rooms ≡ none
    → (let id = (next_id s).0 in
        let id' = (next_id (next_id s).1).0 in
        let w = unroll (world s (arrived first msg ∷ arrived second msg' ∷ [])) usurping in
        (w.tasks
          ≡ claimed first code name id true true ∷ claimed second code name' id' false true ∷ [])
        × ((r : Room) × (lookup code w.server.rooms ≡ some r) × (r.host ≡ id)))
unfolding is_held holds unroll next_id seat try_claim_host swap_host new_room
usurping_hosts s first second msg msg' code name name' passed passed' vacant =
    let id = (next_id s).0 in
    let made = record (next_id s).1 { rooms = insert code new_room s.rooms } in
    let id' = (next_id made).0 in
    let r' = (seat new_room id' (new_client name' second) false).0 in
    let s' = record (next_id made).1 { rooms = insert code r' made.rooms } in
    let r = (seat r' id (new_client name first) true).0 in
    let whole : unroll (world s (arrived first msg ∷ arrived second msg' ∷ [])) usurping
        ≡ world (record s' { rooms = insert code r s'.rooms })
            (claimed first code name id true true ∷ claimed second code name' id' false true ∷ []) =
      unroll-repeat 1 true s s [] (arrived first msg) (checked first code name)
        (arrived second msg' ∷ [])
        (stretches 1 1 true ++ (stretches 0 2 true ++ (stretches 1 4 true ++ stretches 0 2 true)))
        (λ c. refl) (λ c. refl) (repeat-arrived_ok s first msg true code name passed)
      ∙ unroll-repeat 1 true s s (checked first code name ∷ []) (arrived second msg')
          (checked second code name') []
          (stretches 0 2 true ++ (stretches 1 4 true ++ stretches 0 2 true)) (λ c. refl) (λ c. refl)
          (repeat-arrived_ok s second msg' true code name' passed')
      ∙ unroll-repeat 2 true s made [] (checked first code name) (roomed first code name id true)
          (checked second code name' ∷ []) (stretches 1 4 true ++ stretches 0 2 true) (λ c. refl)
          (λ c. refl) (repeat-makes s first code name vacant)
      ∙ unroll-repeat 4 true made s' (roomed first code name id true ∷ [])
          (checked second code name') (claimed second code name' id' false true) []
          (stretches 0 2 true) (λ c. refl) (λ c. refl)
          (repeat-claims made second code name' new_room (lookup-insert_self code new_room s.rooms))
      ∙ unroll-repeat 2 true s' _ [] (roomed first code name id true)
          (claimed first code name id true true) (claimed second code name' id' false true ∷ []) []
          (λ c. refl) (λ c. refl)
          (repeat-roomed s' first code name id true r' (lookup-insert_self code r' made.rooms)) in
    (
      ap (λ w. w.tasks) whole,
      (r, ap (λ w. lookup code w.server.rooms) whole ∙ lookup-insert_self code r s'.rooms, refl),
    )
