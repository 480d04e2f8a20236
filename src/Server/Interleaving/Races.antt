-- ===== src/Server/Interleaving/Races.antt =====
-- Two joins that pass the check of the size of one room before either is in it.
use Prim.Native.Nat.{suc}
use Prim.Native.String.{String}
use voicemcu.Base.{
  ℕ, ◌+◌, ◌%◌, ◌<◌, ◌≡◌, ◌≢◌, refl, ap, ◌∙◌, Bool, true, false, none, some, List, [], ◌∷◌, ◌++◌, ok,
  arith, length, ==-ne,
}
use voicemcu.Base.Words.{u64_mod}
use voicemcu.Base.Assoc.{
  ℕ_eq, String_eq, lookup, insert, remove, contains, lookup-insert, lookup-insert_self,
  lookup-remove, beq_refl, length-insert,
}
use voicemcu.Protocol.{ClientId, SignalMessage}
use voicemcu.Server.{ClientState, new_client, Room, new_room, Server, next_id}
use voicemcu.Server.Session.{check_join, panicked}
use voicemcu.Server.Invariant.Joining.{ensure_existing, ensure_vacant}
use voicemcu.Server.Interleaving.{
  Phase, arrived, checked, roomed, placed, over, put_client, place, advance, sweep_room, happen,
  is_held, holds, waits_for_guard, world, Move, sweeps, unroll, room_size,
}
use voicemcu.Server.Interleaving.Stretches.{
  repeat, stretches, unroll-repeat, unroll-advance, repeat-step,
}
use voicemcu.Server.Interleaving.Alone.{advance-roomed}

-- A number, and the entry of a room that is there.
repeat-found :
    (s : Server) (connection : ℕ) (code name : String) (writable : Bool) (r : Room)
    → lookup code s.rooms ≡ some r
    → repeat 2 writable s (checked connection code name)
      ≡ ((next_id s).1, roomed connection code name (next_id s).0 false)
unfolding repeat advance next_id
repeat-found s connection code name writable r e =
    rw (ensure_existing (next_id s).1 code r e, repeat, advance) refl

pub repeat-arrived_ok :
    (s : Server) (connection : ℕ) (msg : SignalMessage) (writable : Bool) (code name : String)
    → check_join s msg ≡ ok (code, name)
    → repeat 1 writable s (arrived connection msg) ≡ (s, checked connection code name)
unfolding repeat advance
repeat-arrived_ok s connection msg writable code name e = rw (e, advance) refl

-- Both are checked, then both find the room, then the first goes to its place, then the second.
abbrev pub overtaking : List Move
overtaking =
    stretches 0 1 true
    ++ (stretches 1 1 true
        ++ (stretches 0 2 true
            ++ (stretches 1 2 true ++ (stretches 0 1 true ++ stretches 1 1 true))))

-- Where that leads.
unroll-overtaking :
    (s : Server) (first second : ℕ) (msg msg' : SignalMessage) (code name name' : String) (r : Room)
    → lookup code s.rooms ≡ some r
    → check_join s msg ≡ ok (code, name)
    → check_join s msg' ≡ ok (code, name')
    → (let r' = put_client (next_id s).0 (new_client name first) r in
        let id' = (next_id (next_id s).1).0 in
        (unroll (world s (arrived first msg ∷ arrived second msg' ∷ [])) overtaking).server.rooms
        ≡ insert code (put_client id' (new_client name' second) r') (insert code r' s.rooms))
unfolding unroll next_id is_held holds waits_for_guard repeat advance
unroll-overtaking s first second msg msg' code name name' r e passed passed' =
    let id = (next_id s).0 in
    let s1 = (next_id s).1 in
    let id' = (next_id s1).0 in
    let s2 = (next_id s1).1 in
    let r' = put_client id (new_client name first) r in
    let s' = record s2 { rooms = insert code r' s.rooms } in
    let last = stretches 0 1 true ++ stretches 1 1 true in
    ap (λ w. w.server.rooms)
      (unroll-repeat 1 true s s [] (arrived first msg) (checked first code name)
          (arrived second msg' ∷ [])
          (stretches 1 1 true ++ (stretches 0 2 true ++ (stretches 1 2 true ++ last))) (λ c. refl)
          (λ c. refl) (repeat-arrived_ok s first msg true code name passed)
        ∙ unroll-repeat 1 true s s (checked first code name ∷ []) (arrived second msg')
            (checked second code name') [] (stretches 0 2 true ++ (stretches 1 2 true ++ last))
            (λ c. refl) (λ c. refl) (repeat-arrived_ok s second msg' true code name' passed')
        ∙ unroll-repeat 2 true s s1 [] (checked first code name) (roomed first code name id false)
            (checked second code name' ∷ []) (stretches 1 2 true ++ last) (λ c. refl) (λ c. refl)
            (repeat-found s first code name true r e)
        ∙ unroll-repeat 2 true s1 s2 (roomed first code name id false ∷ [])
            (checked second code name') (roomed second code name' id' false) [] last (λ c. refl)
            (λ c. refl) (repeat-found s1 second code name' true r e)
        ∙ unroll-repeat 1 true s2 s' [] (roomed first code name id false)
            (placed first code name id false) (roomed second code name' id' false ∷ [])
            (stretches 1 1 true) (λ c. refl) (λ c. refl)
            (advance-roomed first code name id true false s2 r e)
        ∙ unroll-advance true s' (placed first code name id false ∷ [])
            (roomed second code name' id' false) [] [] refl
        ∙ ap (λ (x : Server × Phase). world x.0 (placed first code name id false ∷ (x.1 ∷ [])))
            (advance-roomed second code name' id' true false s' r'
              (lookup-insert_self code r' s.rooms)))

length-put_client :
    (id : ClientId) (state : ClientState) (r : Room)
    → contains id r.clients ≡ false
    → length (put_client id state r).clients ≡ suc (length r.clients)
unfolding put_client
length-put_client id state r fresh = ground (arith, length-insert id state r.clients, fresh)

-- Two joins of a room with one place left run in the order of `overtaking`: both pass the check of
-- its size, both draw an id and find the room, and then each puts its client into it. If neither id
-- is in the room already, it then holds one client more than `max_room_size`.
pub overtaking_overfills :
    (s : Server) (first second : ℕ) (msg msg' : SignalMessage) (code name name' : String) (r : Room)
    → lookup code s.rooms ≡ some r
    → suc (length r.clients) ≡ s.config.max_room_size
    → check_join s msg ≡ ok (code, name)
    → check_join s msg' ≡ ok (code, name')
    → s.next_client_id < u64_mod
    → contains s.next_client_id r.clients ≡ false
    → contains ((s.next_client_id + 1) % u64_mod) r.clients ≡ false
    → room_size
        (unroll (world s (arrived first msg ∷ arrived second msg' ∷ [])) overtaking).server
        code
      ≡ s.config.max_room_size + 1
unfolding room_size next_id put_client
overtaking_overfills s first second msg msg' code name name' r e left passed passed' small new
      new' =
    let id = s.next_client_id in
    let id' = (id + 1) % u64_mod in
    let state = new_client name first in
    let r' = put_client id state r in
    let apart : id ≢ id' = λ same. omega (arith, same, small) in
    let absent : contains id' r'.clients ≡ false =
      ground (arith, lookup-insert id id' state r.clients, ==-ne id id' apart, new') in
    rw
      (
        unroll-overtaking s first second msg msg' code name name' r e passed passed',
        room_size,
        lookup-insert_self code (put_client id' (new_client name' second) r')
            (insert code r' s.rooms),
      )
      (omega (
        arith,
        length-put_client id' (new_client name' second) r' absent,
        length-put_client id state r new,
        left,
      ))

-- A room is made, and cleaned up before the client for which it was made is in it.
abbrev pub undercutting : String → List Move
undercutting code = stretches 0 3 true ++ (sweeps code ∷ stretches 0 1 true)

repeat-vacant :
    (s : Server) (connection : ℕ) (msg : SignalMessage) (writable : Bool) (code name : String)
    → check_join s msg ≡ ok (code, name)
    → lookup code s.rooms ≡ none
    → repeat 3 writable s (arrived connection msg) ≡ (
      record (next_id s).1 { rooms = insert code new_room s.rooms },
      roomed connection code name (next_id s).0 true,
    )
unfolding repeat advance next_id
repeat-vacant s connection msg writable code name passed vacant =
    repeat-step 2 writable s s (arrived connection msg) (checked connection code name)
      (rw (passed, advance) refl)
    ∙ rw (ensure_vacant (next_id s).1 code vacant, repeat, advance) refl

sweep_room-empty :
    (s : Server) (code : String)
    → lookup code s.rooms ≡ some new_room
    → sweep_room s code ≡ (record s { rooms = remove code s.rooms })
unfolding sweep_room new_room
sweep_room-empty s code e = rw (e, sweep_room) refl

place-missing :
    (s : Server) (connection : ℕ) (code name : String) (id : ClientId)
    → lookup code s.rooms ≡ none
    → repeat 1 true s (roomed connection code name id true) ≡ (s, over panicked)
unfolding repeat advance place
place-missing s connection code name id e = rw (e, repeat, advance, place) refl

-- A join of a room that is not there passes the checks, makes the room, and finds it cleaned up: then
-- its handler panics at the lookup, and the server has no such room.
pub undercutting_panics :
    (s : Server) (connection : ℕ) (msg : SignalMessage) (code name : String)
    → check_join s msg ≡ ok (code, name)
    → lookup code s.rooms ≡ none
    → (let w = unroll (world s (arrived connection msg ∷ [])) (undercutting code) in
        (w.tasks ≡ over panicked ∷ []) × (lookup code w.server.rooms ≡ none))
unfolding unroll happen is_held holds
undercutting_panics s connection msg code name passed vacant =
    let s' = record (next_id s).1 { rooms = insert code new_room s.rooms } in
    let p = roomed connection code name (next_id s).0 true in
    let swept = record s' { rooms = remove code s'.rooms } in
    let gone : lookup code swept.rooms ≡ none =
      lookup-remove code code s'.rooms ∙ rw (beq_refl code) refl in
    let whole : unroll (world s (arrived connection msg ∷ [])) (undercutting code)
        ≡ world swept (over panicked ∷ []) =
      unroll-repeat 3 true s s' [] (arrived connection msg) p [] (sweeps code ∷ stretches 0 1 true)
        (λ c. refl) (λ c. refl) (repeat-vacant s connection msg true code name passed vacant)
      ∙ rw (sweep_room-empty s' code (lookup-insert_self code new_room s.rooms)) refl
      ∙ unroll-repeat 1 true swept swept [] p (over panicked) [] [] (λ c. refl) (λ c. refl)
          (place-missing swept connection code name (next_id s).0 gone) in
    (ap (λ w. w.tasks) whole, ap (λ w. lookup code w.server.rooms) whole ∙ gone)
