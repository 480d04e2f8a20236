-- ===== src/Server/Invariant/Leaving.antt =====
-- The invariant of the server over the departure of a client.
use Prim.Native.String.{String}
use voicemcu.Base.{
  ℕ, ◌≡◌, refl, inl, inr, Bool, true, false, Option, none, some, List, [], arith, if◌then◌else◌,
  Option-cases,
}
use voicemcu.Base.Assoc.{
  ℕ_eq, String_eq, lookup, insert, modify, insert-IsUnique, modify-IsUnique, rewritten-Each,
  lookup-modify_self,
}
use voicemcu.Protocol.{ClientId}
use voicemcu.Server.{Room, Server, transfer_host_from, update_room, Output}
use voicemcu.Server.Session.{is_present, drop_client, pass_host, host_notices, depart, disconnect}
use voicemcu.Server.Invariant.{RoomOk, ServerOk}
use voicemcu.Server.Invariant.Departures.{leave-RoomOk}

-- The transfer of the host writes the room, whether or not there is a new host.
pub pass_host_found :
    (s : Server) (code : String) (id : ClientId) (r : Room)
    → lookup code s.rooms ≡ some r
    → (pass_host s code id).0
      ≡ (record s { rooms = insert code (transfer_host_from r id).0 s.rooms })
unfolding pass_host
pass_host_found s code id r e = rw (e, pass_host) (passed (transfer_host_from r id).1 refl)
  where
    passed :
        (o : Option ClientId)
        → (transfer_host_from r id).1 ≡ o
        → (elim (transfer_host_from r id).1 as (λ x. Server × List Output) [
          | none ↦ (record s { rooms = insert code (transfer_host_from r id).0 s.rooms }, [])
          | some new_host ↦ (
            record s { rooms = insert code (transfer_host_from r id).0 s.rooms },
            host_notices
                (record s { rooms = insert code (transfer_host_from r id).0 s.rooms })
                code
                (transfer_host_from r id).0
                new_host,
          )
        ]).0
          ≡ (record s { rooms = insert code (transfer_host_from r id).0 s.rooms })
    passed none k = rw k refl
    passed (some x) k = rw k refl

-- The tail of `handle_connection` for a client that is in its room.
pub depart_found :
    (s : Server) (code : String) (id : ClientId) (r : Room)
    → lookup code s.rooms ≡ some r
    → (depart s code id).0 ≡ (record s {
      rooms =
          insert code
            (transfer_host_from (drop_client id r) id).0
            (modify code (drop_client id) s.rooms);
    })
unfolding depart update_room
depart_found s code id r e =
    pass_host_found (update_room s code (drop_client id)) code id (drop_client id r)
      (lookup-modify_self code (drop_client id) s.rooms e)

depart-ServerOk :
    {cap : ℕ} (s : Server) (code : String) (id : ClientId) (r : Room)
    → lookup code s.rooms ≡ some r
    → ServerOk cap s
    → ServerOk cap (depart s code id).0
depart-ServerOk s code id r e fine = rw (depart_found s code id r e) (record {
  distinct = insert-IsUnique code _ _ (modify-IsUnique code (drop_client id) s.rooms fine.distinct);
  counter = fine.counter;
  roomy = fine.roomy;
  each =
      rewritten-Each (RoomOk s.config.max_room_size s.next_client_id) code (drop_client id) _
        s.rooms (leave-RoomOk r id (fine.each code r e)) fine.each;
})

pub present_room :
    (s : Server) (code : String) (id : ClientId)
    → is_present s code id ≡ true
    → (r : Room) × (lookup code s.rooms ≡ some r)
present_room s code id h = elim (Option-cases (lookup code s.rooms)) [
  | inl e ↦ absurd (ground (arith, e, h))
  | inr found ↦ found
]

-- A client that is not there any more leaves nothing to do.
pub disconnect-ServerOk :
    {cap : ℕ} (s : Server) (code : String) (id : ClientId) (connection : ℕ)
    → ServerOk cap s
    → ServerOk cap (disconnect s code id connection).0
unfolding disconnect
disconnect-ServerOk {cap} s code id connection fine = ended (is_present s code id) refl
  where
    ended :
        (b : Bool)
        → is_present s code id ≡ b
        → ServerOk cap (if b then depart s code id else (s, [])).0
    ended false gone = fine
    ended true there =
        let (r, e) = present_room s code id there in depart-ServerOk s code id r e fine
