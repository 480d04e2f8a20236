-- ===== src/Server/Invariant/Joining.antt =====
-- The invariant of the server over the joining of a client.
use Prim.Native.String.{String}
use voicemcu.Base.{
  ℕ, suc, ◌+◌, ◌%◌, ◌<◌, ◌≡◌, refl, ◌⊎◌, inl, inr, Bool, true, false, none, some, Result, ok, err,
  arith, length, Option-cases,
}
use voicemcu.Base.Words.{u64_mod}
use voicemcu.Base.Assoc.{
  ℕ_eq, String_eq, lookup, insert, IsUnique, insert-IsUnique, insert-Each, lookup-insert_self,
}
use voicemcu.Protocol.{ClientId, SignalMessage}
use voicemcu.Server.{
  ClientState, new_client, Room, new_room, Server, next_id, update_room, add_client,
}
use voicemcu.Server.Session.{
  is_full, check_join, ensure_room, seat, register, send_command, enter, connect,
}
use voicemcu.Server.Invariant.{RoomOk, ServerOk}
use voicemcu.Server.Invariant.Rooms.{seat-RoomOk, send_command-RoomOk, RoomOk-next}
use voicemcu.Server.Invariant.Writes.{put-ServerOk, update_room-ServerOk, ServerOk-cap}

-- A seated room under the next id.
seated-ServerOk :
    {cap : ℕ} (s : Server) (code : String) (r : Room)
    → suc cap < u64_mod
    → RoomOk s.config.max_room_size (suc s.next_client_id) r
    → ServerOk cap s
    → ServerOk (suc cap) (record s {
      rooms = insert code r s.rooms;
      next_client_id = (s.next_client_id + 1) % u64_mod;
    })
seated-ServerOk s code r small room fine = rw counted (record {
  distinct = insert-IsUnique code r s.rooms fine.distinct;
  counter = (omega arith, omega (arith, fine.counter));
  roomy = fine.roomy;
  each =
      insert-Each (RoomOk s.config.max_room_size (suc s.next_client_id)) code r s.rooms room
        (λ j x e. RoomOk-next x (omega arith) (fine.each j x e));
})
  where
    counted : (s.next_client_id + 1) % u64_mod ≡ suc s.next_client_id
    counted = omega (arith, small, fine.counter)

-- A room that was just made.
new_room-RoomOk : {limit next : ℕ} → RoomOk limit next new_room
unfolding new_room lookup IsUnique
new_room-RoomOk = record {
  unique = tt;
  sized = omega arith;
  ids = λ id c e. absurd cc;
  host_present = λ set. absurd (set refl);
  hosted = λ some_client. absurd (some_client refl);
}

-- The room is there, or made.
pub ensure_existing :
    (s : Server) (code : String) (r : Room)
    → lookup code s.rooms ≡ some r
    → ensure_room s code ≡ (s, false)
unfolding ensure_room
ensure_existing s code r e = rw (e, ensure_room) refl

pub ensure_vacant :
    (s : Server) (code : String)
    → lookup code s.rooms ≡ none
    → ensure_room s code ≡ (record s { rooms = insert code new_room s.rooms }, true)
unfolding ensure_room
ensure_vacant s code e = rw (e, ensure_room) refl

pub register_found :
    (s : Server) (code : String) (id : ClientId) (state : ClientState) (is_new_room : Bool)
    (r : Room)
    → lookup code s.rooms ≡ some r
    → register s code id state is_new_room
      ≡ some (
        record s { rooms = insert code (seat r id state is_new_room).0 s.rooms },
        (seat r id state is_new_room).1,
      )
unfolding register
register_found s code id state is_new_room r e = rw (e, register) refl

-- The joining part is the seating of the client in the room that is there or made.
pub enter_lem :
    (s s' : Server) (connection : ℕ) (code name : String) (writable is_new_room : Bool) (r : Room)
    → ensure_room (next_id s).1 code ≡ (s', is_new_room)
    → lookup code s'.rooms ≡ some r
    → (enter s connection code name writable).0
      ≡ update_room
          (record s' {
            rooms =
                insert code
                  (seat r (next_id s).0 (new_client name connection) is_new_room).0
                  s'.rooms;
          })
          code
          (send_command (add_client (next_id s).0 connection))
unfolding enter
enter_lem s s' connection code name true is_new_room r ensured e =
    rw
      (
        ensured,
        register_found s' code (next_id s).0 (new_client name connection) is_new_room r e,
        enter,
      )
      refl
enter_lem s s' connection code name false is_new_room r ensured e =
    rw
      (
        ensured,
        register_found s' code (next_id s).0 (new_client name connection) is_new_room r e,
        enter,
      )
      refl

-- A room that a check let through has a place left, or is new.
pub not_full :
    (s : Server) (code : String) (r : Room)
    → is_full s code ≡ false
    → lookup code s.rooms ≡ some r
    → length r.clients < s.config.max_room_size
unfolding is_full
not_full s code r h e = ground (arith, h, e)

pub check_join-has_room :
    (s : Server) (msg : SignalMessage) (code name : String)
    → check_join s msg ≡ ok (code, name)
    → is_full s code ≡ false
unfolding check_join
check_join-has_room s (SignalMessage.join room_code display_name) code name h =
    let max_name = s.config.max_display_name in
    let max_code = s.config.max_room_code in ground (arith, h)
check_join-has_room s _ code name h = absurd cc

check_join-cases :
    (s : Server) (msg : SignalMessage)
    → ((reason : String) × (check_join s msg ≡ err reason))
      ⊎ ((code : String) × (name : String) × (check_join s msg ≡ ok (code, name)))
check_join-cases s msg = cases (check_join s msg) refl
  where
    cases :
        (x : Result String (String × String))
        → check_join s msg ≡ x
        → ((reason : String) × (check_join s msg ≡ err reason))
          ⊎ ((code : String) × (name : String) × (check_join s msg ≡ ok (code, name)))
    cases (err reason) e = inl (reason, e)
    cases (ok (code, name)) e = inr (code, name, e)

enter-ServerOk :
    {cap : ℕ} (s : Server) (connection : ℕ) (code name : String) (writable : Bool)
    → suc cap < u64_mod
    → is_full s code ≡ false
    → ServerOk cap s
    → ServerOk (suc cap) (enter s connection code name writable).0
unfolding next_id new_room
enter-ServerOk s connection code name writable small open_room fine =
    elim (Option-cases (lookup code s.rooms)) [
      | inr (r, e) ↦
          rw
            (enter_lem s (next_id s).1 connection code name writable false r
              (ensure_existing (next_id s).1 code r e) e)
            (update_room-ServerOk _ code _
              (seated-ServerOk s code (seat r s.next_client_id (new_client name connection) false).0
                small
                (seat-RoomOk r (new_client name connection) (not_full s code r open_room e)
                  fine.counter.0 (fine.each code r e) false)
                fine)
              (λ x found. send_command-RoomOk x _))
      | inl e ↦
          let made : Server = record s { rooms = insert code new_room s.rooms } in
          rw
            (enter_lem s (record made { next_client_id = (s.next_client_id + 1) % u64_mod })
              connection code name writable true new_room (ensure_vacant (next_id s).1 code e)
              (lookup-insert_self code new_room s.rooms))
            (update_room-ServerOk _ code _
              (seated-ServerOk made code
                (seat new_room s.next_client_id (new_client name connection) true).0 small
                (seat-RoomOk new_room (new_client name connection) fine.roomy fine.counter.0
                  new_room-RoomOk true)
                (put-ServerOk s code new_room fine new_room-RoomOk))
              (λ x found. send_command-RoomOk x _))
    ]

pub connect-ServerOk :
    {cap : ℕ} (s : Server) (connection : ℕ) (msg : SignalMessage) (writable : Bool)
    → suc cap < u64_mod
    → ServerOk cap s
    → ServerOk (suc cap) (connect s connection msg writable).0
unfolding connect
connect-ServerOk s connection msg writable small fine = elim (check_join-cases s msg) [
  | inl (reason, e) ↦ rw (e, connect) (ServerOk-cap s (omega arith) fine)
  | inr (code, name, e) ↦
      rw (e, connect)
        (enter-ServerOk s connection code name writable small
          (check_join-has_room s msg code name e) fine)
]
