-- ===== src/Server/Invariant/Writes.antt =====
-- The invariant of the server over writes to a room, the messages of clients and `cleanup`.
use Prim.Native.String.{String}
use voicemcu.Base.{
  ℕ, ◌≤◌, ◌≡◌, inl, inr, Bool, some, List, arith, length, ltb, ◌==◌, ==_iff, Bool-cases,
  Option-cases,
}
use voicemcu.Base.Assoc.{
  ℕ_eq, String_eq, lookup, insert, insert-IsUnique, modify-IsUnique, retain-IsUnique, insert-Each,
  modify-Each, retain-Each,
}
use voicemcu.Protocol.{ClientId, SignalMessage}
use voicemcu.Server.{Room, Server, is_host, update_room, cleanup}
use voicemcu.Server.Session.{is_present}
use voicemcu.Server.Signaling.{
  handle_mute, handle_kick, handle_server_mute, handle_block, handle_message, kick_from,
}
use voicemcu.Server.Invariant.{RoomOk, ServerOk}
use voicemcu.Server.Invariant.Rooms.{update_client-RoomOk, kick_from-RoomOk}

pub ServerOk-cap : {cap cap' : ℕ} (s : Server) → cap ≤ cap' → ServerOk cap s → ServerOk cap' s
ServerOk-cap s h fine = record {
  distinct = fine.distinct;
  counter = let (low, high) = fine.counter in (low, omega arith);
  roomy = fine.roomy;
  each = fine.each;
}

-- A room put under a code.
pub put-ServerOk :
    {cap : ℕ} (s : Server) (code : String) (r : Room)
    → ServerOk cap s
    → RoomOk s.config.max_room_size s.next_client_id r
    → ServerOk cap (record s { rooms = insert code r s.rooms })
put-ServerOk s code r fine room = record {
  distinct = insert-IsUnique code r s.rooms fine.distinct;
  counter = fine.counter;
  roomy = fine.roomy;
  each = insert-Each (RoomOk s.config.max_room_size s.next_client_id) code r s.rooms room fine.each;
}

-- A write to one room.
pub update_room-ServerOk :
    {cap : ℕ} (s : Server) (code : String) (f : Room → Room)
    → ServerOk cap s
    → ((r : Room)
        → lookup code s.rooms ≡ some r
        → RoomOk s.config.max_room_size s.next_client_id r
        → RoomOk s.config.max_room_size s.next_client_id (f r))
    → ServerOk cap (update_room s code f)
unfolding update_room
update_room-ServerOk s code f fine keeps = record {
  distinct = modify-IsUnique code f s.rooms fine.distinct;
  counter = fine.counter;
  roomy = fine.roomy;
  each =
      modify-Each (RoomOk s.config.max_room_size s.next_client_id) code f s.rooms keeps fine.each;
}

pub cleanup-ServerOk : {cap : ℕ} (s : Server) → ServerOk cap s → ServerOk cap (cleanup s)
unfolding cleanup
cleanup-ServerOk s fine = record {
  distinct = retain-IsUnique (λ code room. ltb 0 (length room.clients)) s.rooms fine.distinct;
  counter = fine.counter;
  roomy = fine.roomy;
  each =
      retain-Each (RoomOk s.config.max_room_size s.next_client_id) _ s.rooms fine.distinct
        fine.each;
}

pub handle_mute-ServerOk :
    {cap : ℕ} (s : Server) (code : String) (id : ClientId) (muted : Bool)
    → ServerOk cap s
    → ServerOk cap (handle_mute s code id muted).0
unfolding handle_mute
handle_mute-ServerOk s code id muted fine = elim (Bool-cases (is_present s code id)) [
  | inl there ↦
      rw (there, handle_mute)
        (update_room-ServerOk s code _ fine (λ r e. update_client-RoomOk r id _))
  | inr gone ↦ rw (gone, handle_mute) fine
]

pub handle_kick-ServerOk :
    {cap : ℕ} (s : Server) (code : String) (id : ClientId) (connection : ℕ) (target : ClientId)
    → ServerOk cap s
    → ServerOk cap (handle_kick s code id connection target).0
unfolding handle_kick is_host
handle_kick-ServerOk s code id connection target fine = elim (Option-cases (lookup code s.rooms)) [
  | inl e ↦ rw (e, handle_kick) fine
  | inr (r, e) ↦ elim (Bool-cases (r.host == id)) [
    | inr guest ↦ rw (e, guest, handle_kick, is_host) fine
    | inl host ↦ elim (Bool-cases (target == id)) [
      | inl self ↦ rw (e, host, self, handle_kick, is_host) fine
      | inr other ↦
          rw (e, host, other, handle_kick, is_host)
            (update_room-ServerOk s code (kick_from target) fine (λ x found.
              kick_from-RoomOk x target
                (ground (arith, e, found, ==_iff r.host id, ==_iff target id))))
    ]
  ]
]

pub handle_server_mute-ServerOk :
    {cap : ℕ} (s : Server) (code : String) (id : ClientId) (connection : ℕ) (target : ClientId)
    (muted : Bool)
    → ServerOk cap s
    → ServerOk cap (handle_server_mute s code id connection target muted).0
unfolding handle_server_mute
handle_server_mute-ServerOk s code id connection target muted fine =
    elim (Option-cases (lookup code s.rooms)) [
      | inl e ↦ rw (e, handle_server_mute) fine
      | inr (r, e) ↦ elim (Bool-cases (is_host r id)) [
        | inr guest ↦ rw (e, guest, handle_server_mute) fine
        | inl host ↦
            rw (e, host, handle_server_mute)
              (update_room-ServerOk s code _ fine (λ x found. update_client-RoomOk x target _))
      ]
    ]

pub handle_block-ServerOk :
    {cap : ℕ} (s : Server) (code : String) (id : ClientId) (change : List ClientId → List ClientId)
    → ServerOk cap s
    → ServerOk cap (handle_block s code id change).0
unfolding handle_block
handle_block-ServerOk s code id change fine =
    update_room-ServerOk s code _ fine (λ x found. update_client-RoomOk x id _)

pub handle_message-ServerOk :
    {cap : ℕ} (s : Server) (code : String) (id : ClientId) (connection : ℕ) (msg : SignalMessage)
    → ServerOk cap s
    → ServerOk cap (handle_message s code id connection msg).0
unfolding handle_message
handle_message-ServerOk s code id connection (SignalMessage.mute muted) fine =
    handle_mute-ServerOk s code id muted fine
handle_message-ServerOk s code id connection (SignalMessage.kick target) fine =
    handle_kick-ServerOk s code id connection target fine
handle_message-ServerOk s code id connection (SignalMessage.server_mute target muted) fine =
    handle_server_mute-ServerOk s code id connection target muted fine
handle_message-ServerOk s code id connection (SignalMessage.block_peer target) fine =
    handle_block-ServerOk s code id _ fine
handle_message-ServerOk s code id connection (SignalMessage.unblock_peer target) fine =
    handle_block-ServerOk s code id _ fine
handle_message-ServerOk s code id connection _ fine = fine
