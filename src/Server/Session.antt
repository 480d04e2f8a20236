-- ===== src/Server/Session.antt =====
-- server/src/main.rs, `handle_connection`: how a connection joins a room and how it leaves.
use Prim.Native.String.{String}
use voicemcu.Base.{
  ℕ, Bool, true, false, ◌||◌, Option, none, some, List, [], ◌∷◌, ◌++◌, Result, ok, err, leb,
  if◌then◌else◌, length,
}
use voicemcu.Base.Assoc.{ℕ_eq, String_eq, lookup, insert, remove, contains}
use voicemcu.Protocol.{
  ClientId, SignalMessage, join, joined, room_info, client_joined, client_left, you_are_host,
}
use voicemcu.Server.{
  MixCommand, add_client, remove_client, ClientState, new_client, Room, new_room, Server, next_id,
  try_claim_host, transfer_host_from, Output, reply, push, starts_mix_loop, starts_datagrams,
  stops_datagrams, try_send, build_room_info, broadcast_signal, update_room,
}
use voicemcu.Server.Input.{sanitize_input, is_empty}

-- `room.clients.len() >= max_room_size`, for a room that exists.
unfoldable pub is_full : Server → String → Bool
is_full s room_code = elim (lookup room_code s.rooms) [
  | none ↦ false
  | some existing ↦ leb s.config.max_room_size (length existing.clients)
]

-- The room code and the name of a request that may go on, or the text of the error reply.
unfoldable pub check_join : Server → SignalMessage → Result String (String × String)
check_join s (join room_code display_name) =
    let name = sanitize_input display_name s.config.max_display_name in
    let code = sanitize_input room_code s.config.max_room_code in
    if is_empty name || is_empty code
    then err "name and room code must not be empty"
    else if is_full s code
    then err "room is full"
    else ok (code, name)
check_join s _ = err "expected Join message"

-- The entry of the room, made if it is vacant, and whether it was.
unfoldable pub ensure_room : Server → String → Server × Bool
ensure_room s room_code = elim (lookup room_code s.rooms) [
  | none ↦ (record s { rooms = insert room_code new_room s.rooms }, true)
  | some r ↦ (s, false)
]

-- The new client of a room, and whether it became the host.
unfoldable pub seat : Room → ClientId → ClientState → Bool → Room × Bool
seat r client_id state is_new_room =
    let r' : Room = record r { clients = insert client_id state r.clients } in
    if is_new_room then (record r' { host = client_id }, true) else try_claim_host r' client_id

-- `none` is the panic of `expect`: the room went between its creation and this lookup.
unfoldable pub register : Server → String → ClientId → ClientState → Bool → Option (Server × Bool)
register s room_code client_id state is_new_room = elim (lookup room_code s.rooms) [
  | none ↦ none
  | some r ↦
      let (r', became_host) = seat r client_id state is_new_room in
      some (record s { rooms = insert room_code r' s.rooms }, became_host)
]

-- `send` waits for space, so the command stands in line behind those that are there.
unfoldable pub send_command : MixCommand → Room → Room
send_command c r = record r { mix_commands = r.mix_commands ++ c ∷ [] }

-- What is sent once the client is seated.
unfoldable pub welcome : Server → String → ClientId → String → ℕ → Bool → List Output
welcome s room_code client_id display_name connection became_host =
    reply connection (joined client_id)
    ∷ (elim (lookup room_code s.rooms) [
      | none ↦ []
      | some r ↦ reply connection (room_info (build_room_info r)) ∷ []
    ]
        ++ (if became_host then push connection you_are_host ∷ [] else [])
        ++ broadcast_signal s room_code (client_joined client_id display_name) (some client_id))

-- How the joining part of the handler ends.
pub data Outcome : Type 0 where
  -- An error reply, and the handler returns.
  refused : (connection : ℕ) (reason : String) → Outcome
  -- The `expect` of `register` fails.
  panicked : Outcome
  -- The signaling loop begins.
  seated : (room_code : String) (client_id : ClientId) (outputs : List Output) → Outcome
  -- The `Joined` or `RoomInfo` reply cannot be written: `?` ends the handler at once.
  broken : (room_code : String) (client_id : ClientId) → Outcome

-- From a checked request to the signaling loop, with nothing between the stretches. `writable`
-- says whether the two replies reach the client.
unfoldable pub enter : Server → ℕ → String → String → Bool → Server × Outcome
enter s connection room_code display_name writable =
    let (client_id, counted) = next_id s in
    let (roomed, is_new_room) = ensure_room counted room_code in
    let state = new_client display_name connection in
    elim (register roomed room_code client_id state is_new_room) [
      | none ↦ (roomed, panicked)
      | some (registered, became_host) ↦
          let queued =
            update_room registered room_code (send_command (add_client client_id connection)) in
          let spawned : List Output =
            (if is_new_room then starts_mix_loop room_code ∷ [] else [])
            ++ starts_datagrams connection client_id ∷ [] in
          if writable
          then (
            queued,
            seated room_code client_id
                (spawned ++ welcome queued room_code client_id display_name connection became_host),
          )
          else (queued, broken room_code client_id)
    ]

unfoldable pub connect : Server → ℕ → SignalMessage → Bool → Server × Outcome
connect s connection msg writable = elim (check_join s msg) [
  | err reason ↦ (s, refused connection reason)
  | ok (room_code, display_name) ↦ enter s connection room_code display_name writable
]

-- Removal from the room, with the command for the mix task.
unfoldable pub drop_client : ClientId → Room → Room
drop_client client_id r =
    try_send (record r { clients = remove client_id r.clients }) (remove_client client_id)

abbrev pub is_present : Server → String → ClientId → Bool
is_present s room_code client_id = elim (lookup room_code s.rooms) [
  | none ↦ false
  | some r ↦ contains client_id r.clients
]

-- The notices of a new host.
unfoldable pub host_notices : Server → String → Room → ClientId → List Output
host_notices s room_code r new_host =
    elim (lookup new_host r.clients) [ none ↦ [] | some c ↦ push c.connection you_are_host ∷ [] ]
    ++ broadcast_signal s room_code (room_info (build_room_info r)) none

-- The transfer of the host after a client has gone.
unfoldable pub pass_host : Server → String → ClientId → Server × List Output
pass_host s room_code client_id = elim (lookup room_code s.rooms) [
  | none ↦ (s, [])
  | some r ↦
      let (r', passed) = transfer_host_from r client_id in
      let s' : Server = record s { rooms = insert room_code r' s.rooms } in
      elim passed [ none ↦ (s', []) | some new_host ↦ (s', host_notices s' room_code r' new_host) ]
]

-- What is left to do for a client that was still in its room.
unfoldable pub depart : Server → String → ClientId → Server × List Output
depart s room_code client_id =
    let left = update_room s room_code (drop_client client_id) in
    let (passed, notices) = pass_host left room_code client_id in
    (passed, broadcast_signal left room_code (client_left client_id) none ++ notices)

-- The end of the handler, after the signaling loop.
unfoldable pub disconnect : Server → String → ClientId → ℕ → Server × List Output
disconnect s room_code client_id connection =
    let (s', outputs) =
      if is_present s room_code client_id then depart s room_code client_id else (s, []) in
    (s', stops_datagrams connection ∷ outputs)
