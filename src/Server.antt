-- ===== src/Server.antt =====
-- server/src/room.rs and server/src/main.rs: rooms, their clients and hosts, and signaling.
--
-- Each function below is a stretch of a handler without an `await`. What it sends is a list of
-- outputs; a message that has no encoding would not be sent, which is left out here. A connection
-- is a number that stands for the `quinn::Connection`.
pub mod Input
pub mod Session
pub mod Signaling
pub mod Invariant
pub mod Joins
pub mod Interleaving
pub mod Moderation
pub mod Membership
pub mod Life
mod Examples
use Prim.Native.String.{String}
use voicemcu.Base.{
  ℕ, ◌+◌, ◌%◌, Bool, true, false, Option, none, some, List, [], ◌∷◌, ◌++◌, ltb, ◌==◌, if◌then◌else◌,
  length, min, map,
}
use voicemcu.Base.Words.{u64_mod}
use voicemcu.Base.Assoc.{ℕ_eq, String_eq, lookup, insert, remove, modify, retain}
use voicemcu.Protocol.{ClientId, ClientInfo, SignalMessage}
use voicemcu.Config.{ServerConfig}

-- A command for the room's mix task; `audio_rx` is the channel that the datagram task of that
-- connection fills.
pub data MixCommand : Type 0 where
  add_client : (client_id : ClientId) (audio_rx : ℕ) → MixCommand
  remove_client : (client_id : ClientId) → MixCommand

pub record ClientState : Type 0 where
  pub display_name : String
  pub connection : ℕ
  pub muted : Bool
  pub server_muted : Bool
  pub blocked_peers : List ClientId

pub new_client : String → ℕ → ClientState
new_client display_name connection = record {
  display_name = display_name;
  connection = connection;
  muted = false;
  server_muted = false;
  blocked_peers = [];
}

-- `mix_commands` is what the channel behind `mix_cmd_tx` holds; host 0 is no host.
pub record Room : Type 0 where
  pub clients : List (ClientId × ClientState)
  pub host : ClientId
  pub mix_commands : List MixCommand

pub new_room : Room
new_room = record { clients = []; host = 0; mix_commands = [] }

pub record Server : Type 0 where
  pub rooms : List (String × Room)
  pub config : ServerConfig
  pub next_client_id : ℕ

-- `seed` is the random number that the first id is drawn from.
unfoldable pub new_server : ServerConfig → ℕ → Server
new_server config seed = record {
  rooms = [];
  config = config;
  next_client_id = if seed == 0 then 1 else seed;
}

-- `fetch_add` on a u64: the old value, and the counter wraps.
pub next_id : Server → ClientId × Server
next_id s = (s.next_client_id, record s { next_client_id = (s.next_client_id + 1) % u64_mod })

unfoldable pub is_host : Room → ClientId → Bool
is_host r client_id = r.host == client_id

-- The compare-and-swap of the host from `old` to `new`.
pub swap_host : Room → ClientId → ClientId → Room × Bool
swap_host r old new = if r.host == old then (record r { host = new }, true) else (r, false)

pub try_claim_host : Room → ClientId → Room × Bool
try_claim_host r client_id = swap_host r 0 client_id

-- The least key, or 0 for an empty room.
pub least_key : List (ClientId × ClientState) → ClientId
least_key [] = 0
least_key ((k, c) ∷ []) = k
least_key ((k, c) ∷ (j, d) ∷ m) = min k (least_key ((j, d) ∷ m))

-- The tail of `transfer_host_from`, from the candidate on.
pub hand_host : Room → ClientId → ClientId → Room × Option ClientId
hand_host r departing new_host =
    if new_host == 0
    then (record r { host = 0 }, none)
    else let (r', swapped) = swap_host r departing new_host in
      (r', if swapped then some new_host else none)

pub transfer_host_from : Room → ClientId → Room × Option ClientId
transfer_host_from r departing =
    if r.host == departing then hand_host r departing (least_key r.clients) else (r, none)

-- What a handler sends or starts.
pub data Output : Type 0 where
  -- On the client's signaling stream (`write_signal`), and on a stream of its own (`send_to_client`).
  reply : (connection : ℕ) (msg : SignalMessage) → Output
  push : (connection : ℕ) (msg : SignalMessage) → Output
  closes : (connection : ℕ) → Output
  starts_mix_loop : (room_code : String) → Output
  starts_datagrams : (connection : ℕ) (client_id : ClientId) → Output
  stops_datagrams : (connection : ℕ) → Output

abbrev pub mix_capacity : ℕ
mix_capacity = 64

-- `try_send` on the command channel: a full channel drops the command. The receiver lives as long
-- as the room is in the map, so the channel is not closed here.
pub try_send : Room → MixCommand → Room
try_send r c =
    if ltb (length r.mix_commands) mix_capacity
    then record r { mix_commands = r.mix_commands ++ c ∷ [] }
    else r

unfoldable pub client_info : ClientId → ClientId × ClientState → ClientInfo
client_info host_id (id, c) = record {
  client_id = id;
  display_name = c.display_name;
  muted = c.muted;
  server_muted = c.server_muted;
  is_host = id == host_id;
}

unfoldable pub build_room_info : Room → List ClientInfo
build_room_info r = map (client_info r.host) r.clients

-- One push for each client but the excluded one.
pub pushes : SignalMessage → Option ClientId → List (ClientId × ClientState) → List Output
pushes msg exclude [] = []
pushes msg exclude ((id, c) ∷ clients) =
    let rest = pushes msg exclude clients in
    elim exclude [
      | none ↦ push c.connection msg ∷ rest
      | some skipped ↦ if skipped == id then rest else push c.connection msg ∷ rest
    ]

pub broadcast_signal : Server → String → SignalMessage → Option ClientId → List Output
broadcast_signal s room_code msg exclude = elim (lookup room_code s.rooms) [
  | none ↦ []
  | some r ↦ pushes msg exclude r.clients
]

-- A write through `server.rooms.get(room_code)`.
pub update_room : Server → String → (Room → Room) → Server
update_room s room_code f = record s { rooms = modify room_code f s.rooms }

-- One turn of `cleanup_loop`: rooms without clients go.
pub cleanup : Server → Server
cleanup s = record s { rooms = retain (λ code room. ltb 0 (length room.clients)) s.rooms }

-- The notices of `shutdown`, before the endpoint closes.
unfoldable pub farewells : List (String × Room) → List Output
farewells [] = []
farewells ((code, r) ∷ rooms) =
    pushes (SignalMessage.error "server is shutting down") none r.clients ++ farewells rooms

unfoldable pub shutdown : Server → List Output
shutdown s = farewells s.rooms
