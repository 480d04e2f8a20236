-- ===== src/Server/Invariant.antt =====
-- What holds of the server between two handlers: of each room, and of all of them.
pub mod Rooms
pub mod Departures
pub mod Writes
pub mod Leaving
pub mod Joining
pub mod Events
use Prim.Native.String.{String}
use voicemcu.Base.{ℕ, ◌≤◌, ◌<◌, ◌≡◌, ◌≢◌, Option, none, some, true, length, []}
use voicemcu.Base.Words.{u64_mod}
use voicemcu.Base.Assoc.{ℕ_eq, String_eq, lookup, contains, IsUnique}
use voicemcu.Protocol.{ClientId}
use voicemcu.Server.{ClientState, Room, Server}

-- A room of at most `limit` clients, with ids from 1 to below `next`; a host that is set is a
-- client, and a room with clients has a host.
pub record RoomOk (limit next : ℕ) (r : Room) : Type 0 where
  pub unique : IsUnique r.clients
  pub sized : length r.clients ≤ limit
  pub ids :
      (id : ClientId) (c : ClientState) → lookup id r.clients ≡ some c → (0 < id) × (id < next)
  pub host_present : r.host ≢ 0 → contains r.host r.clients ≡ true
  pub hosted : r.clients ≢ [] → r.host ≢ 0

-- Ids are given out below `cap`, which a run of handlers raises by one for each that joins.
pub record ServerOk (cap : ℕ) (s : Server) : Type 0 where
  pub distinct : IsUnique s.rooms
  pub counter : (0 < s.next_client_id) × (s.next_client_id ≤ cap)
  pub roomy : 0 < s.config.max_room_size
  pub each :
      (code : String) (r : Room)
      → lookup code s.rooms ≡ some r
      → RoomOk s.config.max_room_size s.next_client_id r
