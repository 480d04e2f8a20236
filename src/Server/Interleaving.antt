-- ===== src/Server/Interleaving.antt =====
-- server/src/main.rs, `handle_connection` as a task among others. A stretch of a join is one access to
-- what the handlers share; between two of them other joins, messages, departures and the cleanup of a
-- room may run, on other threads or while the task waits.
--
-- `claimed` sends its command to the room under the code. It could be a room made anew under that
-- code, if the client was kicked and its room cleaned up since; the code would then send to the
-- channel of the old one.
pub mod Shrinking
pub mod Stretches
pub mod Alone
pub mod Filling
pub mod Crowding
pub mod Hosts
pub mod Races
pub mod Panics
mod Examples
use Prim.Native.Nat.{zero, suc}
use Prim.Native.String.{String}
use voicemcu.Base.{
  ℕ, ◌+◌, ◌≤◌, Bool, true, false, Option, none, some, List, [], ◌∷◌, ◌++◌, ok, err, ltb,
  if◌then◌else◌, length, get_elem?,
}
use voicemcu.Base.Assoc.{Eq, ℕ_eq, String_eq, lookup, insert, remove}
use voicemcu.Protocol.{ClientId, SignalMessage}
use voicemcu.RateLimit.{TokenBucket}
use voicemcu.Server.{
  ClientState, new_client, Room, Server, next_id, try_claim_host, starts_mix_loop, starts_datagrams,
  Output, add_client, update_room,
}
use voicemcu.Server.Session.{
  Outcome, refused, panicked, seated, broken, check_join, ensure_room, send_command, welcome,
  disconnect,
}
use voicemcu.Server.Signaling.{signaling_turn}

-- How far a join has come, with the variables that are live there. `placed` holds the guard on the
-- entry of its room.
pub data Phase : Type 0 where
  arrived : (connection : ℕ) (msg : SignalMessage) → Phase
  checked : (connection : ℕ) (room_code display_name : String) → Phase
  numbered : (connection : ℕ) (room_code display_name : String) (client_id : ClientId) → Phase
  roomed :
      (connection : ℕ) (room_code display_name : String) (client_id : ClientId) (is_new_room : Bool)
      → Phase
  placed :
      (connection : ℕ) (room_code display_name : String) (client_id : ClientId) (is_new_room : Bool)
      → Phase
  claimed :
      (connection : ℕ) (room_code display_name : String) (client_id : ClientId)
      (is_new_room became_host : Bool)
      → Phase
  announced :
      (connection : ℕ) (room_code display_name : String) (client_id : ClientId)
      (is_new_room became_host : Bool)
      → Phase
  over : (outcome : Outcome) → Phase

-- The host of the room that a client was just put into, and whether it is that client.
unfoldable pub claim : Room → ClientId → Bool → Room × Bool
claim r client_id is_new_room =
    if is_new_room then (record r { host = client_id }, true) else try_claim_host r client_id

unfoldable pub put_client : ClientId → ClientState → Room → Room
put_client client_id state r = record r { clients = insert client_id state r.clients }

-- `none` is the panic of `expect`.
unfoldable pub place : Server → String → ClientId → ClientState → Option Server
place s room_code client_id state = elim (lookup room_code s.rooms) [
  | none ↦ none
  | some r ↦ some (record s { rooms = insert room_code (put_client client_id state r) s.rooms })
]

-- What the guard still does: the entry of the room is there as long as it is held.
unfoldable pub claim_in : Server → String → ClientId → Bool → Server × Bool
claim_in s room_code client_id is_new_room = elim (lookup room_code s.rooms) [
  | none ↦ (s, false)
  | some r ↦
      let (r', became_host) = claim r client_id is_new_room in
      (record s { rooms = insert room_code r' s.rooms }, became_host)
]

-- The next stretch of one join.
unfoldable pub advance : Bool → Server → Phase → Server × Phase
advance writable s (arrived connection msg) = elim (check_join s msg) [
  | err reason ↦ (s, over (refused connection reason))
  | ok (room_code, display_name) ↦ (s, checked connection room_code display_name)
]
advance writable s (checked connection room_code display_name) =
    let (client_id, s') = next_id s in (s', numbered connection room_code display_name client_id)
advance writable s (numbered connection room_code display_name client_id) =
    let (s', is_new_room) = ensure_room s room_code in
    (s', roomed connection room_code display_name client_id is_new_room)
advance writable s (roomed connection room_code display_name client_id is_new_room) =
    elim (place s room_code client_id (new_client display_name connection)) [
      | none ↦ (s, over panicked)
      | some s' ↦ (s', placed connection room_code display_name client_id is_new_room)
    ]
advance writable s (placed connection room_code display_name client_id is_new_room) =
    let (s', became_host) = claim_in s room_code client_id is_new_room in
    (s', claimed connection room_code display_name client_id is_new_room became_host)
advance writable s (claimed connection room_code display_name client_id is_new_room became_host) = (
  update_room s room_code (send_command (add_client client_id connection)),
  announced connection room_code display_name client_id is_new_room became_host,
)
advance writable s (announced connection room_code display_name client_id is_new_room became_host) =
    let spawned : List Output =
      (if is_new_room then starts_mix_loop room_code ∷ [] else [])
      ++ starts_datagrams connection client_id ∷ [] in
    (
      s,
      over (
          if writable
          then seated room_code client_id
              (spawned ++ welcome s room_code client_id display_name connection became_host)
          else broken room_code client_id),
    )
advance writable s (over outcome) = (s, over outcome)

-- The join at one place of the list of those that are under way.
unfoldable pub advance_at : ℕ → Bool → Server → List Phase → Server × List Phase
advance_at i writable s [] = (s, [])
advance_at zero writable s (p ∷ tasks) = let (s', p') = advance writable s p in (s', p' ∷ tasks)
advance_at (suc i) writable s (p ∷ tasks) =
    let (s', rest) = advance_at i writable s tasks in (s', p ∷ rest)

-- Whether a join holds the guard on the entry of a room.
unfoldable pub holds : String → Phase → Bool
holds code (placed connection room_code display_name client_id is_new_room) =
    String_eq.beq room_code code
holds code _ = false

unfoldable pub is_held : String → List Phase → Bool
is_held code [] = false
is_held code (p ∷ tasks) = if holds code p then true else is_held code tasks

-- Whether a join has to wait: `entry` of a room is for writing, and waits for a guard on that room.
unfoldable pub waits_for_guard : Phase → List Phase → Bool
waits_for_guard (numbered connection room_code display_name client_id) tasks =
    is_held room_code tasks
waits_for_guard _ tasks = false

unfoldable pub is_blocked : ℕ → List Phase → Bool
is_blocked task tasks = elim (get_elem? tasks task) [
  | none ↦ false
  | some p ↦ waits_for_guard p tasks
]

-- `retain` of `cleanup_loop` as it comes by the entry of one room.
unfoldable pub sweep_room : Server → String → Server
sweep_room s room_code = elim (lookup room_code s.rooms) [
  | none ↦ s
  | some room ↦
      if ltb 0 (length room.clients) then s else record s { rooms = remove room_code s.rooms }
]

pub record World : Type 0 where
  pub server : Server
  pub tasks : List Phase

abbrev pub world : Server → List Phase → World
world s tasks = record { server = s; tasks = tasks }

-- What may happen next: any of these, at any time. A join that has to wait stays as it is.
pub data Move : Type 0 where
  arrives : (connection : ℕ) (msg : SignalMessage) → Move
  advances : (task : ℕ) (writable : Bool) → Move
  sends :
      (room_code : String) (client_id : ClientId) (connection : ℕ) (bucket : TokenBucket) (now : ℕ)
      (msg : SignalMessage)
      → Move
  disconnects : (room_code : String) (client_id : ClientId) (connection : ℕ) → Move
  -- Waits for the guard, where one is held.
  sweeps : (room_code : String) → Move

unfoldable pub happen : World → Move → World
happen w (arrives connection msg) = record w { tasks = w.tasks ++ arrived connection msg ∷ [] }
happen w (advances task writable) =
    let (s, tasks) = advance_at task writable w.server w.tasks in
    if is_blocked task w.tasks then w else record { server = s; tasks = tasks }
happen w (sends room_code client_id connection bucket now msg) = record w {
  server = (signaling_turn w.server bucket room_code client_id connection now msg).server;
}
happen w (disconnects room_code client_id connection) = record w {
  server = (disconnect w.server room_code client_id connection).0;
}
happen w (sweeps room_code) =
    if is_held room_code w.tasks then w else record w { server = sweep_room w.server room_code }

unfoldable pub unroll : World → List Move → World
unroll w [] = w
unroll w (m ∷ moves) = unroll (happen w m) moves

unfoldable pub room_size : Server → String → ℕ
room_size s code = elim (lookup code s.rooms) [ none ↦ 0 | some r ↦ length r.clients ]

-- Between its check and its place in the room.
unfoldable pub waits : String → Phase → Bool
waits code (checked connection room_code display_name) = String_eq.beq room_code code
waits code (numbered connection room_code display_name client_id) = String_eq.beq room_code code
waits code (roomed connection room_code display_name client_id is_new_room) =
    String_eq.beq room_code code
waits code _ = false

unfoldable pub waiting : String → List Phase → ℕ
waiting code [] = 0
waiting code (p ∷ tasks) = (if waits code p then 1 else 0) + waiting code tasks

-- In every world of a run, at most so many joins of one room are between check and place.
unfoldable pub AtMost : ℕ → String → World → List Move → Type 0
AtMost k code w [] = waiting code w.tasks ≤ k
AtMost k code w (m ∷ moves) = (waiting code w.tasks ≤ k) × AtMost k code (happen w m) moves
