-- ===== src/Server/Signaling.antt =====
-- server/src/main.rs, `handle_signaling`: what each message of a seated client does.
use Prim.Native.String.{String}
use voicemcu.Base.{
  ℕ, Bool, true, false, not, Option, none, some, List, [], ◌∷◌, ◌++◌, ◌==◌, if◌then◌else◌,
}
use voicemcu.Base.Assoc.{ℕ_eq, String_eq, lookup, modify}
use voicemcu.Protocol.{
  ClientId, SignalMessage, leave, mute, kick, server_mute, block_peer, unblock_peer, client_left,
  kicked, peer_muted, error,
}
use voicemcu.RateLimit.{TokenBucket, try_consume}
use voicemcu.Server.{
  ClientState, Room, Server, is_host, Output, reply, push, closes, broadcast_signal, update_room,
}
use voicemcu.Server.Session.{drop_client, is_present}

-- A `HashSet` of ids.
unfoldable pub member : ClientId → List ClientId → Bool
member a [] = false
member a (b ∷ bs) = if b == a then true else member a bs

unfoldable pub set_insert : ClientId → List ClientId → List ClientId
set_insert a bs = if member a bs then bs else a ∷ bs

unfoldable pub set_remove : ClientId → List ClientId → List ClientId
set_remove a [] = []
set_remove a (b ∷ bs) = if b == a then set_remove a bs else b ∷ set_remove a bs

-- A write through `r.clients.get(&id)`.
unfoldable pub update_client : ClientId → (ClientState → ClientState) → Room → Room
update_client id f r = record r { clients = modify id f r.clients }

unfoldable pub handle_mute : Server → String → ClientId → Bool → Server × List Output
handle_mute s room_code client_id muted =
    if is_present s room_code client_id
    then (let s' =
          update_room s room_code (update_client client_id (λ c. record c { muted = muted })) in
        (s', broadcast_signal s' room_code (peer_muted client_id muted false) none))
    else (s, [])

-- What the kicked client is sent; nothing if there is none of that id.
unfoldable pub kick_notices : Option ClientState → List Output
kick_notices none = []
kick_notices (some c) = push c.connection (kicked "kicked by host") ∷ closes c.connection ∷ []

-- The room after the removal; the mix task hears of it only if the target was there.
unfoldable pub kick_from : ClientId → Room → Room
kick_from target r = elim (lookup target r.clients) [ none ↦ r | some c ↦ drop_client target r ]

unfoldable pub handle_kick : Server → String → ClientId → ℕ → ClientId → Server × List Output
handle_kick s room_code client_id connection target = elim (lookup room_code s.rooms) [
  | none ↦ (s, [])
  | some r ↦
      if not (is_host r client_id)
      then (s, reply connection (error "only the host can kick") ∷ [])
      else if target == client_id
      then (s, [])
      else (let s' = update_room s room_code (kick_from target) in
          (
            s',
            kick_notices (lookup target r.clients)
                ++ broadcast_signal s' room_code (client_left target) none,
          ))
]

unfoldable pub handle_server_mute :
    Server → String → ClientId → ℕ → ClientId → Bool → Server × List Output
handle_server_mute s room_code client_id connection target muted = elim (lookup room_code s.rooms) [
  | none ↦ (s, [])
  | some r ↦
      if not (is_host r client_id)
      then (s, reply connection (error "only the host can server-mute") ∷ [])
      else (let s' =
            update_room s room_code
              (update_client target (λ c. record c { server_muted = muted })) in
          (s', broadcast_signal s' room_code (peer_muted target muted true) none))
]

-- The lock of the set of blocked peers is never poisoned: no holder panics.
unfoldable pub handle_block :
    Server → String → ClientId → (List ClientId → List ClientId) → Server × List Output
handle_block s room_code client_id change = (
  update_room s room_code
      (update_client client_id (λ c. record c { blocked_peers = change c.blocked_peers })),
  [],
)

-- A message that passed the rate limit. Any other message is logged and ignored.
unfoldable pub handle_message :
    Server → String → ClientId → ℕ → SignalMessage → Server × List Output
handle_message s room_code id connection (mute muted) = handle_mute s room_code id muted
handle_message s room_code id connection (kick target) =
    handle_kick s room_code id connection target
handle_message s room_code id connection (server_mute target muted) =
    handle_server_mute s room_code id connection target muted
handle_message s room_code id connection (block_peer target) =
    handle_block s room_code id (set_insert target)
handle_message s room_code id connection (unblock_peer target) =
    handle_block s room_code id (set_remove target)
handle_message s room_code id connection _ = (s, [])

-- One turn of the loop with a message read at a time: the loop ends at `leave` (or when the stream
-- does), and a message over the limit is answered and dropped.
pub record Turn : Type 0 where
  pub server : Server
  pub bucket : TokenBucket
  pub outputs : List Output
  pub goes_on : Bool

abbrev pub is_leave : SignalMessage → Bool
is_leave leave = true
is_leave _ = false

unfoldable pub signaling_turn :
    Server → TokenBucket → String → ClientId → ℕ → ℕ → SignalMessage → Turn
signaling_turn s bucket room_code id connection now msg =
    if is_leave msg
    then record { server = s; bucket = bucket; outputs = []; goes_on = false }
    else (let (bucket', passed) = try_consume bucket now in
        let (s', outputs) =
          if passed
          then handle_message s room_code id connection msg
          else (s, reply connection (error "rate limited") ∷ []) in
        record { server = s'; bucket = bucket'; outputs = outputs; goes_on = true })
