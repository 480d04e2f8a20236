-- ===== src/Server/Invariant/Events.antt =====
-- The handlers as the steps of one server, and the invariant over every run of them.
use Prim.Native.String.{String}
use voicemcu.Base.{ℕ, suc, ◌+◌, ◌<◌, Bool, List, [], ◌∷◌, arith, length, Bool-cases, inl, inr}
use voicemcu.Base.Words.{u64_mod}
use voicemcu.Base.Assoc.{lookup, IsUnique}
use voicemcu.Protocol.{ClientId, SignalMessage}
use voicemcu.Config.{ServerConfig}
use voicemcu.RateLimit.{TokenBucket, try_consume}
use voicemcu.Server.{Server, new_server, cleanup}
use voicemcu.Server.Session.{connect, disconnect}
use voicemcu.Server.Signaling.{is_leave, signaling_turn}
use voicemcu.Server.Invariant.{ServerOk}
use voicemcu.Server.Invariant.Writes.{ServerOk-cap, cleanup-ServerOk, handle_message-ServerOk}
use voicemcu.Server.Invariant.Leaving.{disconnect-ServerOk}
use voicemcu.Server.Invariant.Joining.{connect-ServerOk}

pub data Event : Type 0 where
  connects : (connection : ℕ) (msg : SignalMessage) (writable : Bool) → Event
  -- A message read by the loop of a client, with that loop's bucket and the time.
  sends :
      (room_code : String) (client_id : ClientId) (connection : ℕ) (bucket : TokenBucket) (now : ℕ)
      (msg : SignalMessage)
      → Event
  disconnects : (room_code : String) (client_id : ClientId) (connection : ℕ) → Event
  sweeps : Event

unfoldable pub step : Server → Event → Server
step s (connects connection msg writable) = (connect s connection msg writable).0
step s (sends room_code client_id connection bucket now msg) =
    (signaling_turn s bucket room_code client_id connection now msg).server
step s (disconnects room_code client_id connection) =
    (disconnect s room_code client_id connection).0
step s sweeps = cleanup s

unfoldable pub serve : Server → List Event → Server
serve s [] = s
serve s (e ∷ events) = serve (step s e) events

signaling_turn-ServerOk :
    {cap : ℕ} (s : Server) (code : String) (id : ClientId) (connection : ℕ) (bucket : TokenBucket)
    (now : ℕ) (msg : SignalMessage)
    → ServerOk cap s
    → ServerOk cap (signaling_turn s bucket code id connection now msg).server
unfolding signaling_turn
signaling_turn-ServerOk s code id connection bucket now msg fine =
    elim (Bool-cases (is_leave msg)) [
      | inl over ↦ rw (over, signaling_turn) fine
      | inr more ↦ elim (Bool-cases (try_consume bucket now).1) [
        | inl passed ↦
            rw (more, passed, signaling_turn)
              (handle_message-ServerOk s code id connection msg fine)
        | inr limited ↦ rw (more, limited, signaling_turn) fine
      ]
    ]

step-ServerOk :
    {cap : ℕ} (s : Server) (e : Event)
    → suc cap < u64_mod
    → ServerOk cap s
    → ServerOk (suc cap) (step s e)
unfolding step
step-ServerOk s (connects connection msg writable) h fine =
    connect-ServerOk s connection msg writable h fine
step-ServerOk s (sends room_code client_id connection bucket now msg) h fine =
    ServerOk-cap _ (omega arith)
      (signaling_turn-ServerOk s room_code client_id connection bucket now msg fine)
step-ServerOk s (disconnects room_code client_id connection) h fine =
    ServerOk-cap _ (omega arith) (disconnect-ServerOk s room_code client_id connection fine)
step-ServerOk s sweeps h fine = ServerOk-cap _ (omega arith) (cleanup-ServerOk s fine)

serve_from :
    {cap : ℕ} (s : Server) (events : List Event)
    → cap + length events < u64_mod
    → ServerOk cap s
    → ServerOk (cap + length events) (serve s events)
unfolding serve
serve_from s [] h fine = ServerOk-cap s (omega arith) fine
serve_from {cap} s (e ∷ events) h fine = ServerOk-cap _ (omega arith) (
    serve_from {cap = suc cap} (step s e) events (omega arith)
      (step-ServerOk s e (omega arith) fine))

new_server-ServerOk :
    (config : ServerConfig) (seed : ℕ)
    → 0 < config.max_room_size
    → ServerOk (suc seed) (new_server config seed)
unfolding new_server lookup IsUnique
new_server-ServerOk config seed roomy = record {
  distinct = tt;
  counter = ground arith;
  roomy = roomy;
  each = λ code r e. absurd cc;
}

-- From the start of the server with a `max_room_size` that is not 0, after any run of its handlers
-- that cannot wrap the counter of ids:
-- no room code and no client id stands twice; every room holds at most `max_room_size` clients,
-- with ids that are not 0 and were given out; a room's host is one of its clients; and a room with
-- clients has a host. The handlers run one after another here.
pub serve-ServerOk :
    (config : ServerConfig) (seed : ℕ) (events : List Event)
    → 0 < config.max_room_size
    → suc seed + length events < u64_mod
    → ServerOk (suc seed + length events) (serve (new_server config seed) events)
serve-ServerOk config seed events roomy h =
    serve_from (new_server config seed) events h (new_server-ServerOk config seed roomy)
