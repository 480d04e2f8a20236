-- ===== src/Server/Life.antt =====
-- server/src/main.rs, `main` and `shutdown`: from the command line to the end of the server. Files,
-- libraries and the network are parameters; the handlers run one after another between the start
-- and the shutdown, whichever of `accept_loop` and Ctrl+C ends them.
pub mod Notices
pub mod Served
mod Examples
use Prim.Native.String.{String}
use voicemcu.Base.{
  ℕ, ◌+◌, Bool, true, false, Option, none, some, List, [], ◌∷◌, ◌++◌, map, length, ltb, Result, ok,
  err, map_err, ◌>>=◌, if◌then◌else◌,
}
use voicemcu.Protocol.{ClientId, SignalMessage, error}
use voicemcu.Config.{Cli, ServerConfig, default_server_config, load}
use voicemcu.Certificates.{Disk, Crypto, TlsSetup, setup_tls}
use voicemcu.RateLimit
use voicemcu.RateLimit.{TokenBucket}
use voicemcu.Server.{Server, Room, ClientState, new_server, Output, shutdown}
use voicemcu.Server.Signaling.{Turn, signaling_turn}
use voicemcu.Server.Invariant.Events.{Event, serve}

-- `handle_signaling`: the bucket of a client, and the messages that its stream gives, each with its
-- time, until one ends the loop or the stream does.
unfoldable pub signaling_loop :
    Server → TokenBucket → String → ClientId → ℕ → List (ℕ × SignalMessage) → Server × List Output
signaling_loop s bucket room_code id connection [] = (s, [])
signaling_loop s bucket room_code id connection ((now, msg) ∷ messages) =
    let turn = signaling_turn s bucket room_code id connection now msg in
    let (last, outputs) = signaling_loop turn.server turn.bucket room_code id connection messages in
    if turn.goes_on then (last, turn.outputs ++ outputs) else (turn.server, turn.outputs)

unfoldable pub handle_signaling :
    Server → String → ClientId → ℕ → ℕ → List (ℕ × SignalMessage) → Server × List Output
handle_signaling s room_code id connection start messages =
    signaling_loop s (RateLimit.new s.config.signal_burst s.config.signal_rate start) room_code id
      connection messages

-- What `shutdown` does: the notices, a pause, and the end of the endpoint.
pub data Farewell : Type 0 where
  sends : (output : Output) → Farewell
  sleeps : (milliseconds : ℕ) → Farewell
  closes_endpoint : Farewell

-- `total`, as it is counted.
unfoldable pub total_clients : List (String × Room) → ℕ
total_clients [] = 0
total_clients ((code, r) ∷ rooms) = length r.clients + total_clients rooms

unfoldable pub shut_down : Server → List Farewell
shut_down s =
    map sends (shutdown s)
    ++ ((if ltb 0 (total_clients s.rooms) then sleeps 100 ∷ [] else []) ++ closes_endpoint ∷ [])

abbrev pub cert_path : ServerConfig → Option String
cert_path config = config.cert_file

abbrev pub key_path : ServerConfig → Option String
key_path config = config.key_file

-- `seed` is the random number of `Server::new`, `call` the call that makes a key.
pub record Outside : Type 1 where
  pub read_file : String → Result String ServerConfig
  pub to_string_pretty : ServerConfig → String
  pub disk : Disk
  pub crypto : Crypto
  pub call : ℕ
  pub bind_endpoint : crypto.Endpoint → String → Result String (Unit {0})
  pub seed : ℕ

pub data Ending : Type 0 where
  dumped : (text : String) → Ending
  failed : (message : String) → Ending
  served :
      (config : ServerConfig) (fingerprint : List ℕ) (s : Server) (end : List Farewell) → Ending

module _ (outside : Outside) where
  open outside use {read_file, to_string_pretty, disk, crypto, call, bind_endpoint, seed}

  -- From the endpoint on.
  unfoldable pub serve_until : ServerConfig → TlsSetup disk crypto → List Event → Ending
  serve_until config tls_setup events = elim (bind_endpoint tls_setup.server_config config.bind) [
    | err message ↦ failed message
    | ok u ↦
        let s = serve (new_server config seed) events in
        served config tls_setup.cert_fingerprint s (shut_down s)
  ]

  unfoldable pub after_tls :
      ServerConfig
      → disk.State × Result String (TlsSetup disk crypto)
      → List Event
      → disk.State × Ending
  after_tls config (files, err message) events = (files, failed message)
  after_tls config (files, ok tls_setup) events = (files, serve_until config tls_setup events)

  unfoldable pub start_server : ServerConfig → disk.State → List Event → disk.State × Ending
  start_server config files events =
      after_tls config
        (setup_tls disk crypto call (cert_path config) (key_path config) config.datagram_buffer
          files)
        events

  unfoldable pub after_load :
      Result String ServerConfig → disk.State → List Event → disk.State × Ending
  after_load (err message) files events = (files, failed message)
  after_load (ok config) files events = start_server config files events

  unfoldable pub main : Cli → disk.State → List Event → disk.State × Ending
  main cli files events =
      if cli.dump_config
      then (files, dumped (to_string_pretty default_server_config))
      else after_load (load read_file cli) files events
