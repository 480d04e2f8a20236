-- ===== src/Client/Start.antt =====
-- `main` of client/src/main.rs: from the command line to the interface. The command line is parsed
-- and the log file opened before; the network, the terminal and the devices are parameters.
mod Ready
pub mod Session
mod Examples
use Prim.Native.String.{String}
use voicemcu.Base.{
  ℕ, ◌*◌, Bool, true, false, Option, none, some, List, [], ◌∷◌, ◌++◌, Result, ok, err, map_err,
  ◌>>=◌, take, if◌then◌else◌,
}
use voicemcu.Base.Int.{ℤ}
use voicemcu.Protocol.{ClientId, SignalMessage, Postcard, frame_size}
use voicemcu.Config.Client.{ClientCli, ClientConfig, load_client}
use voicemcu.Audio.{Float}
use voicemcu.Codec.{Opus}
use voicemcu.Tui.{AppState, add_event, dark_gray, yellow}
use voicemcu.Tui.Text.{append, show_id}
use voicemcu.Tui.Loop.{LoopEvent, run}
use voicemcu.Devices.Opening.{
  StreamFormat, Host, DeviceInfo, AudioPipeline, new, format_text, list_devices,
}
use voicemcu.Client.Pinning.{PinError, CertMode, cert_mode}
use voicemcu.Client.Pinning.Verifiers.{Rustls, ClientTls, build_client_config}
use voicemcu.Client.Messages.{JoinError, handshake, command_writer}
use voicemcu.Client.Sending.{Ring, SendTurn, capture_encode_loop, test_tone_loop}

pub record Arguments : Type 0 where
  pub lists_devices : Bool
  pub server : Option String
  pub room : Option String
  pub name : Option String
  pub cert_hash : Option (List ℕ)
  pub danger_skip_verify : Bool
  pub test_tone : Bool
  pub settings : ClientCli

pub data StartError : Type 0 where
  missing : (message : String) → StartError
  misconfigured : (message : String) → StartError
  unpinned : PinError → StartError
  no_tls : (message : String) → StartError
  unconnected : (message : String) → StartError
  unjoined : JoinError → StartError
  no_terminal : (message : String) → StartError

pub required : String → Option String → Result StartError String
required message none = err (missing message)
required message (some value) = ok value

-- The two lines on the devices.
pub device_events : DeviceInfo → AppState → AppState
device_events info app =
    let input : StreamFormat = record {
      sample_rate = info.input_rate;
      channels = info.input_channels;
    } in
    let output : StreamFormat = record {
      sample_rate = info.output_rate;
      channels = info.output_channels;
    } in
    add_event (append "output: " (append info.output_name (append " " (format_text output))))
      dark_gray
      (add_event (append "input:  " (append info.input_name (append " " (format_text input))))
        dark_gray app)

-- The samples that each ring holds.
abbrev pub ring_buffer_size : ClientConfig → ℕ
ring_buffer_size config = frame_size * config.ring_buffer_frames

-- What `main` meets outside: files of settings, QUIC with the bytes that the server sends on the
-- stream, the terminal, rustls and the devices.
pub record Outside : Type 1 where
  pub read_file : String → Result String ClientConfig
  pub rustls : Rustls
  pub connect : ClientTls rustls → String → Result String (List ℕ)
  pub setup_terminal : Result String (Unit {0})
  pub restore_terminal : Result String (Unit {0})
  pub host : Host

module _ (postcard : Postcard) (outside : Outside) where
  open outside use {read_file, rustls, connect, setup_terminal, host}

  -- The interface with its first lines, and the pipeline, if one plays.
  pub open_audio : Bool → ClientConfig → AppState → AppState × Option (AudioPipeline host)
  open_audio true config app = (add_event "test-tone mode (440 Hz sine)" dark_gray app, none)
  open_audio false config app = elim (new host config.input_device config.output_device) [
    | ok (pipeline, info) ↦ (device_events info app, some pipeline)
    | err e ↦ (add_event (append "audio init failed, using test tone: " e) yellow app, none)
  ]

  -- What the client is when the interface begins: the bytes that it has written, the bitrate, the
  -- interface and the pipeline.
  pub record Started : Type 0 where
    pub config : ClientConfig
    pub written : List ℕ
    pub app : AppState
    pub pipeline : Option (AudioPipeline host)

  pub started_with : Bool → ClientConfig → List ℕ → AppState → Started
  started_with test_tone config written app =
      let (shown, pipeline) = open_audio test_tone config app in
      record { config = config; written = written; app = shown; pipeline = pipeline }

  -- From the connection on.
  pub join_room :
      Arguments → ClientConfig → CertMode → String → String → String → Result StartError Started
  join_room cli config mode server_addr room name = do
    tls ← map_err no_tls (build_client_config rustls mode)
    stream ← map_err unconnected (connect tls server_addr)
    (written, app) ←
        map_err unjoined
          (handshake postcard room name config.max_events cli.danger_skip_verify stream)
    u ← map_err no_terminal setup_terminal
    ok (started_with cli.test_tone config written app)

  pub start : Arguments → Result StartError Started
  start cli = do
    server_addr ← required "server address is required" cli.server
    room ← required "room code is required" cli.room
    name ← required "display name is required" cli.name
    config ← map_err misconfigured (load_client read_file cli.settings)
    mode ← map_err unpinned (cert_mode cli.cert_hash cli.danger_skip_verify)
    join_room cli config mode server_addr room name

  -- The task that sends audio, over some turns.
  pub send_task :
      (f : Float) (opus : Opus f.Sample) (ring : Ring f.Sample)
      → Started
      → ClientId
      → ℕ
      → List (SendTurn f opus)
      → ring.Buffer
      → List (List ℕ)
  send_task f opus ring started client_id call turns buffer = elim started.pipeline [
    | none ↦ test_tone_loop f opus client_id started.config.bitrate call turns
    | some pipeline ↦
        capture_encode_loop f opus ring client_id started.config.bitrate call turns buffer
  ]

  -- How the program ends: the list of devices, an error, or a session with the last state of the
  -- interface and the bytes written to the signaling stream.
  pub data Ending : Type 0 where
    listed : (lines : List String) → Ending
    failed : (e : StartError) → Ending
    ended : (app : AppState) (written : List ℕ) → Ending

  -- The writer of commands is aborted after it has taken so many.
  pub end_session : Started → ℕ → AppState × List SignalMessage → Ending
  end_session started taken (app, cmds) = elim outside.restore_terminal [
    | err message ↦ failed (no_terminal message)
    | ok u ↦ ended app (started.written ++ command_writer postcard (take taken cmds))
  ]

  pub main : Arguments → ℕ → List LoopEvent → Ending
  main cli taken events =
      if cli.lists_devices then listed (list_devices host) else elim (start cli) [
        | err e ↦ failed e
        | ok started ↦ end_session started taken (run started.app events)
      ]
