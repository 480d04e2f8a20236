-- ===== src/Client/Start/Examples.antt =====
-- A client that joins without devices and quits at once.
use Prim.Native.String.{String}
use voicemcu.Base.{ℕ, true, false, none, some, List, [], ◌∷◌, Result, ok, err, ◌==◌, if◌then◌else◌}
use voicemcu.Protocol.{SignalMessage, join, joined, leave, Postcard}
use voicemcu.Tui
use voicemcu.Tui.{AppState, peer_entry, green, red_bold, yellow}
use voicemcu.Devices.Opening.{StreamFormat, Host}
use voicemcu.Client.Pinning.Verifiers.{Rustls, ClientTls}
use voicemcu.Client.Start.{Arguments, Outside}

abbrev pocket_encode : SignalMessage → Result String (List ℕ)
pocket_encode leave = ok (1 ∷ [])
pocket_encode (join room_code display_name) = ok (2 ∷ [])
pocket_encode _ = err "unsupported"

abbrev pocket_decode : List ℕ → Result String SignalMessage
pocket_decode (tag ∷ []) = if tag == 3 then ok (joined 7) else err "unsupported"
pocket_decode _ = err "unsupported"

abbrev pocket : Postcard
pocket = record { to_allocvec = pocket_encode; from_slice = pocket_decode }

abbrev no_devices : Host
no_devices = record {
  Device = ℕ;
  Stream = ℕ;
  input_devices = none;
  output_devices = none;
  default_input_device = none;
  default_output_device = none;
  name = λ (d : ℕ). none;
  default_input_config = λ (d : ℕ). err "none";
  default_output_config = λ (d : ℕ). err "none";
  build_input_stream = λ (d : ℕ) (format : StreamFormat). err "none";
  build_output_stream = λ (d : ℕ) (format : StreamFormat). err "none";
  play = λ (s : ℕ). none;
}

abbrev trusting : Rustls
trusting = record {
  Der = ℕ;
  Dss = ℕ;
  Scheme = ℕ;
  sha256 = λ (cert : ℕ). cert ∷ [];
  verify_tls12_signature = λ (message : List ℕ) (cert dss : ℕ). true;
  verify_tls13_signature = λ (message : List ℕ) (cert dss : ℕ). true;
  supported_schemes = [];
  install_default = true;
  try_from = ok tt;
}

abbrev outside : Outside
outside = record {
  read_file = λ (path : String). err "not found";
  rustls = trusting;
  connect = λ (tls : ClientTls trusting) (server_addr : String). ok (0 ∷ 0 ∷ 0 ∷ 1 ∷ 3 ∷ []);
  setup_terminal = ok tt;
  restore_terminal = ok tt;
  host = no_devices;
}

abbrev cli : Arguments
cli = record {
  lists_devices = false;
  server = some "localhost:4433";
  room = some "lab";
  name = some "eve";
  cert_hash = none;
  danger_skip_verify = true;
  test_tone = false;
  settings = record {
    config = none;
    log_file = none;
    bitrate = none;
    ring_buffer_frames = none;
    max_events = none;
    input_device = none;
    output_device = none;
  };
}

abbrev final : AppState
final = record {
  client_id = 7;
  room_code = "lab";
  display_name = "eve";
  is_host = false;
  self_muted = false;
  server_muted = false;
  peers = [];
  events =
      ("connected to server", green)
      ∷ ("WARNING: TLS verification disabled -- connection is NOT secure", red_bold)
      ∷ ("audio init failed, using test tone: no default input audio device", yellow)
      ∷ [];
  input = "";
  should_quit = true;
  max_events = 1000;
}

abbrev written : List ℕ
written = 0 ∷ 0 ∷ 0 ∷ 1 ∷ 2 ∷ 0 ∷ 0 ∷ 0 ∷ 1 ∷ 1 ∷ []
