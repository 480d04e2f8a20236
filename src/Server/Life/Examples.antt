-- ===== src/Server/Life/Examples.antt =====
-- A server that starts, and the theorem at a run of it.
use Prim.Native.String.{String}
use voicemcu.Base.{ℕ, ◌≡◌, refl, true, false, none, List, [], ◌∷◌, ok, err}
use voicemcu.Protocol.{SignalMessage}
use voicemcu.Config.{Cli, ServerConfig, default_server_config, load, apply_cli, validate, refuse}
use voicemcu.Certificates.{
  setup_tls, obtain_pair, generate_pair, make_pair, save_pair, saved_pair, set_up, hex_text,
  hex_char,
}
use voicemcu.Certificates.Examples.{toy_disk, toy_crypto}
use voicemcu.Server.{new_server, shutdown, farewells}
use voicemcu.Server.Invariant.Events.{Event, connects, serve}
use voicemcu.Server.Life.{
  Outside, main, after_load, start_server, after_tls, serve_until, shut_down, total_clients,
  closes_endpoint, served,
}

abbrev outside : Outside
outside = record {
  read_file = λ (path : String). err "not found";
  to_string_pretty = λ (config : ServerConfig). "";
  disk = toy_disk;
  crypto = toy_crypto;
  call = 7;
  bind_endpoint = λ (endpoint : ℕ) (address : String). ok tt;
  seed = 5;
}

abbrev cli : Cli
cli = record {
  dump_config = false;
  config = none;
  bind = none;
  cert_file = none;
  key_file = none;
  bitrate = none;
  max_room_size = none;
  jitter_depth = none;
  vad_threshold = none;
  cleanup_interval = none;
  signal_rate = none;
  signal_burst = none;
  connect_rate_per_ip = none;
  connect_burst_per_ip = none;
}

-- Nobody comes, so nobody is told.
idle :
    (main outside cli [] []).1
    ≡ served default_server_config
        (54 ∷ 98 ∷ [])
        (new_server default_server_config 5)
        (closes_endpoint ∷ [])
unfolding main load apply_cli validate refuse after_load start_server setup_tls obtain_pair
    generate_pair make_pair save_pair saved_pair set_up hex_text hex_char after_tls serve_until
    serve shut_down shutdown farewells total_clients new_server
idle = refl

abbrev arrivals : List Event
arrivals =
    connects 10 (SignalMessage.join "lab" "ada") true
    ∷ connects 20 (SignalMessage.join "lab" "bob") true
    ∷ []
