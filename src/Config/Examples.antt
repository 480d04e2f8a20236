-- ===== src/Config/Examples.antt =====
-- Configurations from the tests of server/src/config.rs, and the theorems at inputs.
use Prim.Native.String.{String}
use voicemcu.Base.{◌≡◌, refl, none, some, Result, ok, err, false}
use voicemcu.Base.Int.{pos, negsuc}
use voicemcu.Config.{Cli, ServerConfig, default_server_config, refuse, validate}

-- `default_config_is_valid`.
validate-default : validate default_server_config ≡ ok tt
unfolding validate refuse
validate-default = refl

-- `validation_rejects_cert_without_key`, `validation_rejects_negative_vad` (-0.1) and a negative rate.
cert_without_key :
    validate (record default_server_config { cert_file = some "cert.pem" })
    ≡ err "cert_file and key_file must both be set or both be omitted"
unfolding validate refuse
cert_without_key = refl

negative_vad :
    validate (record default_server_config { vad_threshold = 0xBDCCCCCD })
    ≡ err "vad_threshold must be between 0.0 and 1.0"
unfolding validate refuse
negative_vad = refl

negative_bitrate :
    validate (record default_server_config { bitrate = negsuc 0 })
    ≡ err "bitrate must be between 6000 and 510000"
unfolding validate refuse
negative_bitrate = refl

abbrev deep_cli : Cli
deep_cli = record {
  dump_config = false;
  config = none;
  bind = none;
  cert_file = none;
  key_file = none;
  bitrate = some (pos 64000);
  max_room_size = none;
  jitter_depth = some 12;
  vad_threshold = none;
  cleanup_interval = none;
  signal_rate = none;
  signal_burst = none;
  connect_rate_per_ip = none;
  connect_burst_per_ip = none;
}

abbrev no_file : String → Result String ServerConfig
no_file path = err "no such file"

abbrev deep_config : ServerConfig
deep_config = record default_server_config { bitrate = pos 64000; jitter_depth = 12 }
