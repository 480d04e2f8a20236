-- ===== src/Config/Client.antt =====
-- client/src/config.rs.
use Prim.Native.String.{String}
use voicemcu.Base.{ℕ, ◌||◌, Option, none, some, Result, ok, ◌>>=◌, ◌>>◌, ltb, ◌==◌}
use voicemcu.Base.Int.{ℤ, pos, ltb_ℤ}
use voicemcu.Protocol.{default_bitrate}
use voicemcu.Config.{override, override_some, refuse}

-- DEFAULT_RING_BUFFER_FRAMES of client/src/audio_io.rs and DEFAULT_MAX_EVENTS of client/src/tui.rs.
abbrev pub default_ring_buffer_frames : ℕ
default_ring_buffer_frames = 10

pub record ClientCli : Type 0 where
  pub config : Option String
  pub log_file : Option String
  pub bitrate : Option ℤ
  pub ring_buffer_frames : Option ℕ
  pub max_events : Option ℕ
  pub input_device : Option String
  pub output_device : Option String

abbrev pub default_max_events : ℕ
default_max_events = 1000

pub record ClientConfig : Type 0 where
  pub log_file : String
  pub bitrate : ℤ
  pub ring_buffer_frames : ℕ
  pub max_events : ℕ
  pub input_device : Option String
  pub output_device : Option String

abbrev pub default_client_config : ClientConfig
default_client_config = record {
  log_file = "voicemcu.log";
  bitrate = pos default_bitrate;
  ring_buffer_frames = default_ring_buffer_frames;
  max_events = default_max_events;
  input_device = none;
  output_device = none;
}

unfoldable pub apply_client_cli : ClientCli → ClientConfig → ClientConfig
apply_client_cli cli config = record config {
  log_file = override cli.log_file config.log_file;
  bitrate = override cli.bitrate config.bitrate;
  ring_buffer_frames = override cli.ring_buffer_frames config.ring_buffer_frames;
  max_events = override cli.max_events config.max_events;
  input_device = override_some cli.input_device config.input_device;
  output_device = override_some cli.output_device config.output_device;
}

unfoldable pub validate_client : ClientConfig → Result String (Unit {0})
validate_client c = do
  refuse (ltb_ℤ c.bitrate (pos 6000) || ltb_ℤ (pos 510000) c.bitrate)
      "bitrate must be between 6000 and 510000"
  refuse (c.ring_buffer_frames == 0 || ltb 100 c.ring_buffer_frames)
      "ring_buffer_frames must be between 1 and 100"
  refuse (c.max_events == 0) "max_events must be > 0"

unfoldable pub load_client :
    (String → Result String ClientConfig) → ClientCli → Result String ClientConfig
load_client read_file cli = do
  base ← elim cli.config [ some path ↦ read_file path | none ↦ ok default_client_config ]
  validate_client (apply_client_cli cli base)
  ok (apply_client_cli cli base)
