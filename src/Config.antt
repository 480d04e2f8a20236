-- ===== src/Config.antt =====
-- server/src/config.rs and client/src/config.rs: defaults, overrides by the command line, validation.
--
-- The TOML file is read and parsed elsewhere: `load` takes the outcome. An f32 is its bit pattern.
pub mod Client
pub mod Load
mod Examples
use Prim.Native.String.{String}
use voicemcu.Base.{
  ℕ, Bool, true, false, ◌||◌, not, Option, none, some, Result, ok, err, ◌>>=◌, ◌>>◌, ensure, ltb,
  leb, ◌==◌, if◌then◌else◌,
}
use voicemcu.Base.Int.{ℤ, pos, ltb_ℤ}
use voicemcu.Jitter.{default_jitter_depth}
use voicemcu.Protocol.{default_bitrate}

-- VAD_RMS_THRESHOLD of common/src/audio.rs: the f32 nearest to 0.002.
abbrev pub vad_rms_threshold : ℕ
vad_rms_threshold = 0x3B03126F

-- `(0.0..=1.0).contains(&x)` on bit patterns: from +0 to 1, which are ordered as numbers, and -0.
abbrev pub in_unit_range : ℕ → Bool
in_unit_range bits = leb bits 0x3F800000 || bits == 0x80000000

pub record Cli : Type 0 where
  pub dump_config : Bool
  pub config : Option String
  pub bind : Option String
  pub cert_file : Option String
  pub key_file : Option String
  pub bitrate : Option ℤ
  pub max_room_size : Option ℕ
  pub jitter_depth : Option ℕ
  pub vad_threshold : Option ℕ
  pub cleanup_interval : Option ℕ
  pub signal_rate : Option ℕ
  pub signal_burst : Option ℕ
  pub connect_rate_per_ip : Option ℕ
  pub connect_burst_per_ip : Option ℕ

pub record ServerConfig : Type 0 where
  pub bind : String
  pub cert_file : Option String
  pub key_file : Option String
  pub bitrate : ℤ
  pub max_room_size : ℕ
  pub jitter_depth : ℕ
  pub vad_threshold : ℕ
  pub cleanup_interval_secs : ℕ
  pub max_display_name : ℕ
  pub max_room_code : ℕ
  pub datagram_buffer : ℕ
  pub signal_rate : ℕ
  pub signal_burst : ℕ
  pub connect_rate_per_ip : ℕ
  pub connect_burst_per_ip : ℕ

abbrev pub default_server_config : ServerConfig
default_server_config = record {
  bind = "0.0.0.0:4433";
  cert_file = none;
  key_file = none;
  bitrate = pos default_bitrate;
  max_room_size = 64;
  jitter_depth = default_jitter_depth;
  vad_threshold = vad_rms_threshold;
  cleanup_interval_secs = 30;
  max_display_name = 64;
  max_room_code = 128;
  datagram_buffer = 65536;
  signal_rate = 10;
  signal_burst = 20;
  connect_rate_per_ip = 5;
  connect_burst_per_ip = 10;
}

-- `if let Some(v) = cli.field { config.field = v; }`
abbrev pub override {ℓ} : {A : Type ℓ} → Option A → A → A
override (some v) old = v
override none old = old

-- The same for a field that is optional in the configuration too.
abbrev pub override_some {ℓ} : {A : Type ℓ} → Option A → Option A → Option A
override_some (some v) old = some v
override_some none old = old

unfoldable pub apply_cli : Cli → ServerConfig → ServerConfig
apply_cli cli config = record config {
  bind = override cli.bind config.bind;
  cert_file = override_some cli.cert_file config.cert_file;
  key_file = override_some cli.key_file config.key_file;
  bitrate = override cli.bitrate config.bitrate;
  max_room_size = override cli.max_room_size config.max_room_size;
  jitter_depth = override cli.jitter_depth config.jitter_depth;
  vad_threshold = override cli.vad_threshold config.vad_threshold;
  cleanup_interval_secs = override cli.cleanup_interval config.cleanup_interval_secs;
  signal_rate = override cli.signal_rate config.signal_rate;
  signal_burst = override cli.signal_burst config.signal_burst;
  connect_rate_per_ip = override cli.connect_rate_per_ip config.connect_rate_per_ip;
  connect_burst_per_ip = override cli.connect_burst_per_ip config.connect_burst_per_ip;
}

-- One certificate file without the other.
abbrev pub half_pair : Option String → Option String → Bool
half_pair (some c) none = true
half_pair none (some k) = true
half_pair _ _ = false

-- `if test { return Err(message.into()); }`
unfoldable pub refuse : Bool → String → Result String (Unit {0})
refuse test message = ensure (not test) message

unfoldable pub validate : ServerConfig → Result String (Unit {0})
validate c = do
  refuse (ltb_ℤ c.bitrate (pos 6000) || ltb_ℤ (pos 510000) c.bitrate)
      "bitrate must be between 6000 and 510000"
  refuse (c.max_room_size == 0) "max_room_size must be > 0"
  refuse (c.jitter_depth == 0 || ltb 32 c.jitter_depth) "jitter_depth must be between 1 and 32"
  refuse (not (in_unit_range c.vad_threshold)) "vad_threshold must be between 0.0 and 1.0"
  refuse (c.cleanup_interval_secs == 0) "cleanup_interval_secs must be > 0"
  refuse (c.max_display_name == 0) "max_display_name must be > 0"
  refuse (c.max_room_code == 0) "max_room_code must be > 0"
  refuse (c.signal_rate == 0) "signal_rate must be > 0"
  refuse (c.signal_burst == 0) "signal_burst must be > 0"
  refuse (c.connect_rate_per_ip == 0) "connect_rate_per_ip must be > 0"
  refuse (c.connect_burst_per_ip == 0) "connect_burst_per_ip must be > 0"
  refuse (half_pair c.cert_file c.key_file)
      "cert_file and key_file must both be set or both be omitted"

-- `read_file` stands for reading and parsing the TOML file, with the defaults for missing fields.
unfoldable pub load : (String → Result String ServerConfig) → Cli → Result String ServerConfig
load read_file cli = do
  base ← elim cli.config [ some path ↦ read_file path | none ↦ ok default_server_config ]
  validate (apply_cli cli base)
  ok (apply_cli cli base)
