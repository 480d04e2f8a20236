-- ===== src/Config/Load.antt =====
-- What a configuration that was loaded satisfies.
use Prim.Native.String.{String}
use voicemcu.Base.{
  ◌≤◌, ◌<◌, ◌≡◌, ◌↔◌, ◌⊎◌, inl, inr, refl, Bool, true, false, none, some, Option-cases, sym, Result,
  ok, err, arith, ◌>>=◌, ◌>>◌,
}
use voicemcu.Base.Int.{pos, ◌≤ℤ◌}
use voicemcu.Jitter
use voicemcu.Jitter.{JitterBuffer}
use voicemcu.Jitter.Invariant.{new_total}
use voicemcu.Config.{
  Cli, ServerConfig, default_server_config, in_unit_range, half_pair, apply_cli, refuse, validate,
  load,
}

pub record IsAcceptable (c : ServerConfig) : Type 0 where
  pub bitrate_low : pos 6000 ≤ℤ c.bitrate
  pub bitrate_high : c.bitrate ≤ℤ pos 510000
  pub max_room_size : 0 < c.max_room_size
  pub jitter_low : 0 < c.jitter_depth
  pub jitter_high : c.jitter_depth ≤ 32
  pub vad_threshold : in_unit_range c.vad_threshold ≡ true
  pub cleanup_interval : 0 < c.cleanup_interval_secs
  pub max_display_name : 0 < c.max_display_name
  pub max_room_code : 0 < c.max_room_code
  pub signal_rate : 0 < c.signal_rate
  pub signal_burst : 0 < c.signal_burst
  pub connect_rate : 0 < c.connect_rate_per_ip
  pub connect_burst : 0 < c.connect_burst_per_ip
  pub certificate : half_pair c.cert_file c.key_file ≡ false

-- One check of a chain: it passes, and the rest does.
refuse_cases :
    (test : Bool) (message : String) (rest : Result String (Unit {0})) {done : Unit {0}}
    → (refuse test message >> rest) ≡ ok done
    → (test ≡ false) × (rest ≡ ok done)
unfolding refuse
refuse_cases true message rest h = cc
refuse_cases false message rest h = (refl, h)

refuse_pass :
    (test : Bool) (message : String) {rest : Result String (Unit {0})}
    → test ≡ false
    → rest ≡ ok tt
    → (refuse test message >> rest) ≡ ok tt
unfolding refuse
refuse_pass true message h k = cc
refuse_pass false message h k = k

last_check : (test : Bool) (message : String) → (refuse test message ≡ ok tt) ↔ (test ≡ false)
unfolding refuse
last_check test message = ground arith

accepted : (c : ServerConfig) → validate c ≡ ok tt → IsAcceptable c
unfolding validate
accepted c h =
    let (rate, h0) = refuse_cases _ _ _ h in
    let (room, h1) = refuse_cases _ _ _ h0 in
    let (jitter, h2) = refuse_cases _ _ _ h1 in
    let (vad, h3) = refuse_cases _ _ _ h2 in
    let (cleanup, h4) = refuse_cases _ _ _ h3 in
    let (name, h5) = refuse_cases _ _ _ h4 in
    let (code, h6) = refuse_cases _ _ _ h5 in
    let (srate, h7) = refuse_cases _ _ _ h6 in
    let (sburst, h8) = refuse_cases _ _ _ h7 in
    let (crate, h9) = refuse_cases _ _ _ h8 in
    let (cburst, h10) = refuse_cases _ _ _ h9 in
    record {
      bitrate_low = ground (arith, rate);
      bitrate_high = ground (arith, rate);
      max_room_size = ground (arith, room);
      jitter_low = ground (arith, jitter);
      jitter_high = ground (arith, jitter);
      vad_threshold = ground (arith, vad);
      cleanup_interval = ground (arith, cleanup);
      max_display_name = ground (arith, name);
      max_room_code = ground (arith, code);
      signal_rate = ground (arith, srate);
      signal_burst = ground (arith, sburst);
      connect_rate = ground (arith, crate);
      connect_burst = ground (arith, cburst);
      certificate = (last_check _ _).0 h10;
    }

passes : (c : ServerConfig) → IsAcceptable c → validate c ≡ ok tt
unfolding validate
passes c a = refuse_pass _ _ (ground (arith, a.bitrate_low, a.bitrate_high)) (
    refuse_pass _ _ (ground (arith, a.max_room_size)) (
      refuse_pass _ _ (ground (arith, a.jitter_low, a.jitter_high)) (
        refuse_pass _ _ (ground (arith, a.vad_threshold)) (
          refuse_pass _ _ (ground (arith, a.cleanup_interval)) (
            refuse_pass _ _ (ground (arith, a.max_display_name)) (
              refuse_pass _ _ (ground (arith, a.max_room_code)) (
                refuse_pass _ _ (ground (arith, a.signal_rate)) (
                  refuse_pass _ _ (ground (arith, a.signal_burst)) (
                    refuse_pass _ _ (ground (arith, a.connect_rate)) (
                      refuse_pass _ _ (ground (arith, a.connect_burst))
                        ((last_check _ _).1 a.certificate)))))))))))

-- `validate` accepts exactly the acceptable configurations.
pub validate-IsAcceptable : (c : ServerConfig) → (validate c ≡ ok tt) ↔ IsAcceptable c
validate-IsAcceptable c = (accepted c, passes c)

-- A check in front of a result.
then_ok :
    {A : Type 0} (check : Result String (Unit {0})) {a b : A}
    → (check >> ok a) ≡ ok b
    → (check ≡ ok tt) × (a ≡ b)
then_ok (ok u) h = (refl, ground arith)
then_ok (err e) h = cc

pub load-IsAcceptable :
    (read_file : String → Result String ServerConfig) (cli : Cli) {c : ServerConfig}
    → load read_file cli ≡ ok c
    → IsAcceptable c
      × ((base : ServerConfig) × (c ≡ apply_cli cli base)
          × (((cli.config ≡ none) × (base ≡ default_server_config))
              ⊎ ((path : String) × (cli.config ≡ some path) × (read_file path ≡ ok base))))
unfolding load apply_cli
load-IsAcceptable read_file cli {c} h = elim (Option-cases cli.config) [
  | inl no_file ↦
      let (checked, same) = then_ok _ (rw (no_file, load) at h) in
      (rw same at (accepted _ checked), (default_server_config, sym same, inl (no_file, refl)))
  | inr (path, named) ↦ from_file path named (read_file path) refl (rw (named, load) at h)
]
  where
    from_file :
        (path : String)
        → cli.config ≡ some path
        → (r : Result String ServerConfig) → read_file path ≡ r
        → (r >>= λ base. validate (apply_cli cli base) >> ok (apply_cli cli base)) ≡ ok c
        → IsAcceptable c
          × ((base : ServerConfig) × (c ≡ apply_cli cli base)
              × (((cli.config ≡ none) × (base ≡ default_server_config))
                  ⊎ ((path : String) × (cli.config ≡ some path) × (read_file path ≡ ok base))))
    from_file path named (err e) read k = cc
    from_file path named (ok base) read k =
        let (checked, same) = then_ok _ k in
        (rw same at (accepted _ checked), (base, sym same, inr (path, named, read)))

-- The jitter buffers that the mix task makes for a loaded configuration are never of depth 0, which
-- would be a panic, and are small enough for the sequence arithmetic.
pub load-new :
    (read_file : String → Result String ServerConfig) (cli : Cli) {c : ServerConfig} {A : Type 0}
    → load read_file cli ≡ ok c
    → ((b : JitterBuffer A) × (Jitter.new c.jitter_depth ≡ some b)) × (c.jitter_depth ≤ 32)
load-new read_file cli {c} {A} h =
    let a = (load-IsAcceptable read_file cli h).0 in
    (new_total c.jitter_depth a.jitter_low, a.jitter_high)
