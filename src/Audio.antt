-- ===== src/Audio.antt =====
-- common/src/audio.rs: frames of samples. The arithmetic of f32 is a parameter: no law of it is used.
mod Mixing
pub mod Examples
use voicemcu.Base.{ℕ, Bool, List, [], ◌∷◌, map, length, replicate}
use voicemcu.Protocol.{frame_size}

-- What the code uses of f32. `from_bits` reads the 32 bits of a number.
pub record Float : Type 1 where
  pub Sample : Type 0
  pub zero_sample : Sample
  pub add : Sample → Sample → Sample
  pub sub : Sample → Sample → Sample
  pub mul : Sample → Sample → Sample
  pub div : Sample → Sample → Sample
  pub le : Sample → Sample → Bool
  pub sqrt : Sample → Sample
  pub tanh : Sample → Sample
  pub sin : Sample → Sample
  pub of_ℕ : ℕ → Sample
  pub from_bits : ℕ → Sample

module _ (f : Float) where
  open f use {Sample, zero_sample, add, mul, div, le, sqrt, tanh, of_ℕ}

  -- An array of `frame_size` samples; its length is a theorem where it matters.
  abbrev pub PcmFrame : Type 0
  PcmFrame = List Sample

  abbrev pub silence_frame : PcmFrame
  silence_frame = replicate frame_size zero_sample

  pub sum_squares : Sample → PcmFrame → Sample
  sum_squares acc [] = acc
  sum_squares acc (s ∷ frame) = sum_squares (add acc (mul s s)) frame

  pub compute_rms : PcmFrame → Sample
  compute_rms frame = sqrt (div (sum_squares zero_sample frame) (of_ℕ (length frame)))

  pub is_voice_active : PcmFrame → Sample → Bool
  is_voice_active frame threshold = le threshold (compute_rms frame)

  -- `zip`: a sample beyond the shorter frame is left as it is.
  pub add_frame : PcmFrame → PcmFrame → PcmFrame
  add_frame [] frame = []
  add_frame (out ∷ mixed) [] = out ∷ mixed
  add_frame (out ∷ mixed) (sample ∷ frame) = add out sample ∷ add_frame mixed frame

  pub mix_onto : PcmFrame → List PcmFrame → PcmFrame
  mix_onto mixed [] = mixed
  mix_onto mixed (frame ∷ frames) = mix_onto (add_frame mixed frame) frames

  pub mix_frames : List PcmFrame → PcmFrame
  mix_frames frames = mix_onto silence_frame frames

  pub soft_clip : Sample → Sample
  soft_clip sample = tanh sample

  pub soft_clip_frame : PcmFrame → PcmFrame
  soft_clip_frame frame = map soft_clip frame
