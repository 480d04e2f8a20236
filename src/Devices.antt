-- ===== src/Devices.antt =====
-- client/src/audio_io.rs: between the devices and the rings: channels, rates and the two callbacks.
-- A position of the resampler is counted in units of one sample of its output rate, exactly, where
-- the code has f64; it starts at 0 and is never below. The devices themselves (cpal) are not here.
pub mod Resampling
pub mod Opening
mod Channels
mod Playback
mod Examples
use voicemcu.Base.{
  ℕ, zero, suc, ◌+◌, ◌-◌, ◌*◌, ◌/◌, ◌%◌, ◌==◌, min, ltb, leb, not, Bool, Option, none, some, List,
  [], ◌∷◌, ◌++◌, length, take, drop, set, replicate, get_elem?, if◌then◌else◌,
}
use voicemcu.Protocol.{sample_rate}
use voicemcu.Audio.{Float}
use voicemcu.Client.Sending.{Ring}

-- `ceil` of a quotient.
abbrev pub div_ceil : ℕ → ℕ → ℕ
div_ceil a b = (a + (b - 1)) / b

module _ (f : Float) where
  open f use {Sample, zero_sample, add, sub, mul, div, of_ℕ}

  pub sum : Sample → List Sample → Sample
  sum acc [] = acc
  sum acc (s ∷ chunk) = sum (add acc s) chunk

  -- `chunks_exact`: what is left over at the end goes. The fuel is the length, as each chunk takes one.
  pub chunks_exact : ℕ → ℕ → List Sample → List (List Sample)
  chunks_exact zero channels samples = []
  chunks_exact (suc fuel) channels samples =
      let rest = chunks_exact fuel channels (drop channels samples) in
      if leb channels (length samples) then take channels samples ∷ rest else []

  pub averages : Sample → List (List Sample) → List Sample
  averages inv [] = []
  averages inv (chunk ∷ chunks) = mul (sum zero_sample chunk) inv ∷ averages inv chunks

  pub downmix_to_mono : List Sample → ℕ → List Sample
  downmix_to_mono interleaved channels =
      if leb channels 1
      then interleaved
      else averages (div (of_ℕ 1) (of_ℕ channels))
          (chunks_exact (length interleaved) channels interleaved)

  -- `out[base + ch] = sample`, for the next n channels.
  pub write_channels : ℕ → ℕ → Sample → List Sample → List Sample
  write_channels zero at sample out = out
  write_channels (suc n) at sample out = write_channels n (at + 1) sample (set out at sample)

  pub write_frames : ℕ → ℕ → List Sample → List Sample → List Sample
  write_frames channels base [] out = out
  write_frames channels base (sample ∷ mono) out =
      write_frames channels (base + channels) mono (write_channels channels base sample out)

  -- At least one channel; with none the division panics.
  pub upmix_to_interleaved : List Sample → ℕ → List Sample → List Sample
  upmix_to_interleaved mono channels out =
      let frames = min (length mono) (length out / channels) in
      let filled = frames * channels in
      let written = write_frames channels 0 (take frames mono) out in
      take filled written ++ replicate (length out - filled) zero_sample

  -- `ratio` is `src_rate / dst_rate`, and `pos` counts in units of `1 / dst_rate`.
  pub record Resampler : Type 0 where
    pub src_rate : ℕ
    pub dst_rate : ℕ
    pub pos : ℕ
    pub prev_sample : Sample

  pub new_resampler : ℕ → ℕ → Resampler
  new_resampler src_rate dst_rate = record {
    src_rate = src_rate;
    dst_rate = dst_rate;
    pos = 0;
    prev_sample = zero_sample;
  }

  -- `(ratio - 1.0).abs() < 1e-9`
  pub is_identity : Resampler → Bool
  is_identity r =
      ltb ((r.src_rate - r.dst_rate + (r.dst_rate - r.src_rate)) * 1000000000) r.dst_rate

  abbrev pub sample_or : Sample → Option Sample → Sample
  sample_or default none = default
  sample_or default (some s) = s

  -- One sample of the output. The branches for a negative index, which read `prev_sample`, are not
  -- taken, as no position is below 0. The index of `a` is in range.
  pub interpolate : Resampler → List Sample → ℕ → Sample
  interpolate r input pos =
      let idx = pos / r.dst_rate in
      let frac = div (of_ℕ (pos % r.dst_rate)) (of_ℕ r.dst_rate) in
      let a = sample_or zero_sample (get_elem? input idx) in
      let b = sample_or a (get_elem? input (idx + 1)) in add a (mul (sub b a) frac)

  -- The loop, on fuel: the position after it, and what it appends.
  pub resample : ℕ → Resampler → List Sample → ℕ → Option (ℕ × List Sample)
  resample zero r input pos = none
  resample (suc fuel) r input pos =
      let rest = resample fuel r input (pos + r.src_rate) in
      if ltb pos (length input * r.dst_rate)
      then elim rest [
        | none ↦ none
        | some (last, output) ↦ some (last, interpolate r input pos ∷ output)
      ]
      else some (pos, [])

  pub last_or : Sample → List Sample → Sample
  last_or default [] = default
  last_or default (s ∷ samples) = last_or s samples

  -- Each round moves the position by one unit at least, so this many are enough.
  pub process : Resampler → List Sample → Option (Resampler × List Sample)
  process r [] = some (r, [])
  process r (s ∷ samples) =
      let input = s ∷ samples in
      elim (resample (length input * r.dst_rate + 1) r input r.pos) [
        | none ↦ none
        | some (last, output) ↦ some (
          record r { prev_sample = last_or s samples; pos = last - length input * r.dst_rate },
          output,
        )
      ]

  -- The frames that a callback works on, at the rate of the ring; `none` is a loop without an end.
  pub resampled : Resampler → List Sample → Option (Resampler × List Sample)
  resampled r samples = if not (is_identity r) then process r samples else some (r, samples)

  -- The callback of the capture stream.
  pub capture :
      (ring : Ring Sample)
      → ℕ
      → Resampler
      → ring.Buffer
      → List Sample
      → Option (Resampler × ring.Buffer)
  capture ring channels r buffer samples =
      let mono = if ltb 1 channels then downmix_to_mono samples channels else samples in
      elim (resampled r mono) [
        | none ↦ none
        | some (r', output) ↦ some (r', (ring.push_slice output buffer).0)
      ]

  pub needed : Resampler → ℕ → ℕ
  needed r output_frames =
      if not (is_identity r)
      then div_ceil (output_frames * r.src_rate) r.dst_rate + 2
      else output_frames

  -- What is written to a buffer for the device, of the length of `out`.
  pub fill_output : ℕ → List Sample → List Sample → List Sample
  fill_output channels mono out =
      if ltb 1 channels
      then upmix_to_interleaved mono channels out
      else (let copy = min (length mono) (length out / channels) in
          take copy mono ++ replicate (length out - copy) zero_sample)

  -- The callback of the playback stream.
  pub playback :
      (ring : Ring Sample)
      → ℕ
      → Resampler
      → ring.Buffer
      → List Sample
      → Option (Resampler × ring.Buffer × List Sample)
  playback ring channels r buffer out =
      let (rest, mono) = ring.pop_slice (needed r (length out / channels)) buffer in
      elim (resampled r mono) [
        | none ↦ none
        | some (r', final_mono) ↦ some (r', rest, fill_output channels final_mono out)
      ]

  pub capture_resampler : ℕ → Resampler
  capture_resampler device_rate = new_resampler device_rate sample_rate

  pub playback_resampler : ℕ → Resampler
  playback_resampler device_rate = new_resampler sample_rate device_rate
