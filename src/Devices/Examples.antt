-- ===== src/Devices/Examples.antt =====
-- Tests of the source, and the theorems at inputs.
use voicemcu.Base.{ℕ, ◌≡◌, refl, [], ◌∷◌, replicate}
use voicemcu.Audio.Examples.{counting}
use voicemcu.Client.Sending.{Ring}
use voicemcu.Devices.{
  chunks_exact, averages, downmix_to_mono, sum, write_channels, write_frames, upmix_to_interleaved,
  new_resampler, needed, is_identity,
}

-- `upmix_to_stereo`, into a buffer with one sample too many.
upmix_stereo :
    upmix_to_interleaved counting (1 ∷ 2 ∷ []) 2 (9 ∷ 9 ∷ 9 ∷ 9 ∷ 9 ∷ []) ≡ 1 ∷ 1 ∷ 2 ∷ 2 ∷ 0 ∷ []
unfolding upmix_to_interleaved write_frames write_channels
upmix_stereo = refl

-- Three channels, and a sample that is left over; to divide is to do nothing here.
downmix_three : downmix_to_mono counting (1 ∷ 2 ∷ 3 ∷ 4 ∷ 5 ∷ 6 ∷ 7 ∷ []) 3 ≡ 6 ∷ 15 ∷ []
unfolding downmix_to_mono chunks_exact averages sum
downmix_three = refl

-- 44100 frames a second, 10 frames to play: 13 samples are asked for.
needed_13 : needed counting (new_resampler counting 48000 44100) 10 ≡ 13
unfolding new_resampler needed is_identity
needed_13 = refl

-- A ring that is never empty.
abbrev full_ring : Ring ℕ
full_ring = record {
  Buffer = ℕ;
  pop_slice = λ n buffer. (buffer, replicate n 1);
  push_slice = λ samples buffer. (buffer, 0);
}
