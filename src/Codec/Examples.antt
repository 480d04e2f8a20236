-- ===== src/Codec/Examples.antt =====
-- A coder that keeps its bitrate and writes only at the lowest one, and the theorems at inputs.
use voicemcu.Base.{
  ℕ, ◌≤◌, ◌≡◌, refl, ap, ◌==◌, some, List, [], ◌∷◌, length, take, length-take, if◌then◌else◌,
  Result, ok, err, arith,
}
use voicemcu.Base.Int.{pos, pos_part}
use voicemcu.Codec.{
  Opus, OpusError, buffer_too_small, encode_with, encode_loop, after_attempt, retry, restore,
  new_encoder, and_then, configured,
}
use voicemcu.Codec.Encoding.{IsLawful}
use voicemcu.Codec.Rates.{KeepsRates, CodesAll, new_encoder-CodesAll}

pub write_at_lowest : List ℕ → ℕ → ℕ → ℕ × Result OpusError (List ℕ)
write_at_lowest pcm room b = (b, if b == 12000 then ok (take room pcm) else err buffer_too_small)

abbrev pub toy_opus : Opus ℕ
toy_opus = record {
  Encoder = ℕ;
  Decoder = ℕ;
  Bitrate = ℕ;
  bits_per_second = λ b. pos_part b;
  encoder_new = λ call. ok 24000;
  decoder_new = λ call. ok 0;
  bitrate = λ inner. ok inner;
  set_bitrate = λ b inner. (b, ok tt);
  disable_vbr = λ inner. (inner, ok tt);
  set_max_narrowband = λ inner. (inner, ok tt);
  encode_float = write_at_lowest;
  decode_float = λ packet output inner. (inner, output, ok 960);
  text = λ e. "opus";
}

write_at_lowest-fits :
    (pcm : List ℕ) (room b : ℕ) (packet : List ℕ)
    → (write_at_lowest pcm room b).1 ≡ ok packet
    → length packet ≤ room
unfolding write_at_lowest
write_at_lowest-fits pcm room b packet h = ground (arith, length-take room pcm, h)

pub toy_opus-IsLawful : IsLawful toy_opus
toy_opus-IsLawful = record { fits = write_at_lowest-fits }

toy_opus-KeepsRates : KeepsRates toy_opus
unfolding write_at_lowest
toy_opus-KeepsRates = record {
  HasRate = λ k inner. inner ≡ k;
  sets = λ k inner low high. (refl, refl);
  reads = λ k inner has. ap ok has;
  encodes = λ k pcm room inner has. has;
  vbr_kept = λ k inner has. has;
  bandwidth_kept = λ k inner has. has;
}

-- Two lower bitrates are tried, and the third attempt is within the buffer.
third_attempt : encode_with toy_opus 3 (1 ∷ 2 ∷ 3 ∷ []) 2 24000 ≡ some (24000, ok (1 ∷ 2 ∷ []))
unfolding encode_with write_at_lowest encode_loop after_attempt retry restore
third_attempt = refl

made : new_encoder toy_opus 0 (pos 24000) ≡ ok 24000
unfolding new_encoder and_then configured
made = refl

new_encoder-CodesAll_example :
    CodesAll toy_opus toy_opus-IsLawful 24000 3 24000
      ((1 ∷ 2 ∷ 3 ∷ [], 2) ∷ ([], 0) ∷ (4 ∷ [], 9) ∷ [])
new_encoder-CodesAll_example =
    new_encoder-CodesAll toy_opus toy_opus-IsLawful toy_opus-KeepsRates 24000 (omega arith)
      (omega arith) 0 3 24000 ((1 ∷ 2 ∷ 3 ∷ [], 2) ∷ ([], 0) ∷ (4 ∷ [], 9) ∷ []) (omega arith) made
