-- ===== src/Devices/Channels.antt =====
-- The buffer of the device: every frame of it is written, and each channel of a frame alike.
use mathlib.Core.List.{append_assoc}
use native.Mathlib.Nat.{mul-le-mul_right, div-mul-le_self}
use voicemcu.Base.{
  ℕ, zero, suc, ◌+◌, ◌-◌, ◌*◌, ◌/◌, ◌≤◌, ◌≡◌, refl, sym, ap, ◌∙◌, List, [], ◌∷◌, ◌++◌, length,
  length-append, length-take, length-replicate, take, drop, take-append-drop, length-drop,
  take-append_left, set, replicate, min, arith,
}
use voicemcu.Audio.{Float}
use voicemcu.Devices.{write_channels, write_frames, upmix_to_interleaved}

module _ (f : Float) where
  open f use {Sample, zero_sample}

  -- The specification: each sample as often as there are channels.
  pub spread : ℕ → List Sample → List Sample
  spread channels [] = []
  spread channels (s ∷ mono) = replicate channels s ++ spread channels mono

  length-spread :
      (channels : ℕ) (mono : List Sample) → length (spread channels mono) ≡ length mono * channels
  unfolding spread
  length-spread channels [] = omega arith
  length-spread channels (s ∷ mono) = omega (
    arith,
    length-append (replicate channels s) (spread channels mono),
    length-replicate channels s,
    length-spread channels mono,
  )

  set-append :
      (pre : List Sample) (x v : Sample) (rest : List Sample)
      → set (pre ++ x ∷ rest) (length pre) v ≡ pre ++ v ∷ rest
  set-append [] x v rest = refl
  set-append (p ∷ pre) x v rest = ap (λ xs. p ∷ xs) (set-append pre x v rest)

  length-snoc : (pre : List Sample) (v : Sample) → length pre + 1 ≡ length (pre ++ v ∷ [])
  length-snoc pre v = omega (arith, length-append pre (v ∷ []))

  -- The channels of one frame: what stands before and behind it stays.
  write_channels-append :
      (n : ℕ) (v : Sample) (pre old rest : List Sample)
      → length old ≡ n
      → write_channels f n (length pre) v (pre ++ (old ++ rest)) ≡ pre ++ (replicate n v ++ rest)
  unfolding write_channels
  write_channels-append zero v pre [] rest e = refl
  write_channels-append zero v pre (x ∷ old) rest e = absurd (omega (arith, e))
  write_channels-append (suc n) v pre [] rest e = absurd (omega (arith, e))
  write_channels-append (suc n) v pre (x ∷ old) rest e =
      let pre' = pre ++ v ∷ [] in
      ap (write_channels f n (length pre + 1) v)
        (set-append pre x v (old ++ rest) ∙ sym (append_assoc pre (v ∷ []) (old ++ rest)))
      ∙ ap (λ k. write_channels f n k v (pre' ++ (old ++ rest))) (length-snoc pre v)
      ∙ write_channels-append n v pre' old rest (omega (arith, e))
      ∙ append_assoc pre (v ∷ []) (replicate n v ++ rest)

  write_frames-append :
      (channels : ℕ) (mono pre old rest : List Sample)
      → length old ≡ length mono * channels
      → write_frames f channels (length pre) mono (pre ++ (old ++ rest))
        ≡ pre ++ (spread channels mono ++ rest)
  unfolding write_frames spread
  write_frames-append channels [] pre [] rest e = refl
  write_frames-append channels [] pre (x ∷ old) rest e = absurd (omega (arith, e))
  write_frames-append channels (s ∷ mono) pre old rest e =
      let now = take channels old in
      let later = drop channels old in
      let pre' = pre ++ replicate channels s in
      ap
        (λ xs.
          write_frames f channels (length pre + channels) mono
            (write_channels f channels (length pre) s xs))
        (ap (λ xs. pre ++ (xs ++ rest)) (sym (take-append-drop channels old))
          ∙ ap (λ xs. pre ++ xs) (append_assoc now later rest))
      ∙ ap (write_frames f channels (length pre + channels) mono) (
          write_channels-append channels s pre now (later ++ rest)
            (omega (arith, length-take channels old, e))
          ∙ sym (append_assoc pre (replicate channels s) (later ++ rest)))
      ∙ ap (λ k. write_frames f channels k mono (pre' ++ (later ++ rest)))
          (omega (arith, length-append pre (replicate channels s), length-replicate channels s))
      ∙ write_frames-append channels mono pre' later rest
          (omega (arith, length-drop channels old, e))
      ∙ append_assoc pre (replicate channels s) (spread channels mono ++ rest)
      ∙ ap (λ xs. pre ++ xs) (sym (append_assoc (replicate channels s) (spread channels mono) rest))

  -- As many frames as there are and as fit.
  written :
      (mono : List Sample) (channels frames : ℕ) (out : List Sample)
      → frames ≤ length mono
      → frames * channels ≤ length out
      → take (frames * channels) (write_frames f channels 0 (take frames mono) out)
        ≡ spread channels (take frames mono)
  written mono channels frames out enough fits =
      let filled = frames * channels in
      let size : length (take frames mono) ≡ frames = omega (arith, length-take frames mono) in
      let same : length (spread channels (take frames mono)) ≡ filled =
        length-spread channels (take frames mono) ∙ ap (λ n. n * channels) size in
      ap (λ xs. take filled (write_frames f channels 0 (take frames mono) xs))
        (sym (take-append-drop filled out))
      ∙ ap (take filled) (
          write_frames-append channels (take frames mono) [] (take filled out) (drop filled out)
            (omega (arith, length-take filled out, ap (λ n. n * channels) size)))
      ∙ ap (λ n. take n (spread channels (take frames mono) ++ drop filled out)) (sym same)
      ∙ take-append_left (spread channels (take frames mono)) (drop filled out)

  fits_whole : (frames channels size : ℕ) → frames ≤ size / channels → frames * channels ≤ size
  fits_whole frames channels size h =
      omega (arith, mul-le-mul_right channels h, div-mul-le_self size channels)

  -- The buffer is filled with the frames of the mono samples, as many of them as there are and as fit
  -- in whole, each written to every channel, and behind them with silence to the end. Nothing of what
  -- the buffer held is left, and its length stays.
  pub upmix_to_interleaved_lem :
      (mono : List Sample) (channels : ℕ) (out : List Sample)
      → (upmix_to_interleaved f mono channels out
          ≡ spread channels (take (min (length mono) (length out / channels)) mono)
            ++ replicate
                (length out - min (length mono) (length out / channels) * channels)
                zero_sample)
        × (length (upmix_to_interleaved f mono channels out) ≡ length out)
  unfolding upmix_to_interleaved
  upmix_to_interleaved_lem mono channels out =
      let frames = min (length mono) (length out / channels) in
      let silence = replicate (length out - frames * channels) zero_sample in
      let fits = fits_whole frames channels (length out) (omega arith) in
      let size : length (take frames mono) ≡ frames = omega (arith, length-take frames mono) in
      let front = written mono channels frames out (omega arith) fits in
      let whole = ap (λ xs. xs ++ silence) front in
      (
        whole,
        ap length whole
            ∙ omega (
              arith,
              length-append (spread channels (take frames mono)) silence,
              length-spread channels (take frames mono),
              length-replicate (length out - frames * channels) zero_sample,
              ap (λ n. n * channels) size,
              fits,
            ),
      )
