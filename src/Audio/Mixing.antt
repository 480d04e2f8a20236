-- ===== src/Audio/Mixing.antt =====
-- The mix, sample by sample.
use voicemcu.Base.{
  ℕ, zero, suc, ◌<◌, ◌≡◌, refl, ap, ◌∙◌, none, some, List, [], ◌∷◌, map, length, get_elem?,
  get_elem?-replicate, length-replicate, length-map, arith,
}
use voicemcu.Protocol.{frame_size}
use voicemcu.Audio.{
  Float, PcmFrame, add_frame, mix_onto, mix_frames, silence_frame, soft_clip_frame, soft_clip,
}

module _ (f : Float) where
  open f use {Sample, zero_sample, add, tanh}

  -- The specification of one sample: the samples at its position, added up from the left.
  pub column : Sample → ℕ → List (PcmFrame f) → Sample
  column acc i [] = acc
  column acc i (frame ∷ frames) =
      column (elim (get_elem? frame i) [ none ↦ acc | some s ↦ add acc s ]) i frames

  get_elem?-add_frame :
      (mixed frame : PcmFrame f) (i : ℕ) (out : Sample)
      → get_elem? mixed i ≡ some out
      → get_elem? (add_frame f mixed frame) i
        ≡ some (elim (get_elem? frame i) [ none ↦ out | some s ↦ add out s ])
  unfolding add_frame
  get_elem?-add_frame [] frame i out e = absurd cc
  get_elem?-add_frame (x ∷ mixed) [] i out e = e
  get_elem?-add_frame (x ∷ mixed) (s ∷ frame) zero out e = ground arith
  get_elem?-add_frame (x ∷ mixed) (s ∷ frame) (suc i) out e =
      get_elem?-add_frame mixed frame i out e

  get_elem?-mix_onto :
      (mixed : PcmFrame f) (frames : List (PcmFrame f)) (i : ℕ) (out : Sample)
      → get_elem? mixed i ≡ some out
      → get_elem? (mix_onto f mixed frames) i ≡ some (column out i frames)
  unfolding mix_onto column
  get_elem?-mix_onto mixed [] i out e = e
  get_elem?-mix_onto mixed (frame ∷ frames) i out e =
      get_elem?-mix_onto (add_frame f mixed frame) frames i _
        (get_elem?-add_frame mixed frame i out e)

  length-add_frame : (mixed frame : PcmFrame f) → length (add_frame f mixed frame) ≡ length mixed
  unfolding add_frame
  length-add_frame [] frame = refl
  length-add_frame (x ∷ mixed) [] = refl
  length-add_frame (x ∷ mixed) (s ∷ frame) = ap suc (length-add_frame mixed frame)

  length-mix_onto :
      (mixed : PcmFrame f) (frames : List (PcmFrame f))
      → length (mix_onto f mixed frames) ≡ length mixed
  unfolding mix_onto
  length-mix_onto mixed [] = refl
  length-mix_onto mixed (frame ∷ frames) =
      length-mix_onto (add_frame f mixed frame) frames ∙ length-add_frame mixed frame

  get_elem?-map :
      (g : Sample → Sample) (xs : PcmFrame f) (i : ℕ) (x : Sample)
      → get_elem? xs i ≡ some x
      → get_elem? (map g xs) i ≡ some (g x)
  get_elem?-map g [] i x e = absurd cc
  get_elem?-map g (y ∷ xs) zero x e = ground arith
  get_elem?-map g (y ∷ xs) (suc i) x e = get_elem?-map g xs i x e

  -- The clipped mix of any frames has the length of a frame, and each of its samples is the limiter
  -- of the sum, from the left and from zero, of the samples at that position.
  pub soft_clip_frame-mix_frames :
      (frames : List (PcmFrame f)) (i : ℕ)
      → i < frame_size
      → (length (soft_clip_frame f (mix_frames f frames)) ≡ frame_size)
        × (get_elem? (soft_clip_frame f (mix_frames f frames)) i
            ≡ some (tanh (column zero_sample i frames)))
  unfolding soft_clip_frame soft_clip mix_frames
  soft_clip_frame-mix_frames frames i h = (
    length-map (mix_onto f (silence_frame f) frames) tanh
        ∙ length-mix_onto (silence_frame f) frames
        ∙ length-replicate frame_size zero_sample,
    get_elem?-map tanh (mix_onto f (silence_frame f) frames) i _ (
        get_elem?-mix_onto (silence_frame f) frames i zero_sample
          (get_elem?-replicate frame_size i zero_sample h)),
  )
