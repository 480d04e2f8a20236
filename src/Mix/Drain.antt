-- ===== src/Mix/Drain.antt =====
-- The loop that empties a jitter buffer while nobody listens: it ends by its own test.
use voicemcu.Base.{ℕ, zero, suc, ◌<◌, ◌≡◌, inl, inr, none, arith, Option-cases}
use voicemcu.Audio.{Float, PcmFrame}
use voicemcu.Codec.{Opus}
use voicemcu.Jitter.{JitterBuffer, pop}
use voicemcu.Jitter.Occupied.{occupied, occupied-le, occupied-pop, pop-none}
use voicemcu.Jitter.Invariant.{IsValid, pop-IsValid}
use voicemcu.Mix.{pop_all, drain_jitter, MixClientState}

module _ (f : Float) (opus : Opus f.Sample) where
  -- With more fuel than stored frames the loop stops at a pop that finds none.
  pop_all-none :
      (fuel : ℕ) (b : JitterBuffer (PcmFrame f))
      → occupied b.slots < fuel
      → (pop (pop_all f opus fuel b)).1 ≡ none
  unfolding pop_all
  pop_all-none zero b h = absurd (omega arith)
  pop_all-none (suc fuel) b h = elim (Option-cases (pop b).1) [
    | inl e ↦ rw (e, pop_all) (rw (pop-none b e) e)
    | inr (frame, e) ↦
        rw (e, pop_all) (pop_all-none fuel (pop b).0 (omega (arith, occupied-pop b frame e)))
  ]

  pop_all-IsValid :
      (fuel : ℕ) (b : JitterBuffer (PcmFrame f)) → IsValid b → IsValid (pop_all f opus fuel b)
  unfolding pop_all
  pop_all-IsValid zero b v = v
  pop_all-IsValid (suc fuel) b v = elim (Option-cases (pop b).1) [
    | inl e ↦ rw (e, pop_all) (pop-IsValid v)
    | inr (frame, e) ↦ rw (e, pop_all) (pop_all-IsValid fuel (pop b).0 (pop-IsValid v))
  ]

  -- The loop over the jitter buffer of a client that is alone ends because a pop finds no frame,
  -- whatever the buffer holds; and the buffer stays valid.
  pub drain_jitter_ends :
      (ms : MixClientState f opus)
      → ((pop (drain_jitter f opus ms).jitter_buffer).1 ≡ none)
        × (IsValid ms.jitter_buffer → IsValid (drain_jitter f opus ms).jitter_buffer)
  unfolding drain_jitter
  drain_jitter_ends ms = (
    pop_all-none _ ms.jitter_buffer (omega (arith, occupied-le ms.jitter_buffer.slots)),
    pop_all-IsValid _ ms.jitter_buffer,
  )
