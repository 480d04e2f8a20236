-- ===== src/Jitter/View.antt =====
-- The buffer seen as a partial map from sequence numbers to frames.
use native.Mathlib.Nat.{mod-lt}
use native.Mathlib.Decide.{ℕ_discrete}
use voicemcu.Base.{
  ℕ, ◌%◌, ◌<◌, ◌≡◌, true, Option, none, some, arith, get_elem?, get_elem?-set_self,
  get_elem?-set_ne, ◌==◌, if◌then◌else◌,
}
use voicemcu.Base.Words.{u32_mod, wrapping_sub}
use voicemcu.Jitter.{
  JitterBuffer, prime, resync, store, insert, slot_frame, take_frame, pop, advance_expected,
}
use voicemcu.Jitter.Arith.{HasDistinctSlots, window-injective}
use voicemcu.Jitter.Invariant.{IsValid}

module _ {ℓ} {A : Type ℓ} where
  -- The frame that the buffer holds for sequence number `s`.
  pub at : JitterBuffer A → ℕ → Option A
  at b s = slot_frame (get_elem? b.slots (s % b.depth)) s

  abbrev pub InWindow : JitterBuffer A → ℕ → Type 0
  InWindow b s = (s < u32_mod) × (wrapping_sub s b.read_seq < b.depth)

  -- Where the slots of the window are distinct, a store is seen at its own sequence number, and at no
  -- other one of the window.
  pub at-store :
      (b : JitterBuffer A) (seq : ℕ) (frame : A) (s : ℕ)
      → IsValid b
      → HasDistinctSlots b.depth b.read_seq
      → InWindow b seq
      → InWindow b s
      → at (store b seq frame) s ≡ (if seq == s then some frame else at b s)
  unfolding at store slot_frame
  at-store b seq frame s v distinct ws wt = elim (ℕ_discrete (seq % b.depth) (s % b.depth)) [
    | yes p ↦ ground (
      arith,
      window-injective b.depth b.read_seq seq s distinct v.in_range ws.0 wt.0 ws.1 wt.1 p,
      get_elem?-set_self b.slots (seq % b.depth) (some (seq, frame))
          (rw v.sized (mod-lt seq v.positive)),
    )
    | no ne ↦ ground (arith, get_elem?-set_ne b.slots (some (seq, frame)) ne)
  ]

  -- Inside the window an insert is accepted and is the store.
  pub insert-InWindow :
      (b : JitterBuffer A) (seq : ℕ) (frame : A)
      → IsValid b
      → b.initialized ≡ true
      → InWindow b seq
      → insert b seq frame ≡ (store b seq frame, true)
  unfolding insert prime resync
  insert-InWindow b seq frame v i w = ground arith

  -- Exactly the frame under the read position is popped; an empty pop changes nothing.
  pub pop_lem : (b : JitterBuffer A) → b.initialized ≡ true → pop b ≡ take_frame b (at b b.read_seq)
  unfolding pop at
  pop_lem b i = ground arith

  -- A successful pop removes its frame from the view, and nothing else.
  pub at-take_frame :
      (b : JitterBuffer A) (frame : A) (s : ℕ)
      → IsValid b
      → at b b.read_seq ≡ some frame
      → at (take_frame b (some frame)).0 s ≡ (if s == b.read_seq then none else at b s)
  unfolding at take_frame slot_frame
  at-take_frame b frame s v h =
      let empty : Option (ℕ × A) = none in
      elim (ℕ_discrete (b.read_seq % b.depth) (s % b.depth)) [
        | yes p ↦ ground (
          arith,
          get_elem?-set_self b.slots (b.read_seq % b.depth) empty
              (rw v.sized (mod-lt b.read_seq v.positive)),
        )
        | no ne ↦ ground (arith, get_elem?-set_ne b.slots empty ne)
      ]

  -- Passing over a gap moves the read position only.
  pub at-advance_expected : (b : JitterBuffer A) (s : ℕ) → at (advance_expected b) s ≡ at b s
  unfolding at advance_expected
  at-advance_expected b s = ground arith

  pub at-prime : (b : JitterBuffer A) (seq s : ℕ) → at (prime b seq) s ≡ at b s
  unfolding at prime
  at-prime b seq s = ground arith

  pub at-resync : (b : JitterBuffer A) (seq ahead s : ℕ) → at (resync b seq ahead) s ≡ at b s
  unfolding at resync
  at-resync b seq ahead s = ground arith
