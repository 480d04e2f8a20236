-- ===== src/Jitter/Insert.antt =====
-- What one insert does, on each of its branches; and what a reset leaves.
use voicemcu.Base.{
  ℕ, ◌+◌, ◌-◌, ltb, not, ◌/◌, ◌≤◌, ◌<◌, ◌≡◌, ◌≢◌, ◌↔◌, sym, ◌∙◌, true, false, some, List, arith,
  All, ◌==◌, if◌then◌else◌, ==-ne, ==-self, [], ◌∷◌,
}
use voicemcu.Base.Words.{u32_mod, u32_max, wrapping_add, wrapping_sub}
use voicemcu.Jitter.{JitterBuffer, new, prime, resync, store, insert, pop, advance_expected, reset}
use voicemcu.Jitter.Arith.{HasDistinctSlots}
use voicemcu.Jitter.Invariant.{
  IsValid, prime-IsValid, resync-IsValid, new-IsValid, insert-IsValid, pop-IsValid,
  advance_expected-IsValid, reset-IsValid,
}
use voicemcu.Jitter.View.{at, InWindow, at-store, at-prime, at-resync}

module _ {ℓ} {A : Type ℓ} where
  -- An insert is refused exactly when the buffer is primed and the packet lies more than half the
  -- range ahead, which means behind; a refused insert changes nothing.
  pub insert_refuses :
      (b : JitterBuffer A) (seq : ℕ) (frame : A)
      → seq < u32_mod
      → ((insert b seq frame).1 ≡ false) ↔ (
          (b.initialized ≡ true)
          × (u32_max / 2 < wrapping_sub seq b.read_seq)
          × (insert b seq frame ≡ (b, false)))
  unfolding insert prime
  insert_refuses b seq frame h = ground arith

  resync-InWindow :
      (b : JitterBuffer A) (seq : ℕ)
      → seq < u32_mod
      → IsValid b
      → InWindow (resync b seq (wrapping_sub seq b.read_seq)) seq
  unfolding resync
  resync-InWindow b seq h v = ground (arith, v)

  -- The buffer just before an accepted frame is stored.
  abbrev opened : JitterBuffer A → ℕ → JitterBuffer A
  opened b seq = resync (prime b seq) seq (wrapping_sub seq (prime b seq).read_seq)

  depth-opened : (b : JitterBuffer A) (seq : ℕ) → (opened b seq).depth ≡ b.depth
  unfolding prime resync
  depth-opened b seq = ground arith

  accepted_lem :
      (b : JitterBuffer A) (seq : ℕ) (frame : A)
      → (insert b seq frame).1 ≡ true
      → (insert b seq frame).0 ≡ store (opened b seq) seq frame
  unfolding insert
  accepted_lem b seq frame h = ground arith

  -- Where the window goes: it starts at the first packet; it stays where it is if the packet is in
  -- it; else it moves on by as much as makes the packet the last of it.
  pub window_start : JitterBuffer A → ℕ → ℕ
  window_start b seq =
      if not b.initialized
      then seq
      else if ltb (wrapping_sub seq b.read_seq) b.depth
      then b.read_seq
      else wrapping_add b.read_seq (wrapping_sub seq b.read_seq + 1 - b.depth)

  read_seq-opened :
      (b : JitterBuffer A) (seq : ℕ)
      → seq < u32_mod
      → IsValid b
      → (opened b seq).read_seq ≡ window_start b seq
  unfolding prime resync window_start
  read_seq-opened b seq h v = ground (arith, v)

  -- A packet is accepted by a well-formed buffer whose depth divides 2 ^ 32, or whose new window does
  -- not reach over the wrap of the sequence numbers. Then the depth stays, the window has moved to
  -- where `window_start` has it, the frame is in it under its own number, and every other number of it
  -- shows what it showed before: an overrun drops nothing that the new window still covers.
  pub insert_accepts :
      (b : JitterBuffer A) (seq : ℕ) (frame : A)
      → IsValid b
      → HasDistinctSlots b.depth (window_start b seq)
      → seq < u32_mod
      → (insert b seq frame).1 ≡ true
      → ((insert b seq frame).0.read_seq ≡ window_start b seq)
        × ((insert b seq frame).0.depth ≡ b.depth)
        × InWindow (insert b seq frame).0 seq
        × (at (insert b seq frame).0 seq ≡ some frame)
        × ((s : ℕ)
            → InWindow (insert b seq frame).0 s
            → s ≢ seq
            → at (insert b seq frame).0 s ≡ at b s)
  unfolding store
  insert_accepts b seq frame v distinct h ok = rw (accepted_lem b seq frame ok) (
    read_seq-opened b seq h v,
    depth-opened b seq,
    inside,
    seen seq inside ∙ rw (==-self seq),
    λ s ws ne.
        seen s ws
        ∙ rw (==-ne seq s (λ e. ne (sym e))) (at-resync (prime b seq) seq _ s ∙ at-prime b seq s),
  )
    where
      primed : IsValid (prime b seq)
      primed = prime-IsValid seq h v

      inside : InWindow (opened b seq) seq
      inside = resync-InWindow (prime b seq) seq h primed

      seen :
          (s : ℕ)
          → InWindow (opened b seq) s
          → at (store (opened b seq) seq frame) s
            ≡ (if seq == s then some frame else at (opened b seq) s)
      seen s ws =
          at-store (opened b seq) seq frame s (resync-IsValid seq _ primed)
            (rw (depth-opened b seq, read_seq-opened b seq h v) distinct) inside ws

  -- A reset buffer is a new one of the same depth.
  pub new-reset : (b : JitterBuffer A) → IsValid b → new b.depth ≡ some (reset b)
  unfolding new reset
  new-reset b v = ground (arith, v.sized)

pub data Operation {ℓ} (A : Type ℓ) : Type ℓ where
  inserts : ℕ → A → Operation A
  pops advances resets : Operation A

module _ {ℓ} {A : Type ℓ} where
  unfoldable pub step : JitterBuffer A → Operation A → JitterBuffer A
  step b (inserts seq frame) = (insert b seq frame).0
  step b pops = (pop b).0
  step b advances = advance_expected b
  step b resets = reset b

  unfoldable pub run : JitterBuffer A → List (Operation A) → JitterBuffer A
  run b [] = b
  run b (o ∷ os) = run (step b o) os

  -- Sequence numbers come from a u32 field.
  abbrev pub InRange : Operation A → Type 0
  InRange (inserts seq frame) = seq < u32_mod
  InRange _ = Unit

  step-IsValid : (b : JitterBuffer A) (o : Operation A) → InRange o → IsValid b → IsValid (step b o)
  unfolding step
  step-IsValid b (inserts seq frame) h v = insert-IsValid seq frame h v
  step-IsValid b pops h v = pop-IsValid v
  step-IsValid b advances h v = advance_expected-IsValid v
  step-IsValid b resets h v = reset-IsValid v

  run_keeps :
      (b : JitterBuffer A) (os : List (Operation A))
      → All InRange os
      → IsValid b
      → IsValid (run b os)
  unfolding run
  run_keeps b [] h v = v
  run_keeps b (o ∷ os) h v = run_keeps (step b o) os h.1 (step-IsValid b o h.0 v)

  -- Every buffer that operations make of a new one of depth at most half the u32 range is valid:
  -- as many slots as its depth, a read position in range, and each frame in the slot of its number.
  pub run-IsValid :
      (depth : ℕ) {b : JitterBuffer A} (os : List (Operation A))
      → depth ≤ u32_mod / 2
      → new depth ≡ some b
      → All InRange os
      → IsValid (run b os)
  run-IsValid depth {b} os h e inside = run_keeps b os inside (new-IsValid depth h e)
