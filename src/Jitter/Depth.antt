-- ===== src/Jitter/Depth.antt =====
-- No operation changes the depth of a buffer.
use voicemcu.Base.{ℕ, ◌≡◌, refl, Option, none, some, get_elem?, ◌%◌, arith}
use voicemcu.Jitter.{
  JitterBuffer, new, prime, resync, store, insert, slot_frame, take_frame, pop, advance_expected,
}

module _ {ℓ} {A : Type ℓ} where
  pub new-depth : (depth : ℕ) (b : JitterBuffer A) → new depth ≡ some b → b.depth ≡ depth
  unfolding new
  new-depth depth b e = ground (arith, e)

  pub insert-depth :
      (b : JitterBuffer A) (seq : ℕ) (frame : A) → (insert b seq frame).0.depth ≡ b.depth
  unfolding insert prime resync store
  insert-depth b seq frame = ground arith

  take_frame-depth : (b : JitterBuffer A) (o : Option A) → (take_frame b o).0.depth ≡ b.depth
  unfolding take_frame
  take_frame-depth b none = refl
  take_frame-depth b (some frame) = refl

  pub pop-depth : (b : JitterBuffer A) → (pop b).0.depth ≡ b.depth
  unfolding pop
  pop-depth b =
      ground (
        arith,
        take_frame-depth b (slot_frame (get_elem? b.slots (b.read_seq % b.depth)) b.read_seq),
      )

  pub advance_expected-depth : (b : JitterBuffer A) → (advance_expected b).depth ≡ b.depth
  unfolding advance_expected
  advance_expected-depth b = ground arith
