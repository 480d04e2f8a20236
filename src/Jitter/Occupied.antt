-- ===== src/Jitter/Occupied.antt =====
-- How many frames a buffer holds, and that a pop takes one of them.
use voicemcu.Base.{
  ℕ, zero, suc, ◌+◌, ◌%◌, ◌≤◌, ◌≡◌, refl, inl, inr, Option, none, some, List, [], ◌∷◌, length, set,
  get_elem?, arith, Option-cases,
}
use voicemcu.Jitter.{JitterBuffer, pop, slot_frame, take_frame}

-- The slots that hold a frame.
pub occupied {ℓ} : {A : Type ℓ} → List (Option (ℕ × A)) → ℕ
occupied [] = 0
occupied (none ∷ slots) = occupied slots
occupied (some e ∷ slots) = occupied slots + 1

module _ {ℓ} {A : Type ℓ} where
  pub occupied-le : (slots : List (Option (ℕ × A))) → occupied slots ≤ length slots
  unfolding occupied
  occupied-le [] = omega arith
  occupied-le (none ∷ slots) = omega (arith, occupied-le slots)
  occupied-le (some e ∷ slots) = omega (arith, occupied-le slots)

  occupied-set :
      (slots : List (Option (ℕ × A))) (i : ℕ) (e : ℕ × A)
      → get_elem? slots i ≡ some (some e)
      → occupied (set slots i none) + 1 ≡ occupied slots
  unfolding occupied
  occupied-set [] i e h = absurd cc
  occupied-set (none ∷ slots) zero e h = absurd cc
  occupied-set (some x ∷ slots) zero e h = refl
  occupied-set (none ∷ slots) (suc i) e h = occupied-set slots i e h
  occupied-set (some x ∷ slots) (suc i) e h = omega (arith, occupied-set slots i e h)

  slot_frame-some :
      (o : Option (Option (ℕ × A))) (s : ℕ) (frame : A)
      → slot_frame o s ≡ some frame
      → (e : ℕ × A) × (o ≡ some (some e))
  unfolding slot_frame
  slot_frame-some none s frame h = absurd cc
  slot_frame-some (some none) s frame h = absurd cc
  slot_frame-some (some (some e)) s frame h = (e, refl)

  -- A pop that gives a frame empties a slot; one that gives none changes nothing.
  pub occupied-pop :
      (b : JitterBuffer A) (frame : A)
      → (pop b).1 ≡ some frame
      → occupied (pop b).0.slots + 1 ≡ occupied b.slots
  unfolding pop take_frame
  occupied-pop b frame h =
      let i = b.read_seq % b.depth in
      elim (Option-cases (slot_frame (get_elem? b.slots i) b.read_seq)) [
        | inl e ↦ absurd (ground (arith, h, e))
        | inr (x, e) ↦
            let (held, k) = slot_frame-some (get_elem? b.slots i) b.read_seq x e in
            ground (arith, occupied-set b.slots i held k, h, e)
      ]

  pub pop-none : (b : JitterBuffer A) → (pop b).1 ≡ none → (pop b).0 ≡ b
  unfolding pop take_frame
  pop-none b h = ground (arith, h)
