-- ===== src/Jitter/Arith.antt =====
-- Sequence numbers modulo 2 ^ 32, and the slots that they fall in.
use native.Mathlib.Nat.{mod-mod_of_dvd, dvd_of_mod-eq-zero, div-add-mod}
use voicemcu.Base.{ℕ, ◌+◌, ◌*◌, ◌/◌, ◌%◌, ◌≤◌, ◌<◌, ◌≡◌, ◌∙◌, sym, ap, arith, ◌⊎◌, inl, inr}
use voicemcu.Base.Words.{u32_mod, wrapping_add, wrapping_sub}

-- Sums with one remainder that are less than a divisor apart have ordered quotients.
quotient_le : (d p q a b m : ℕ) → d * p + m ≡ a → d * q + m ≡ b → b < a + d → q ≤ p
quotient_le d p q a b m ha hb h = grind arith

add-mod-injective : (d r a b : ℕ) → a < d → b < d → (r + a) % d ≡ (r + b) % d → a ≡ b
add-mod-injective d r a b ha hb e = omega (arith, ap (λ (q : ℕ). d * q) same, va, vb)
  where
    va : d * ((r + a) / d) + (r + b) % d ≡ r + a
    va = rw (← e) (div-add-mod (r + a) d)

    vb : d * ((r + b) / d) + (r + b) % d ≡ r + b
    vb = div-add-mod (r + b) d

    same : (r + a) / d ≡ (r + b) / d
    same = omega (
      arith,
      quotient_le d ((r + a) / d) ((r + b) / d) (r + a) (r + b) _ va vb (omega arith),
      quotient_le d ((r + b) / d) ((r + a) / d) (r + b) (r + a) _ vb va (omega arith),
    )

pub wrapping_sub-lt : (s r : ℕ) → wrapping_sub s r < u32_mod
wrapping_sub-lt s r = omega arith

pub wrapping_add-sub : (s r : ℕ) → s < u32_mod → r < u32_mod → wrapping_add r (wrapping_sub s r) ≡ s
wrapping_add-sub s r hs hr = omega arith

pub wrapping_sub-add : (r k : ℕ) → r < u32_mod → k < u32_mod → wrapping_sub (wrapping_add r k) r ≡ k
wrapping_sub-add r k hr hk = omega arith

module _ (d : ℕ) (divides : u32_mod % d ≡ 0) where
  -- Where the depth divides 2 ^ 32 the slot of a sum does not see the wrap.
  slot-wrapping_add : (r k : ℕ) → wrapping_add r k % d ≡ (r + k) % d
  slot-wrapping_add r k = mod-mod_of_dvd d (r + k) (dvd_of_mod-eq-zero d divides)

  -- Then two sequence numbers of one window that share a slot are one.
  window-injective_divides :
      (r s t : ℕ)
      → r < u32_mod
      → s < u32_mod
      → t < u32_mod
      → wrapping_sub s r < d
      → wrapping_sub t r < d
      → s % d ≡ t % d
      → s ≡ t
  window-injective_divides r s t hr hs ht ws wt e =
      sym (wrapping_add-sub s r hs hr) ∙ ap (wrapping_add r) offsets ∙ wrapping_add-sub t r ht hr
    where
      slots : (r + wrapping_sub s r) % d ≡ (r + wrapping_sub t r) % d
      slots =
          sym (slot-wrapping_add r (wrapping_sub s r))
          ∙ ap (λ (x : ℕ). x % d) (wrapping_add-sub s r hs hr)
          ∙ e
          ∙ sym (ap (λ (x : ℕ). x % d) (wrapping_add-sub t r ht hr))
          ∙ slot-wrapping_add r (wrapping_sub t r)

      offsets : wrapping_sub s r ≡ wrapping_sub t r
      offsets = add-mod-injective d r (wrapping_sub s r) (wrapping_sub t r) ws wt slots

-- Whether the slots of the `d` sequence numbers from `r` on are distinct: `d` divides 2 ^ 32, or the
-- wrap is not among them.
abbrev pub HasDistinctSlots : ℕ → ℕ → Type 0
HasDistinctSlots d r = (u32_mod % d ≡ 0) ⊎ (r + d ≤ u32_mod)

pub window-injective :
    (d r s t : ℕ)
    → HasDistinctSlots d r
    → r < u32_mod
    → s < u32_mod
    → t < u32_mod
    → wrapping_sub s r < d
    → wrapping_sub t r < d
    → s % d ≡ t % d
    → s ≡ t
window-injective d r s t distinct hr hs ht ws wt e = elim distinct [
  | inl divides ↦ window-injective_divides d divides r s t hr hs ht ws wt e
  | inr unwrapped ↦
      let a : s ≡ r + wrapping_sub s r = omega arith in
      let b : t ≡ r + wrapping_sub t r = omega arith in
      let same =
        add-mod-injective d r (wrapping_sub s r) (wrapping_sub t r) ws wt
          (ap (λ (x : ℕ). x % d) (sym a) ∙ e ∙ ap (λ (x : ℕ). x % d) b) in
      omega (arith, a, b, same)
]
