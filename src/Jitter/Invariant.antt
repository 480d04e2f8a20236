-- ===== src/Jitter/Invariant.antt =====
-- What every reachable jitter buffer satisfies.
use native.Mathlib.Nat.{mod-lt}
use native.Mathlib.Decide.{ℕ_discrete}
use mathlib.Core.Option.{some-injective}
use voicemcu.Base.{
  lt→ltb, false, ℕ, zero, suc, ◌/◌, ◌%◌, ◌≤◌, ◌<◌, ◌≡◌, sym, ◌∙◌, Option, none, some, List, arith,
  get_elem?, set, length, replicate, length-set, length-replicate, get_elem?-set_self,
  get_elem?-set_ne,
}
use voicemcu.Base.Words.{u32_mod, wrapping_sub}
use voicemcu.Jitter.{
  JitterBuffer, new, prime, resync, store, insert, slot_frame, take_frame, pop, advance_expected,
  reset,
}

-- Each stored frame lies in the slot of its own sequence number.
abbrev pub Placed {ℓ} : {A : Type ℓ} → ℕ → List (Option (ℕ × A)) → Type ℓ
Placed {A} d slots =
    (i s : ℕ) (f : A) → get_elem? slots i ≡ some (some (s, f)) → (s % d ≡ i) × (s < u32_mod)

-- The depth is bounded by the configuration (at most 32); half the u32 range is enough here.
pub record IsValid {ℓ} {A : Type ℓ} (b : JitterBuffer A) : Type ℓ where
  pub sized : length b.slots ≡ b.depth
  pub positive : 0 < b.depth
  pub small : b.depth ≤ u32_mod / 2
  pub in_range : b.read_seq < u32_mod
  pub placed : Placed b.depth b.slots

module _ {ℓ} {A : Type ℓ} where
  Placed-set :
      (d : ℕ) (slots : List (Option (ℕ × A))) (i : ℕ) (v : Option (ℕ × A))
      → i < length slots
      → Placed d slots
      → ((s : ℕ) (f : A) → v ≡ some (s, f) → (s % d ≡ i) × (s < u32_mod))
      → Placed d (set slots i v)
  Placed-set d slots i v h pl hv j s f e = elim (ℕ_discrete i j) [
    | yes p ↦
        rw (← p) (hv s f (some-injective v (some (s, f)) (cc (get_elem?-set_self slots i v h))))
    | no ne ↦ pl j s f (sym (get_elem?-set_ne slots v ne) ∙ e)
  ]

  no_frame-replicate : (n i : ℕ) (e : ℕ × A) → get_elem? (replicate n none) i ≡ some (some e) → ⊥
  no_frame-replicate zero i e h = cc
  no_frame-replicate (suc n) zero e h = cc
  no_frame-replicate (suc n) (suc i) e h = no_frame-replicate n i e h

  pub Placed-replicate : (d n : ℕ) → Placed {A = A} d (replicate n none)
  Placed-replicate d n i s f e = absurd (no_frame-replicate n i (s, f) e)

  pub new-IsValid :
      (depth : ℕ) {b : JitterBuffer A} → depth ≤ u32_mod / 2 → new depth ≡ some b → IsValid b
  unfolding new
  new-IsValid depth {b} h e =
      let empty : Option (ℕ × A) = none in
      ground (arith, length-replicate depth empty, Placed-replicate depth depth)

  pub new_total : (depth : ℕ) → 0 < depth → (b : JitterBuffer A) × (new depth ≡ some b)
  unfolding new
  new_total depth h = (
    record { slots = replicate depth none; depth = depth; read_seq = 0; initialized = false },
    rw (lt→ltb 0 depth h),
  )

  pub prime-IsValid :
      {b : JitterBuffer A} (seq : ℕ) → seq < u32_mod → IsValid b → IsValid (prime b seq)
  unfolding prime
  prime-IsValid seq h v = ground (arith, v)

  pub resync-IsValid :
      {b : JitterBuffer A} (seq ahead : ℕ) → IsValid b → IsValid (resync b seq ahead)
  unfolding resync
  resync-IsValid seq ahead v = ground (arith, v)

  pub store-IsValid :
      {b : JitterBuffer A} (seq : ℕ) (frame : A)
      → seq < u32_mod
      → IsValid b
      → IsValid (store b seq frame)
  unfolding store
  store-IsValid {b} seq frame h v = record {
    sized = length-set b.slots _ _ ∙ v.sized;
    positive = v.positive;
    small = v.small;
    in_range = v.in_range;
    placed =
        Placed-set b.depth b.slots (seq % b.depth) _ (rw v.sized (mod-lt seq v.positive)) v.placed
          (λ s f e. ground arith);
  }

  pub insert-IsValid :
      {b : JitterBuffer A} (seq : ℕ) (frame : A)
      → seq < u32_mod
      → IsValid b
      → IsValid (insert b seq frame).0
  unfolding insert
  insert-IsValid {b} seq frame h v = ground (
    arith,
    prime-IsValid seq h v,
    store-IsValid seq frame h
        (resync-IsValid seq (wrapping_sub seq (prime b seq).read_seq) (prime-IsValid seq h v)),
  )

  pub take_frame-IsValid :
      {b : JitterBuffer A} → IsValid b → (o : Option A) → IsValid (take_frame b o).0
  unfolding take_frame
  take_frame-IsValid v none = v
  take_frame-IsValid {b} v (some f) = record {
    sized = length-set b.slots _ _ ∙ v.sized;
    positive = v.positive;
    small = v.small;
    in_range = omega arith;
    placed =
        Placed-set b.depth b.slots (b.read_seq % b.depth) none
          (rw v.sized (mod-lt b.read_seq v.positive)) v.placed (λ s g e. cc);
  }

  pub pop-IsValid : {b : JitterBuffer A} → IsValid b → IsValid (pop b).0
  unfolding pop
  pop-IsValid {b} v = ground (
    arith,
    take_frame-IsValid v (slot_frame (get_elem? b.slots (b.read_seq % b.depth)) b.read_seq),
  )

  pub advance_expected-IsValid : {b : JitterBuffer A} → IsValid b → IsValid (advance_expected b)
  unfolding advance_expected
  advance_expected-IsValid {b} v = ground (arith, v)

  pub reset-IsValid : {b : JitterBuffer A} → IsValid b → IsValid (reset b)
  unfolding reset
  reset-IsValid {b} v = record {
    sized = length-replicate (length b.slots) none ∙ v.sized;
    positive = v.positive;
    small = v.small;
    in_range = omega arith;
    placed = Placed-replicate b.depth (length b.slots);
  }
