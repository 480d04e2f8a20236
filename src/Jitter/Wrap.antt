-- ===== src/Jitter/Wrap.antt =====
-- The wrap of the sequence numbers, at depths that do not divide 2 ^ 32.
use native.Mathlib.Nat.{mod-lt, div-add-mod, mul-mod_right, zero-mod}
use voicemcu.Base.{
  ℕ, ◌-◌, ◌*◌, ◌/◌, ◌%◌, ◌≤◌, ◌<◌, ◌≡◌, ◌≢◌, refl, ◌∙◌, true, false, Option, none, some, arith,
  length, get_elem?, set, replicate, length-replicate, length-set, get_elem?-set_self,
}
use voicemcu.Base.Words.{u32_mod}
use voicemcu.Jitter.{JitterBuffer, new, prime, resync, store, insert, take_frame, pop, slot_frame}
use voicemcu.Jitter.View.{InWindow}

module _ (d : ℕ) where
  -- The last multiple of the depth below 2 ^ 32.
  abbrev pub last_multiple : ℕ
  last_multiple = u32_mod - u32_mod % d

  last_multiple-mod : last_multiple % d ≡ 0
  last_multiple-mod = rw whole (mul-mod_right d (u32_mod / d))
    where
      whole : last_multiple ≡ d * (u32_mod / d)
      whole = omega (arith, div-add-mod u32_mod d)

module _ {ℓ} {A : Type ℓ} (d : ℕ) (f g : A) (small : d ≤ u32_mod / 2) (nonzero : u32_mod % d ≢ 0)
    (positive : 0 < d) where
  fresh : JitterBuffer A
  fresh = record { slots = replicate d none; depth = d; read_seq = 0; initialized = false }

  -- After the first frame, which comes before the wrap.
  before_wrap : JitterBuffer A
  before_wrap = record {
    slots = set (replicate d none) 0 (some (last_multiple d, f));
    depth = d;
    read_seq = last_multiple d;
    initialized = true;
  }

  -- After the second, which comes behind it: the first is overwritten.
  behind_wrap : JitterBuffer A
  unfolding before_wrap
  behind_wrap = record before_wrap { slots = set before_wrap.slots 0 (some (0, g)) }

  insert_before : insert fresh (last_multiple d) f ≡ (before_wrap, true)
  unfolding insert fresh before_wrap prime resync store
  insert_before = ground (arith, last_multiple-mod d, mod-lt u32_mod positive)

  insert_behind : insert before_wrap 0 g ≡ (behind_wrap, true)
  unfolding insert before_wrap behind_wrap prime resync store
  insert_behind = ground (arith, zero-mod d, mod-lt u32_mod positive)

  first_slot : get_elem? behind_wrap.slots 0 ≡ some (some (0, g))
  unfolding behind_wrap before_wrap
  first_slot = get_elem?-set_self before_wrap.slots 0 (some (0, g)) (rw filled positive)
    where
      empty : Option (ℕ × A)
      empty = none

      filled : length before_wrap.slots ≡ d
      filled = length-set (replicate d empty) 0 _ ∙ length-replicate d empty

  pop_lost : pop behind_wrap ≡ (behind_wrap, none)
  unfolding behind_wrap before_wrap pop slot_frame take_frame
  pop_lost = ground (arith, last_multiple-mod d, mod-lt u32_mod positive, first_slot)

-- With a depth that does not divide 2 ^ 32 (the configuration admits 3, 5, 6, 7, 9, ...) a new
-- buffer loses a frame at the wrap: the frame at the last multiple of the depth and the one at 0
-- are both accepted, 0 is inside the window that the first opened, and yet nothing is left to pop
-- for the first.
pub wrap_loses_frame {ℓ} :
    {A : Type ℓ} (d : ℕ) (f g : A) {b : JitterBuffer A}
    → d ≤ u32_mod / 2
    → u32_mod % d ≢ 0
    → new d ≡ some b
    → let (b1, first_accepted) = insert b (last_multiple d) f in
      let (b2, second_accepted) = insert b1 0 g in
      (first_accepted ≡ true) × InWindow b1 0 × (second_accepted ≡ true) × (pop b2 ≡ (b2, none))
unfolding new before_wrap fresh
wrap_loses_frame d f g {b} small nonzero e =
    rw
      (
        ← is_fresh,
        insert_before d f g small nonzero positive,
        insert_behind d f g small nonzero positive,
      )
      (
        refl,
        (omega arith, ground (arith, mod-lt u32_mod positive)),
        refl,
        pop_lost d f g small nonzero positive,
      )
  where
    positive : 0 < d
    positive = ground arith

    is_fresh : fresh d f g small nonzero positive ≡ b
    is_fresh = ground arith
