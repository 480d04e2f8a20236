-- ===== src/Jitter/Playout.antt =====
-- Whole runs of the buffer: packets come in any order, and ticks play them out in sequence.
use voicemcu.Base.{
  ℕ, zero, suc, ◌/◌, ◌≤◌, ◌<◌, ◌≡◌, ◌≢◌, refl, sym, ap, ap₂, ◌∙◌, true, Option, none, some, List,
  [], ◌∷◌, arith, All, ◌==◌, if◌then◌else◌, ==-ne,
}
use voicemcu.Base.Words.{u32_mod, wrapping_add}
use voicemcu.Jitter.{JitterBuffer, store, insert, take_frame, pop, advance_expected}
use voicemcu.Jitter.Arith.{HasDistinctSlots}
use voicemcu.Jitter.Invariant.{IsValid, store-IsValid, take_frame-IsValid, advance_expected-IsValid}
use voicemcu.Jitter.View.{
  at, InWindow, at-store, insert-InWindow, pop_lem, at-take_frame, at-advance_expected,
}

module _ {ℓ} {A : Type ℓ} where
  -- The packets that arrive, in the order of their arrival.
  unfoldable pub insert_all : JitterBuffer A → List (ℕ × A) → JitterBuffer A
  insert_all b [] = b
  insert_all b ((seq, frame) ∷ packets) = insert_all (insert b seq frame).0 packets

  unfoldable pub pass_over : JitterBuffer A × Option A → JitterBuffer A × Option A
  pass_over (b, some frame) = (b, some frame)
  pass_over (b, none) = (advance_expected b, none)

  -- One tick of a player: a frame, or a gap (concealed by the decoder) that is then passed over.
  unfoldable pub tick : JitterBuffer A → JitterBuffer A × Option A
  tick b = pass_over (pop b)

  unfoldable pub playout : ℕ → JitterBuffer A → List (Option A)
  playout zero b = []
  playout (suc n) b = let (b', out) = tick b in out ∷ playout n b'

  -- The specification: the last packet of each sequence number, or what was there before.
  pub latest : List (ℕ × A) → ℕ → Option A → Option A
  latest [] s before = before
  latest ((seq, frame) ∷ packets) s before =
      latest packets s (if seq == s then some frame else before)

  -- The values at `n` successive sequence numbers.
  pub consecutive : (ℕ → Option A) → ℕ → ℕ → List (Option A)
  consecutive view zero seq = []
  consecutive view (suc n) seq = view seq ∷ consecutive view n (wrapping_add seq 1)

  abbrev pub AllInWindow : JitterBuffer A → List (ℕ × A) → Type 0
  AllInWindow b = All λ p. InWindow b p.0

  -- A valid buffer whose read position was set.
  pub record IsPrimed (b : JitterBuffer A) : Type ℓ where
    pub valid : IsValid b
    pub primed : b.initialized ≡ true

  store-IsPrimed :
      (b : JitterBuffer A) (seq : ℕ) (frame : A)
      → seq < u32_mod
      → IsPrimed b
      → IsPrimed (store b seq frame)
  unfolding store
  store-IsPrimed b seq frame h p = record {
    valid = unfold store in store-IsValid seq frame h p.valid;
    primed = p.primed;
  }

  at-insert_all :
      (b : JitterBuffer A) (packets : List (ℕ × A)) (s : ℕ)
      → IsPrimed b
      → HasDistinctSlots b.depth b.read_seq
      → AllInWindow b packets
      → InWindow b s
      → at (insert_all b packets) s ≡ latest packets s (at b s)
  unfolding insert_all latest store
  at-insert_all b [] s p distinct ws w = refl
  at-insert_all b ((seq, frame) ∷ packets) s p distinct ws w =
      rw (insert-InWindow b seq frame p.valid p.primed ws.0) (
        rw (← at-store b seq frame s p.valid distinct ws.0 w) (
          at-insert_all (store b seq frame) packets s (store-IsPrimed b seq frame ws.0.0 p) distinct
            ws.1 w))

  -- Accepted packets leave the window where it was.
  pub record HasWindow (read_seq depth : ℕ) (b : JitterBuffer A) : Type 0 where
    pub read : b.read_seq ≡ read_seq
    pub width : b.depth ≡ depth

  pub insert_all-IsPrimed :
      (b : JitterBuffer A) (packets : List (ℕ × A))
      → IsPrimed b
      → AllInWindow b packets
      → IsPrimed (insert_all b packets) × HasWindow b.read_seq b.depth (insert_all b packets)
  unfolding insert_all store
  insert_all-IsPrimed b [] p ws = (p, record { read = refl; width = refl })
  insert_all-IsPrimed b ((seq, frame) ∷ packets) p ws =
      rw (insert-InWindow b seq frame p.valid p.primed ws.0)
        (insert_all-IsPrimed (store b seq frame) packets (store-IsPrimed b seq frame ws.0.0 p) ws.1)

  -- One tick plays the frame at the read position and moves on by one.
  abbrev pub Ticked : JitterBuffer A → JitterBuffer A × Option A → Type ℓ
  Ticked b (c, out) =
      IsPrimed c
      × (c.read_seq ≡ wrapping_add b.read_seq 1)
      × (c.depth ≡ b.depth)
      × (out ≡ at b b.read_seq)
      × ((s : ℕ) → s ≢ b.read_seq → at c s ≡ at b s)

  pass_over-Ticked :
      (b : JitterBuffer A) (o : Option A)
      → IsPrimed b
      → at b b.read_seq ≡ o
      → Ticked b (pass_over (take_frame b o))
  unfolding pass_over take_frame advance_expected
  pass_over-Ticked b (some frame) p e = (
    record {
      valid = unfold take_frame in take_frame-IsValid p.valid (some frame);
      primed = p.primed;
    },
    refl,
    refl,
    sym e,
    λ s ne. rw (at-take_frame b frame s p.valid e, ==-ne s b.read_seq ne),
  )
  pass_over-Ticked b none p e = (
    record { valid = advance_expected-IsValid p.valid; primed = ground arith },
    ground arith,
    ground arith,
    sym e,
    λ s ne. at-advance_expected b s,
  )

  pub tick-Ticked : (b : JitterBuffer A) → IsPrimed b → Ticked b (tick b)
  unfolding tick
  tick-Ticked b p = rw (pop_lem b p.primed, tick) (pass_over-Ticked b (at b b.read_seq) p refl)

  consecutive-congr :
      (f g : ℕ → Option A) (n seq : ℕ)
      → ((k : ℕ) → k < n → f (wrapping_add seq k) ≡ g (wrapping_add seq k))
      → seq < u32_mod
      → consecutive f n seq ≡ consecutive g n seq
  unfolding consecutive
  consecutive-congr f g zero seq h r = refl
  consecutive-congr f g (suc n) seq h r = ap₂ ◌∷◌ (rw first at (h 0 (omega arith))) (
      consecutive-congr f g n (wrapping_add seq 1) (λ k lt. rw (shift k) (h (suc k) (omega arith)))
        (omega arith))
    where
      first : wrapping_add seq 0 ≡ seq
      first = omega arith

      shift : (k : ℕ) → wrapping_add (wrapping_add seq 1) k ≡ wrapping_add seq (suc k)
      shift k = omega arith

  -- Ticks play the view in sequence.
  playout-consecutive :
      (n : ℕ) (b : JitterBuffer A)
      → IsPrimed b
      → n ≤ b.depth
      → playout n b ≡ consecutive (at b) n b.read_seq
  unfolding playout consecutive
  playout-consecutive zero b p h = refl
  playout-consecutive (suc n) b p h =
      let (primed, read, depth, played, kept) = tick-Ticked b p in
      ap₂ ◌∷◌ played (
        playout-consecutive n (tick b).0 primed (omega arith)
        ∙ ap (consecutive (at (tick b).0) n) read
        ∙ consecutive-congr (at (tick b).0) (at b) n (wrapping_add b.read_seq 1)
            (λ k lt. kept _ (ahead k lt)) (omega arith))
    where
      ahead : (k : ℕ) → k < n → wrapping_add (wrapping_add b.read_seq 1) k ≢ b.read_seq
      ahead k lt =
          let fits : b.depth ≤ u32_mod / 2 = p.valid.small in
          let r : b.read_seq < u32_mod = p.valid.in_range in omega arith

  -- The depth of a primed buffer divides 2 ^ 32, or its window does not reach over the wrap of the
  -- sequence numbers: then packets that fall in the window, in any order and with duplicates, are
  -- played in the order of their sequence numbers: tick i gives the packet that arrived last for
  -- the i-th sequence number of the window, or, where none arrived, what the buffer held for it.
  pub playout-insert_all :
      (b : JitterBuffer A) (packets : List (ℕ × A)) (n : ℕ)
      → IsPrimed b
      → HasDistinctSlots b.depth b.read_seq
      → AllInWindow b packets
      → n ≤ b.depth
      → playout n (insert_all b packets) ≡ consecutive (λ s. latest packets s (at b s)) n b.read_seq
  playout-insert_all b packets n p distinct ws h =
      let (primed, window) = insert_all-IsPrimed b packets p ws in
      playout-consecutive n (insert_all b packets) primed (omega arith)
      ∙ ap (consecutive (at (insert_all b packets)) n) window.read
      ∙ consecutive-congr (at (insert_all b packets)) _ n b.read_seq
          (λ k lt. at-insert_all b packets (wrapping_add b.read_seq k) p distinct ws (inside k lt))
          p.valid.in_range
    where
      inside : (k : ℕ) → k < n → InWindow b (wrapping_add b.read_seq k)
      inside k lt =
          let fits : b.depth ≤ u32_mod / 2 = p.valid.small in
          let r : b.read_seq < u32_mod = p.valid.in_range in omega arith
