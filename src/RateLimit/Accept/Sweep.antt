-- ===== src/RateLimit/Accept/Sweep.antt =====
-- The sweep is an optimisation: no connection is decided otherwise because of it.
use voicemcu.Base.{
  ℕ, ◌+◌, ◌-◌, ◌*◌, ◌≤◌, ◌≡◌, refl, ap, ap₂, inl, inr, Bool, true, false, Option, none, some, List,
  [], ◌∷◌, arith, ltb, if◌then◌else◌, Bool-cases,
}
use voicemcu.Base.Assoc.{
  ℕ_eq, lookup, insert, lookup-insert, lookup-retain, IsUnique, retain-IsUnique, insert-IsUnique,
}
use voicemcu.RateLimit.{TokenBucket, token, new, consume, try_consume}
use voicemcu.RateLimit.Accept.{
  Limits, AcceptState, Incoming, cleanup_period, is_filling, sweep, or_insert, admit, accept,
}

pub decisions :
    (Limits → AcceptState → Incoming → AcceptState × Bool)
    → Limits
    → AcceptState
    → List Incoming
    → List Bool
decisions turn c s [] = []
decisions turn c s (i ∷ is) = let (s', passed) = turn c s i in passed ∷ decisions turn c s' is

-- The clock does not go back.
abbrev pub Ordered : ℕ → List Incoming → Type 0
Ordered t [] = Unit {0}
Ordered t (i ∷ is) =
    (t ≤ i.now) × (i.now ≤ i.created) × (i.created ≤ i.consumed) × Ordered i.consumed is

module _ (c : Limits) where
  -- A bucket of these limits, last touched by `t`.
  record IsOurs (t : ℕ) (b : TokenBucket) : Type 0 where
    capacity : b.capacity ≡ c.burst * token
    rate : b.refill_rate ≡ c.rate
    past : b.last_refill ≤ t

  AllOurs : ℕ → AcceptState → Type 0
  AllOurs t s = (ip : ℕ) (b : TokenBucket) → lookup ip s.conn_buckets ≡ some b → IsOurs t b

  -- Full by `t`, had anyone looked.
  IsFull : ℕ → TokenBucket → Type 0
  IsFull t b = b.capacity ≤ b.tokens + (t - b.last_refill) * b.refill_rate

  -- What the swept state knows of an address, against what the unswept state knows.
  data Agree (t : ℕ) : Option TokenBucket → Option TokenBucket → Type 0 where
    same : (o : Option TokenBucket) → Agree t o o
    forgot : (b : TokenBucket) → IsOurs t b → IsFull t b → Agree t none (some b)

  wait_longer : (t u last r : ℕ) → t ≤ u → (t - last) * r ≤ (u - last) * r
  wait_longer t u last r h = grind arith

  -- A forgotten bucket and a new one answer alike, and are alike afterwards.
  forgotten_alike :
      (b : TokenBucket) (t created consumed : ℕ)
      → IsOurs t b
      → IsFull t b
      → t ≤ created
      → created ≤ consumed
      → try_consume (new c.burst c.rate created) consumed ≡ try_consume b consumed
  unfolding try_consume new IsFull
  forgotten_alike b t created consumed ours full h k =
      ap consume (ground (arith, wait_longer t consumed b.last_refill b.refill_rate))

  pick_alike :
      {t : ℕ} {o o' : Option TokenBucket} (created consumed : ℕ)
      → Agree t o o'
      → t ≤ created
      → created ≤ consumed
      → try_consume (or_insert c o created) consumed ≡ try_consume (or_insert c o' created) consumed
  unfolding or_insert
  pick_alike created consumed (same o) h k = refl
  pick_alike {t} created consumed (forgot b ours full) h k =
      forgotten_alike b t created consumed ours full h k

  touched-IsOurs :
      (o : Option TokenBucket) (t created consumed : ℕ)
      → ((b : TokenBucket) → o ≡ some b → IsOurs t b)
      → IsOurs consumed (try_consume (or_insert c o created) consumed).0
  unfolding or_insert try_consume new
  touched-IsOurs none t created consumed h = ground arith
  touched-IsOurs (some b) t created consumed h = ground (arith, h b refl)

  record Simulates (t : ℕ) (s u : AcceptState) : Type 0 where
    unique : IsUnique s.conn_buckets
    ours : AllOurs t u
    agree : (ip : ℕ) → Agree t (lookup ip s.conn_buckets) (lookup ip u.conn_buckets)

  Agree-mono : {t u : ℕ} {o o' : Option TokenBucket} → t ≤ u → Agree t o o' → Agree u o o'
  unfolding IsFull
  Agree-mono h (same o) = same o
  Agree-mono {t} {u} h (forgot b ours full) =
      forgot b (record { capacity = ours.capacity; rate = ours.rate; past = omega arith })
        (omega (arith, wait_longer t u b.last_refill b.refill_rate h))

  AllOurs-mono : {t u : ℕ} (s : AcceptState) → t ≤ u → AllOurs t s → AllOurs u s
  unfolding AllOurs
  AllOurs-mono s h ours ip b e =
      let o = ours ip b e in record { capacity = o.capacity; rate = o.rate; past = omega arith }

  swept-Agree :
      (now : ℕ) {o o' : Option TokenBucket}
      → ((b : TokenBucket) → o' ≡ some b → IsOurs now b)
      → Agree now o o'
      → Agree now (elim o [ none ↦ none | some b ↦ if is_filling now b then some b else none ]) o'
  unfolding is_filling IsFull
  swept-Agree now ours (same none) = same none
  swept-Agree now ours (same (some b)) = elim (Bool-cases (is_filling now b)) [
    | inl filling ↦ rw (filling, is_filling) (same (some b))
    | inr full ↦ rw (full, is_filling) (forgot b (ours b refl) (ground arith))
  ]
  swept-Agree now ours (forgot b o full) = forgot b o full

  sweep-Simulates :
      {t : ℕ} (now : ℕ) (s u : AcceptState)
      → t ≤ now
      → Simulates t s u
      → Simulates now (sweep s now) u
  unfolding sweep AllOurs
  sweep-Simulates {t} now s u h sim =
      elim (Bool-cases (ltb cleanup_period (now - s.last_cleanup))) [
        | inl due ↦
            rw (due, sweep)
              (record {
                unique = retain-IsUnique _ s.conn_buckets sim.unique;
                ours = later;
                agree = λ ip.
                    rw (lookup-retain (λ _ b. is_filling now b) ip s.conn_buckets sim.unique)
                      (swept-Agree now (later ip) (Agree-mono h (sim.agree ip)));
              })
        | inr early ↦
            rw (early, sweep)
              (record {
                unique = sim.unique;
                ours = later;
                agree = λ ip. Agree-mono h (sim.agree ip);
              })
      ]
    where
      later : AllOurs now u
      later = AllOurs-mono u h sim.ours

  -- Both states see the same bucket written for one address.
  written-Simulates :
      (t : ℕ) (s u : AcceptState) (ip : ℕ) (b b' : TokenBucket)
      → b ≡ b'
      → IsOurs t b'
      → Simulates t s u
      → Simulates t
          (record s { conn_buckets = insert ip b s.conn_buckets })
          (record u { conn_buckets = insert ip b' u.conn_buckets })
  unfolding AllOurs
  written-Simulates t s u ip b b' e ours sim = record {
    unique = insert-IsUnique ip b s.conn_buckets sim.unique;
    ours = λ j x. rw (lookup-insert ip j b' u.conn_buckets) (ground (arith, ours, sim.ours j x));
    agree = λ j.
        rw (lookup-insert ip j b s.conn_buckets, lookup-insert ip j b' u.conn_buckets, e)
          (written (ℕ_eq.beq ip j) _ _ (sim.agree j));
  }
    where
      written :
          (test : Bool) (o o' : Option TokenBucket)
          → Agree t o o'
          → Agree t (if test then some b' else o) (if test then some b' else o')
      written true o o' a = same (some b')
      written false o o' a = a

  admit-Simulates :
      {t : ℕ} (s u : AcceptState) (i : Incoming)
      → t ≤ i.created
      → i.created ≤ i.consumed
      → Simulates t s u
      → ((admit c s i).1 ≡ (admit c u i).1) × Simulates i.consumed (admit c s i).0 (admit c u i).0
  unfolding admit AllOurs
  admit-Simulates {t} s u i h k sim = (
    ap (λ r. r.1) alike,
    written-Simulates i.consumed s u i.ip _ _ (ap (λ r. r.0) alike)
        (touched-IsOurs _ t i.created i.consumed (sim.ours i.ip))
        (record {
          unique = sim.unique;
          ours = AllOurs-mono u longer sim.ours;
          agree = λ ip. Agree-mono longer (sim.agree ip);
        }),
  )
    where
      longer : t ≤ i.consumed
      longer = omega arith

      alike :
          try_consume (or_insert c (lookup i.ip s.conn_buckets) i.created) i.consumed
          ≡ try_consume (or_insert c (lookup i.ip u.conn_buckets) i.created) i.consumed
      alike = pick_alike i.created i.consumed (sim.agree i.ip) h k

  decisions-alike :
      (t : ℕ) (s u : AcceptState) (is : List Incoming)
      → Simulates t s u
      → Ordered t is
      → decisions accept c s is ≡ decisions admit c u is
  unfolding decisions accept
  decisions-alike t s u [] sim h = refl
  decisions-alike t s u (i ∷ is) sim (a, b, d, rest) =
      let (decided, sim') =
        admit-Simulates (sweep s i.now) u i b d (sweep-Simulates i.now s u a sim) in
      ap₂ ◌∷◌ decided (decisions-alike i.consumed _ _ is sim' rest)

-- From the start of the loop, whatever connections come, each is accepted or refused exactly as by
-- a loop that never forgets a bucket, as long as the clock does not go back.
pub sweep_invisible :
    (c : Limits) (t : ℕ) (is : List Incoming)
    → Ordered t is
    → let start : AcceptState = record { conn_buckets = []; last_cleanup = t } in
      decisions accept c start is ≡ decisions admit c start is
unfolding AllOurs lookup IsUnique
sweep_invisible c t is h =
    decisions-alike c t _ _ is
      (record { unique = tt; ours = λ ip b e. cc; agree = λ ip. same none }) h
