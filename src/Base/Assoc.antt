-- ===== src/Base/Assoc.antt =====
-- The maps of the program (`DashMap`, `HashMap`): association lists in which no key stands twice.
-- The order of a real map is not specified; here it is the order of the list.
use Prim.Native.Nat.{ℕ, suc, ◌+◌, ◌≤◌}
use Prim.Native.String.{String}
use mathlib.Core.Path.{◌≡◌, refl, sym, ap, ◌∙◌, subst}
use mathlib.Core.Logic.{◌↔◌, ◌≢◌, inl, inr}
use mathlib.Core.Bool.{Bool, true, false}
use mathlib.Core.Option
use mathlib.Core.Option.{Option, none, some}
use mathlib.Core.List.{List, [], ◌∷◌}
use native.Mathlib.Omega.{arith}
use text.Mathlib.Text.{◌==◌ as str_eq}
use text.Mathlib.TextEquality.{eq_iff}
use voicemcu.Base.Tests.{◌==◌ as nat_eq, ==_iff, if◌then◌else◌, Bool-cases, Option-cases}
use voicemcu.Base.Lists.{length}

pub record Eq {ℓ} (K : Type ℓ) : Type ℓ where
  pub beq : K → K → Bool
  pub beq_iff : (j k : K) → (beq j k ≡ true) ↔ (j ≡ k)

instance abbrev pub ℕ_eq : Eq ℕ
ℕ_eq = record { beq = nat_eq; beq_iff = ==_iff }

instance abbrev pub String_eq : Eq String
String_eq = record { beq = str_eq; beq_iff = eq_iff }

module _ {K : Type 0} ⦃e : Eq K⦄ where
  pub beq_refl : (k : K) → e.beq k k ≡ true
  beq_refl k = (e.beq_iff k k).1 refl

  pub beq-ne : (j k : K) → j ≢ k → e.beq j k ≡ false
  beq-ne j k ne = elim (Bool-cases (e.beq j k)) [
    | inl same ↦ absurd (ne ((e.beq_iff j k).0 same))
    | inr other ↦ other
  ]

some-subst : {V : Type 0} (p : V → Type 0) {v x : V} → some v ≡ some x → p v → p x
some-subst p {v} {x} e h = let e' : v ≡ x = cc in subst p e' h

module _ {K : Type 0} ⦃e : Eq K⦄ {V : Type 0} where
  unfoldable pub lookup : K → List (K × V) → Option V
  lookup k [] = none
  lookup k ((j, v) ∷ m) = if e.beq j k then some v else lookup k m

  -- In the place of an old entry, or at the end.
  unfoldable pub insert : K → V → List (K × V) → List (K × V)
  insert k v [] = (k, v) ∷ []
  insert k v ((j, w) ∷ m) = if e.beq j k then (j, v) ∷ m else (j, w) ∷ insert k v m

  unfoldable pub remove : K → List (K × V) → List (K × V)
  remove k [] = []
  remove k ((j, v) ∷ m) = if e.beq j k then remove k m else (j, v) ∷ remove k m

  -- A write through a reference to the value of a key; nothing where the key is missing.
  unfoldable pub modify : K → (V → V) → List (K × V) → List (K × V)
  modify k f [] = []
  modify k f ((j, v) ∷ m) = (j, if e.beq j k then f v else v) ∷ modify k f m

  -- `retain`, by a test on the entry.
  unfoldable pub retain : (K → V → Bool) → List (K × V) → List (K × V)
  retain keep [] = []
  retain keep ((j, v) ∷ m) = if keep j v then (j, v) ∷ retain keep m else retain keep m

  abbrev pub contains : K → List (K × V) → Bool
  contains k m = elim (lookup k m) [ none ↦ false | some v ↦ true ]

  -- Every key stands once.
  unfoldable pub IsUnique : List (K × V) → Type 0
  IsUnique [] = Unit
  IsUnique ((j, v) ∷ m) = (lookup j m ≡ none) × IsUnique m

  pub lookup-insert :
      (k j : K) (v : V) (m : List (K × V))
      → lookup j (insert k v m) ≡ (if e.beq k j then some v else lookup j m)
  unfolding lookup insert
  lookup-insert k j v [] = refl
  lookup-insert k j v ((i, w) ∷ m) =
      ground (arith, e.beq_iff k j, e.beq_iff i k, e.beq_iff i j, lookup-insert k j v m)

  pub lookup-remove :
      (k j : K) (m : List (K × V))
      → lookup j (remove k m) ≡ (if e.beq k j then none else lookup j m)
  unfolding lookup remove
  lookup-remove k j [] = ground arith
  lookup-remove k j ((i, w) ∷ m) =
      ground (arith, e.beq_iff k j, e.beq_iff i k, e.beq_iff i j, lookup-remove k j m)

  pub lookup-modify :
      (k j : K) (f : V → V) (m : List (K × V))
      → lookup j (modify k f m) ≡ (if e.beq k j then Option.map f (lookup j m) else lookup j m)
  unfolding lookup modify
  lookup-modify k j f [] = ground arith
  lookup-modify k j f ((i, w) ∷ m) =
      ground (arith, e.beq_iff k j, e.beq_iff i k, e.beq_iff i j, lookup-modify k j f m)

  -- Where keys are unique.
  pub lookup-retain :
      (keep : K → V → Bool) (j : K) (m : List (K × V))
      → IsUnique m
      → lookup j (retain keep m)
        ≡ (elim (lookup j m) [ none ↦ none | some v ↦ if keep j v then some v else none ])
  unfolding lookup retain IsUnique
  lookup-retain keep j [] u = refl
  lookup-retain keep j ((i, w) ∷ m) u = ground (arith, e.beq_iff i j, lookup-retain keep j m u.1)

  pub insert-IsUnique : (k : K) (v : V) (m : List (K × V)) → IsUnique m → IsUnique (insert k v m)
  unfolding IsUnique insert lookup
  insert-IsUnique k v [] u = (refl, tt)
  insert-IsUnique k v ((j, w) ∷ m) u =
      ground (arith, insert-IsUnique k v m u.1, lookup-insert k j v m, e.beq_iff j k, e.beq_iff k j)

  pub remove-IsUnique : (k : K) (m : List (K × V)) → IsUnique m → IsUnique (remove k m)
  unfolding IsUnique remove
  remove-IsUnique k [] u = tt
  remove-IsUnique k ((j, w) ∷ m) u = ground (arith, remove-IsUnique k m u.1, lookup-remove k j m)

  pub modify-IsUnique :
      (k : K) (f : V → V) (m : List (K × V)) → IsUnique m → IsUnique (modify k f m)
  unfolding IsUnique modify
  modify-IsUnique k f [] u = tt
  modify-IsUnique k f ((j, w) ∷ m) u =
      (ground (arith, lookup-modify k j f m, u.0), modify-IsUnique k f m u.1)

  pub retain-IsUnique :
      (keep : K → V → Bool) (m : List (K × V)) → IsUnique m → IsUnique (retain keep m)
  unfolding IsUnique retain
  retain-IsUnique keep [] u = tt
  retain-IsUnique keep ((j, w) ∷ m) u =
      ground (arith, retain-IsUnique keep m u.1, lookup-retain keep j m u.1)

  pub length-insert :
      (k : K) (v : V) (m : List (K × V))
      → length (insert k v m) ≡ (if contains k m then length m else length m + 1)
  unfolding insert lookup
  length-insert k v [] = omega arith
  length-insert k v ((j, w) ∷ m) = ground (arith, length-insert k v m)

  pub length-modify : (k : K) (f : V → V) (m : List (K × V)) → length (modify k f m) ≡ length m
  unfolding modify
  length-modify k f [] = refl
  length-modify k f ((j, w) ∷ m) = ap suc (length-modify k f m)

  pub length-remove-le : (k : K) (m : List (K × V)) → length (remove k m) ≤ length m
  unfolding remove
  length-remove-le k [] = omega arith
  length-remove-le k ((j, w) ∷ m) = ground (arith, length-remove-le k m)

  -- An empty map and a map that finds nothing are the same.
  pub lookup-head : (j : K) (v : V) (m : List (K × V)) → lookup j ((j, v) ∷ m) ≡ some v
  unfolding lookup
  lookup-head j v m = rw (beq_refl j)

  pub contains-insert :
      (k j : K) (v : V) (m : List (K × V))
      → contains j (insert k v m) ≡ (if e.beq k j then true else contains j m)
  contains-insert k j v m = ground (arith, lookup-insert k j v m)

  pub contains-remove :
      (k j : K) (m : List (K × V))
      → contains j (remove k m) ≡ (if e.beq k j then false else contains j m)
  contains-remove k j m = ground (arith, lookup-remove k j m)

  pub contains-modify :
      (k j : K) (f : V → V) (m : List (K × V)) → contains j (modify k f m) ≡ contains j m
  contains-modify k j f m = ground (arith, lookup-modify k j f m)

  pub insert-nonempty : (k : K) (v : V) (m : List (K × V)) → insert k v m ≢ []
  unfolding insert
  insert-nonempty k v [] = λ p. cc
  insert-nonempty k v ((j, w) ∷ m) = λ p. ground arith

  pub contains-of-lookup :
      (k : K) {v : V} (m : List (K × V)) → lookup k m ≡ some v → contains k m ≡ true
  contains-of-lookup k m h = ground (arith, h)

  -- A key that is found is found with a value.
  pub lookup-of-contains :
      (k : K) (m : List (K × V)) → contains k m ≡ true → (v : V) × (lookup k m ≡ some v)
  lookup-of-contains k m h = ground (arith, h)

  -- What holds of each value that can be found.
  abbrev pub Each : (V → Type 0) → List (K × V) → Type 0
  Each p m = (j : K) (x : V) → lookup j m ≡ some x → p x

  pub insert-Each :
      (p : V → Type 0) (k : K) (v : V) (m : List (K × V)) → p v → Each p m → Each p (insert k v m)
  insert-Each p k v m h all j x found = elim (Bool-cases (e.beq k j)) [
    | inl same ↦ some-subst p (sym (lookup-insert k j v m ∙ rw same refl) ∙ found) h
    | inr other ↦ all j x (sym (lookup-insert k j v m ∙ rw other refl) ∙ found)
  ]

  pub modify-Each :
      (p : V → Type 0) (k : K) (f : V → V) (m : List (K × V))
      → ((v : V) → lookup k m ≡ some v → p v → p (f v))
      → Each p m
      → Each p (modify k f m)
  modify-Each p k f m keeps all j x found = elim (Bool-cases (e.beq k j)) [
    | inr other ↦ all j x (sym (lookup-modify k j f m ∙ rw other refl) ∙ found)
    | inl same ↦ elim (Option-cases (lookup j m)) [
      | inl missing ↦ absurd (ground (arith, lookup-modify k j f m))
      | inr (v, there) ↦
          some-subst p (sym (lookup-modify k j f m ∙ rw (same, there) refl) ∙ found)
            (keeps v (ap (λ i. lookup i m) ((e.beq_iff k j).0 same) ∙ there) (all j v there))
    ]
  ]

  pub retain-Each :
      (p : V → Type 0) (keep : K → V → Bool) (m : List (K × V))
      → IsUnique m
      → Each p m
      → Each p (retain keep m)
  retain-Each p keep m u all j x found = all j x (ground (arith, lookup-retain keep j m u))

  pub rewritten-Each :
      (p : V → Type 0) (k : K) (f : V → V) (v : V) (m : List (K × V))
      → p v
      → Each p m
      → Each p (insert k v (modify k f m))
  rewritten-Each p k f v m h all j x found = elim (Bool-cases (e.beq k j)) [
    | inl same ↦ some-subst p (sym (lookup-insert k j v (modify k f m) ∙ rw same refl) ∙ found) h
    | inr other ↦ all j x (
        sym (lookup-modify k j f m ∙ rw other refl)
        ∙ sym (lookup-insert k j v (modify k f m) ∙ rw other refl)
        ∙ found)
  ]

  pub lookup-modify_self :
      (k : K) (f : V → V) (m : List (K × V)) {v : V}
      → lookup k m ≡ some v
      → lookup k (modify k f m) ≡ some (f v)
  lookup-modify_self k f m h = lookup-modify k k f m ∙ rw (beq_refl k, h) refl

  pub lookup-insert_self : (k : K) (v : V) (m : List (K × V)) → lookup k (insert k v m) ≡ some v
  lookup-insert_self k v m = lookup-insert k k v m ∙ rw (beq_refl k) refl

  pub insert-insert :
      (k : K) (v w : V) (m : List (K × V)) → insert k w (insert k v m) ≡ insert k w m
  unfolding insert
  insert-insert k v w [] = ground (arith, beq_refl k)
  insert-insert k v w ((j, x) ∷ m) = ground (arith, insert-insert k v w m)
