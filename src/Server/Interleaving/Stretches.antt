-- ===== src/Server/Interleaving/Stretches.antt =====
-- A join that runs for some stretches, with nothing between them.
use Prim.Native.Nat.{zero, suc}
use Prim.Native.String.{String}
use voicemcu.Base.{
  ℕ, ◌≡◌, refl, ap, ◌∙◌, Bool, false, some, inl, inr, List, [], ◌∷◌, ◌++◌, length, get_elem?,
  Bool-cases, arith,
}
use voicemcu.Base.Assoc.{ℕ_eq, String_eq}
use voicemcu.Server.{Server}
use voicemcu.Server.Session.{Outcome}
use voicemcu.Server.Interleaving.{
  Phase, arrived, checked, numbered, roomed, placed, claimed, announced, over, advance, world, Move,
  advances, advance_at, happen, unroll, holds, is_held, waits_for_guard, is_blocked,
}

-- A join by itself, for a number of stretches.
unfoldable pub repeat : ℕ → Bool → Server → Phase → Server × Phase
repeat zero writable s p = (s, p)
repeat (suc n) writable s p = let (s', p') = advance writable s p in repeat n writable s' p'

-- The moves of one task that runs for a number of stretches.
abbrev pub stretches : ℕ → ℕ → Bool → List Move
stretches task zero writable = []
stretches task (suc n) writable = advances task writable ∷ stretches task n writable

advance_at-length :
    (writable : Bool) (s : Server) (before : List Phase) (p : Phase) (after : List Phase)
    → advance_at (length before) writable s (before ++ (p ∷ after))
      ≡ ((advance writable s p).0, before ++ ((advance writable s p).1 ∷ after))
unfolding advance_at
advance_at-length writable s [] p after = refl
advance_at-length writable s (q ∷ before) p after =
    rw (advance_at-length writable s before p after) refl

-- No join of a list holds a guard.
abbrev pub Unheld : List Phase → Type 0
Unheld tasks = (code : String) → is_held code tasks ≡ false

get_elem?-length :
    (before : List Phase) (p : Phase) (after : List Phase)
    → get_elem? (before ++ (p ∷ after)) (length before) ≡ some p
get_elem?-length [] p after = refl
get_elem?-length (q ∷ before) p after = get_elem?-length before p after

is_held-append :
    (code : String) (before tasks : List Phase)
    → is_held code before ≡ false
    → is_held code tasks ≡ false
    → is_held code (before ++ tasks) ≡ false
unfolding is_held
is_held-append code [] tasks e h = h
is_held-append code (q ∷ before) tasks e h = elim (Bool-cases (holds code q)) [
  | inl held ↦ absurd (ground (arith, held, e))
  | inr free ↦ rw free (is_held-append code before tasks (ground (arith, free, e)) h)
]

-- A join has not to wait where no other holds a guard.
waits_for_guard-Unheld :
    (before : List Phase) (p : Phase) (after : List Phase)
    → Unheld before
    → Unheld after
    → waits_for_guard p (before ++ (p ∷ after)) ≡ false
unfolding waits_for_guard is_held holds
waits_for_guard-Unheld before (numbered connection code name id) after b a =
    is_held-append code before (numbered connection code name id ∷ after) (b code) (a code)
waits_for_guard-Unheld before (arrived connection msg) after b a = refl
waits_for_guard-Unheld before (checked connection code name) after b a = refl
waits_for_guard-Unheld before (roomed connection code name id is_new_room) after b a = refl
waits_for_guard-Unheld before (placed connection code name id is_new_room) after b a = refl
waits_for_guard-Unheld before (claimed connection code name id is_new_room became_host) after b a =
    refl
waits_for_guard-Unheld before (announced connection code name id is_new_room became_host) after b
      a =
    refl
waits_for_guard-Unheld before (over outcome) after b a = refl

-- One stretch. Other tasks stay as they are.
pub unroll-advance :
    (writable : Bool) (s : Server) (before : List Phase) (p : Phase) (after : List Phase)
    (moves : List Move)
    → waits_for_guard p (before ++ (p ∷ after)) ≡ false
    → unroll (world s (before ++ (p ∷ after))) (advances (length before) writable ∷ moves)
      ≡ unroll (world (advance writable s p).0 (before ++ ((advance writable s p).1 ∷ after))) moves
unfolding unroll happen is_blocked
unroll-advance writable s before p after moves free =
    rw
      (
        unroll,
        happen,
        is_blocked,
        get_elem?-length before p after,
        free,
        advance_at-length writable s before p after,
      )
      refl

-- Some stretches, while no other join holds a guard.
pub unroll-stretches :
    (n : ℕ) (writable : Bool) (s : Server) (before : List Phase) (p : Phase) (after : List Phase)
    (moves : List Move)
    → Unheld before
    → Unheld after
    → unroll (world s (before ++ (p ∷ after))) (stretches (length before) n writable ++ moves)
      ≡ unroll
          (world (repeat n writable s p).0 (before ++ ((repeat n writable s p).1 ∷ after)))
          moves
unfolding repeat
unroll-stretches zero writable s before p after moves b a = refl
unroll-stretches (suc n) writable s before p after moves b a =
    unroll-advance writable s before p after (stretches (length before) n writable ++ moves)
      (waits_for_guard-Unheld before p after b a)
    ∙ unroll-stretches n writable (advance writable s p).0 before (advance writable s p).1 after
        moves b a

pub unroll-repeat :
    (n : ℕ) (writable : Bool) (s s' : Server) (before : List Phase) (p p' : Phase)
    (after : List Phase) (moves : List Move)
    → Unheld before
    → Unheld after
    → repeat n writable s p ≡ (s', p')
    → unroll (world s (before ++ (p ∷ after))) (stretches (length before) n writable ++ moves)
      ≡ unroll (world s' (before ++ (p' ∷ after))) moves
unroll-repeat n writable s s' before p p' after moves b a e =
    unroll-stretches n writable s before p after moves b a
    ∙ ap (λ (x : Server × Phase). unroll (world x.0 (before ++ (x.1 ∷ after))) moves) e

pub repeat-step :
    (n : ℕ) (writable : Bool) (s s' : Server) (p p' : Phase)
    → advance writable s p ≡ (s', p')
    → repeat (suc n) writable s p ≡ repeat n writable s' p'
unfolding repeat
repeat-step n writable s s' p p' e = rw e refl

pub repeat-over :
    (n : ℕ) (writable : Bool) (s : Server) (outcome : Outcome)
    → repeat n writable s (over outcome) ≡ (s, over outcome)
unfolding repeat advance
repeat-over zero writable s outcome = refl
repeat-over (suc n) writable s outcome = repeat-over n writable s outcome
