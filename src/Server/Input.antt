-- ===== src/Server/Input.antt =====
-- server/src/main.rs, `sanitize_input`: what is left of a name or a room code.
use Prim.Native.Char.{Char, code}
use Prim.Native.String.{String}
use voicemcu.Base.{
  ℕ, zero, suc, ◌≤◌, ◌≡◌, refl, ap, inl, inr, Bool, true, false, ◌&&◌, ◌||◌, arith, ltb, leb,
  if◌then◌else◌, Bool-cases,
}

-- The code points of the Unicode category Cc.
abbrev pub is_control : Char → Bool
is_control c = ltb (code c) 32 || (leb 127 (code c) && leb (code c) 159)

unfoldable pub without_controls : String → String
without_controls String.[] = String.[]
without_controls (String.◌∷◌ c s) =
    if is_control c then without_controls s else String.◌∷◌ c (without_controls s)

unfoldable pub take_chars : ℕ → String → String
take_chars zero s = String.[]
take_chars (suc n) String.[] = String.[]
take_chars (suc n) (String.◌∷◌ c s) = String.◌∷◌ c (take_chars n s)

unfoldable pub sanitize_input : String → ℕ → String
unfolding without_controls take_chars
sanitize_input s max_len = take_chars max_len (without_controls s)

abbrev pub is_empty : String → Bool
is_empty String.[] = true
is_empty (String.◌∷◌ c s) = false

-- Characters, not bytes.
abbrev pub char_count : String → ℕ
char_count String.[] = 0
char_count (String.◌∷◌ c s) = suc (char_count s)

abbrev pub HasNoControls : String → Type 0
HasNoControls String.[] = Unit {0}
HasNoControls (String.◌∷◌ c s) = (is_control c ≡ false) × HasNoControls s

without_controls-HasNoControls : (s : String) → HasNoControls (without_controls s)
unfolding without_controls
without_controls-HasNoControls String.[] = tt
without_controls-HasNoControls (String.◌∷◌ c s) = elim (Bool-cases (is_control c)) [
  | inl control ↦ rw (control, without_controls) (without_controls-HasNoControls s)
  | inr plain ↦ rw (plain, without_controls) (plain, without_controls-HasNoControls s)
]

take_chars-HasNoControls : (n : ℕ) (s : String) → HasNoControls s → HasNoControls (take_chars n s)
unfolding take_chars
take_chars-HasNoControls zero s h = tt
take_chars-HasNoControls (suc n) String.[] h = tt
take_chars-HasNoControls (suc n) (String.◌∷◌ c s) h = (h.0, take_chars-HasNoControls n s h.1)

take_chars-le : (n : ℕ) (s : String) → char_count (take_chars n s) ≤ n
unfolding take_chars
take_chars-le zero s = omega arith
take_chars-le (suc n) String.[] = omega arith
take_chars-le (suc n) (String.◌∷◌ c s) = omega (arith, take_chars-le n s)

clean_stays : (s : String) → HasNoControls s → without_controls s ≡ s
unfolding without_controls
clean_stays String.[] h = refl
clean_stays (String.◌∷◌ c s) h = rw (h.0, clean_stays s h.1)

short_stays : (n : ℕ) (s : String) → char_count s ≤ n → take_chars n s ≡ s
unfolding take_chars
short_stays zero String.[] h = refl
short_stays zero (String.◌∷◌ c s) h = absurd (omega arith)
short_stays (suc n) String.[] h = refl
short_stays (suc n) (String.◌∷◌ c s) h = ap (String.◌∷◌ c) (short_stays n s (omega arith))

-- What is let through has no control character and at most the allowed number of characters, and
-- a text that is so already passes unchanged.
pub sanitize_input_lem :
    (s : String) (n : ℕ)
    → HasNoControls (sanitize_input s n)
      × (char_count (sanitize_input s n) ≤ n)
      × (HasNoControls s → char_count s ≤ n → sanitize_input s n ≡ s)
unfolding sanitize_input
sanitize_input_lem s n = (
  take_chars-HasNoControls n (without_controls s) (without_controls-HasNoControls s),
  take_chars-le n (without_controls s),
  λ clean short. rw (clean_stays s clean) (short_stays n s short),
)
