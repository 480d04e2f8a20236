-- ===== src/Tui/View/Cursor.antt =====
-- Where the cursor stands.
use Prim.Native.Char.{Char, code}
use Prim.Native.String.{String}
use voicemcu.Base.{ℕ, suc, ◌+◌, ◌<◌, ◌≤◌, ◌≡◌, ◌⊎◌, inl, inr, refl, arith, ltb, Bool-cases}
use voicemcu.Tui.{AppState}
use voicemcu.Tui.View.{Rect, u16_mod, byte_length, cursor_position, len_utf8}

-- The characters of a text.
pub char_length : String → ℕ
char_length String.[] = 0
char_length (String.◌∷◌ c s) = suc (char_length s)

pub IsAscii : String → Type 0
IsAscii String.[] = Unit
IsAscii (String.◌∷◌ c s) = (code c < 128) × IsAscii s

byte_length-char_length : (s : String) → IsAscii s → byte_length s ≡ char_length s
unfolding byte_length char_length IsAscii
byte_length-char_length String.[] h = refl
byte_length-char_length (String.◌∷◌ c s) (small, rest) =
    ground (arith, byte_length-char_length s rest)

len_utf8-cases : (c : Char) → ((code c < 128) × (len_utf8 c ≡ 1)) ⊎ (1 < len_utf8 c)
len_utf8-cases c = elim (Bool-cases (ltb (code c) 128)) [
  | inl small ↦ inl (ground (arith, small), rw small refl)
  | inr large ↦ elim (Bool-cases (ltb (code c) 2048)) [
    | inl two ↦ inr (rw (large, two) (omega arith))
    | inr more ↦ elim (Bool-cases (ltb (code c) 65536)) [
      | inl three ↦ inr (rw (large, more, three) (omega arith))
      | inr four ↦ inr (rw (large, more, four) (omega arith))
    ]
  ]
]

char_length-le : (s : String) → char_length s ≤ byte_length s
unfolding byte_length char_length
char_length-le String.[] = omega arith
char_length-le (String.◌∷◌ c s) = elim (len_utf8-cases c) [
  | inl (small, one) ↦ omega (arith, one, char_length-le s)
  | inr many ↦ omega (arith, many, char_length-le s)
]

char_length-byte_length : (s : String) → IsAscii s ⊎ (char_length s < byte_length s)
unfolding byte_length char_length IsAscii
char_length-byte_length String.[] = inl tt
char_length-byte_length (String.◌∷◌ c s) = elim (len_utf8-cases c) [
  | inr many ↦ inr (omega (arith, many, char_length-le s))
  | inl (small, one) ↦ elim (char_length-byte_length s) [
    | inl rest ↦ inl (small, rest)
    | inr more ↦ inr (omega (arith, one, more))
  ]
]

-- On a terminal on which it fits, the cursor stands behind the last character of an input of ASCII,
-- and further to the right by the extra bytes of an input with any other character.
pub cursor_position_lem :
    (state : AppState) (area : Rect)
    → area.x + 3 + byte_length state.input < u16_mod
    → (IsAscii state.input
        × ((cursor_position state area).0 ≡ area.x + 3 + char_length state.input))
      ⊎ (area.x + 3 + char_length state.input < (cursor_position state area).0)
unfolding cursor_position
cursor_position_lem state area fits = elim (char_length-byte_length state.input) [
  | inl ascii ↦ inl (ascii, omega (arith, byte_length-char_length state.input ascii))
  | inr more ↦ inr (omega (arith, more))
]
