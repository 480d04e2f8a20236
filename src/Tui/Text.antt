-- ===== src/Tui/Text.antt =====
-- client/src/tui.rs: what the commands use of strings and numbers.
mod Examples
use Prim.Native.Char.{Char, code}
use Prim.Native.Char as Char
use Prim.Native.String.{String}
use voicemcu.Base.{
  ℕ, zero, suc, ◌+◌, ◌-◌, ◌*◌, ◌/◌, ◌%◌, Bool, true, false, ◌&&◌, ◌||◌, not, Option, none, some,
  ltb, leb, ◌==◌, if◌then◌else◌,
}
use voicemcu.Base.Words.{u64_mod}

unfoldable pub append : String → String → String
append String.[] t = t
append (String.◌∷◌ c s) t = String.◌∷◌ c (append s t)

-- `char::is_whitespace`.
abbrev pub is_whitespace : Char → Bool
is_whitespace c =
    let n = code c in
    (leb 9 n && leb n 13)
    || n == 32
    || n == 0x85
    || n == 0xA0
    || n == 0x1680
    || (leb 0x2000 n && leb n 0x200A)
    || n == 0x2028
    || n == 0x2029
    || n == 0x202F
    || n == 0x205F
    || n == 0x3000

pub trim_start : String → String
trim_start String.[] = String.[]
trim_start (String.◌∷◌ c s) =
    let rest = trim_start s in if is_whitespace c then rest else String.◌∷◌ c s

-- From the right: a space goes if nothing but spaces follows it.
pub trim_end : String → String
trim_end String.[] = String.[]
trim_end (String.◌∷◌ c s) = keep c (trim_end s)
  where
    keep : Char → String → String
    keep c String.[] = if is_whitespace c then String.[] else String.◌∷◌ c String.[]
    keep c (String.◌∷◌ d t) = String.◌∷◌ c (String.◌∷◌ d t)

pub trim : String → String
trim s = trim_start (trim_end s)

-- The code of a letter of A to Z in lower case, and any other code.
abbrev pub lower : Char → ℕ
lower c = let n = code c in if leb 65 n && leb n 90 then n + 32 else n

unfoldable pub eq_ignore_ascii_case : String → String → Bool
eq_ignore_ascii_case String.[] String.[] = true
eq_ignore_ascii_case (String.◌∷◌ c s) (String.◌∷◌ d t) =
    lower c == lower d && eq_ignore_ascii_case s t
eq_ignore_ascii_case _ _ = false

-- The digits from the left, with what has been read; a number that does not fit a u64 is refused.
pub parse_digits : ℕ → String → Option ℕ
parse_digits n String.[] = if ltb n u64_mod then some n else none
parse_digits n (String.◌∷◌ c s) =
    let rest = parse_digits (n * 10 + (code c - 48)) s in
    if leb 48 (code c) && leb (code c) 57 then rest else none

-- `parse::<u64>`, which lets one plus sign stand first.
pub parse_u64 : String → Option ℕ
parse_u64 String.[] = none
parse_u64 (String.◌∷◌ c String.[]) = parse_digits 0 (String.◌∷◌ c String.[])
parse_u64 (String.◌∷◌ c (String.◌∷◌ d s)) =
    if code c == 43
    then parse_digits 0 (String.◌∷◌ d s)
    else parse_digits 0 (String.◌∷◌ c (String.◌∷◌ d s))

unfoldable pub nth_digit : ℕ → String → Char
nth_digit n String.[] = "0"
nth_digit zero (String.◌∷◌ c s) = c
nth_digit (suc n) (String.◌∷◌ c s) = nth_digit n s

abbrev pub digit : ℕ → Char
digit n = nth_digit n "0123456789"

-- The decimal digits of a number with at most that many of them, before those already written.
unfoldable pub show_digits : ℕ → ℕ → String → String
show_digits zero n s = s
show_digits (suc fuel) n s =
    let written = String.◌∷◌ (digit (n % 10)) s in
    let rest = show_digits fuel (n / 10) written in if n / 10 == 0 then written else rest

-- A u64 has at most 20 digits.
unfoldable pub show_id : ℕ → String
show_id n = show_digits 20 n String.[]

-- `splitn(2, ' ')`: what stands before the first space, and what stands after it.
pub split_space : String → String × String
split_space String.[] = (String.[], String.[])
split_space (String.◌∷◌ c s) =
    let (before, after) = split_space s in
    if code c == 32 then (String.[], s) else (String.◌∷◌ c before, after)
