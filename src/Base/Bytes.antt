-- ===== src/Base/Bytes.antt =====
-- Big-endian integers: the library's `to_be_bytes` and `from_be_bytes`.
use mathlib.Core.List.{reverse, reverse-reverse, reverse-cons}
use mathlib.Core.Path.{◌≡◌, refl, ap, ap₂, ◌∙◌}
use Prim.Native.Nat.{ℕ, zero, suc, ◌+◌, ◌*◌, ◌/◌, ◌%◌, ◌<◌}
use mathlib.Core.List.{List, [], ◌∷◌}
use native.Mathlib.Omega.{arith}
use voicemcu.Base.Lists.{length, length-append, All, All-append}

-- The low `n` bytes of a number, the least significant first.
unfoldable pub to_le_bytes : ℕ → ℕ → List ℕ
to_le_bytes zero v = []
to_le_bytes (suc n) v = v % 256 ∷ to_le_bytes n (v / 256)

unfoldable pub from_le_bytes : List ℕ → ℕ
from_le_bytes [] = 0
from_le_bytes (b ∷ bs) = b + 256 * from_le_bytes bs

unfoldable pub to_be_bytes : ℕ → ℕ → List ℕ
unfolding to_le_bytes
to_be_bytes n v = reverse (to_le_bytes n v)

unfoldable pub from_be_bytes : List ℕ → ℕ
unfolding from_le_bytes
from_be_bytes bs = from_le_bytes (reverse bs)

-- 256 to the power n, as a product that computes at numerals.
abbrev pub bytes_bound : ℕ → ℕ
bytes_bound zero = 1
bytes_bound (suc n) = 256 * bytes_bound n

-- A list of bytes.
abbrev pub IsBytes : List ℕ → Type 0
IsBytes = All (λ b. b < 256)

length-to_le_bytes : (n v : ℕ) → length (to_le_bytes n v) ≡ n
unfolding to_le_bytes
length-to_le_bytes zero v = refl
length-to_le_bytes (suc n) v = ap suc (length-to_le_bytes n (v / 256))

from_le_bytes-to_le_bytes : (n v : ℕ) → v < bytes_bound n → from_le_bytes (to_le_bytes n v) ≡ v
unfolding to_le_bytes from_le_bytes
from_le_bytes-to_le_bytes zero v h = omega arith
from_le_bytes-to_le_bytes (suc n) v h =
    omega (arith, from_le_bytes-to_le_bytes n (v / 256) (omega arith))

to_le_bytes-from_le_bytes :
    (bs : List ℕ) → IsBytes bs → to_le_bytes (length bs) (from_le_bytes bs) ≡ bs
unfolding to_le_bytes from_le_bytes
to_le_bytes-from_le_bytes [] h = refl
to_le_bytes-from_le_bytes (b ∷ bs) h =
    ap₂ ◌∷◌ low (ap (to_le_bytes (length bs)) high ∙ to_le_bytes-from_le_bytes bs h.1)
  where
    low : (b + 256 * from_le_bytes bs) % 256 ≡ b
    low = let small : b < 256 = h.0 in omega arith

    high : (b + 256 * from_le_bytes bs) / 256 ≡ from_le_bytes bs
    high = let small : b < 256 = h.0 in omega arith

pub length-reverse {ℓ} : {A : Type ℓ} (xs : List A) → length (reverse xs) ≡ length xs
length-reverse [] = refl
length-reverse (x ∷ xs) =
    omega
      (arith, ap length (reverse-cons x xs), length-append (reverse xs) (x ∷ []), length-reverse xs)

IsBytes-reverse : (bs : List ℕ) → IsBytes bs → IsBytes (reverse bs)
IsBytes-reverse [] h = h
IsBytes-reverse (b ∷ bs) h =
    rw (reverse-cons b bs) (All-append _ (reverse bs) (b ∷ []) (IsBytes-reverse bs h.1) (h.0, tt))

IsBytes-to_le_bytes : (n v : ℕ) → IsBytes (to_le_bytes n v)
unfolding to_le_bytes
IsBytes-to_le_bytes zero v = tt
IsBytes-to_le_bytes (suc n) v = (omega arith, IsBytes-to_le_bytes n (v / 256))

pub IsBytes-to_be_bytes : (n v : ℕ) → IsBytes (to_be_bytes n v)
unfolding to_be_bytes
IsBytes-to_be_bytes n v = IsBytes-reverse (to_le_bytes n v) (IsBytes-to_le_bytes n v)

pub length-to_be_bytes : (n v : ℕ) → length (to_be_bytes n v) ≡ n
unfolding to_be_bytes
length-to_be_bytes n v = length-reverse (to_le_bytes n v) ∙ length-to_le_bytes n v

pub from_be_bytes-to_be_bytes : (n v : ℕ) → v < bytes_bound n → from_be_bytes (to_be_bytes n v) ≡ v
unfolding to_be_bytes from_be_bytes
from_be_bytes-to_be_bytes n v h =
    rw (reverse-reverse (to_le_bytes n v)) (from_le_bytes-to_le_bytes n v h)

pub to_be_bytes-from_be_bytes :
    (n : ℕ) (bs : List ℕ) → length bs ≡ n → IsBytes bs → to_be_bytes n (from_be_bytes bs) ≡ bs
unfolding to_be_bytes from_be_bytes
to_be_bytes-from_be_bytes n bs e h =
    rw (← e, ← length-reverse bs, to_le_bytes-from_le_bytes (reverse bs) (IsBytes-reverse bs h))
      (reverse-reverse bs)

from_le_bytes-lt : (bs : List ℕ) → IsBytes bs → from_le_bytes bs < bytes_bound (length bs)
unfolding from_le_bytes
from_le_bytes-lt [] h = omega arith
from_le_bytes-lt (b ∷ bs) h = omega (arith, from_le_bytes-lt bs h.1)

pub from_be_bytes-lt : (bs : List ℕ) → IsBytes bs → from_be_bytes bs < bytes_bound (length bs)
unfolding from_be_bytes
from_be_bytes-lt bs h =
    rw (length-reverse bs) at (from_le_bytes-lt (reverse bs) (IsBytes-reverse bs h))
