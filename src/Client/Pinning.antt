-- ===== src/Client/Pinning.antt =====
-- client/src/main.rs: how the command line says which certificates the client accepts, and the check
-- of one. The text after `--cert-hash` is the list of its bytes, in UTF-8.
pub mod Fingerprint
pub mod Verifiers
mod Examples
use Prim.Native.String.{String}
use voicemcu.Base.{
  ℕ, ◌+◌, ◌*◌, ◌-◌, ◌%◌, ◌==◌, ◌&&◌, ◌||◌, not, ltb, leb, Bool, true, false, Option, none, some,
  List, [], ◌∷◌, length, if◌then◌else◌, Result, ok, err, ◌>>=◌,
}

pub data PinError : Type 0 where
  message : (text : String) → PinError
  -- The error of `from_str_radix`, and the panic of a slice that ends inside a character.
  invalid_digit : PinError
  panics : PinError

-- `to_digit(16)`, of a byte.
pub hex_digit : ℕ → Option ℕ
hex_digit c =
    if leb 48 c && ltb c 58
    then some (c - 48)
    else if leb 97 c && ltb c 103
    then some (c - 87)
    else if leb 65 c && ltb c 71
    then some (c - 55)
    else none

-- `u8::from_str_radix` of two bytes, base 16: a sign in front is skipped.
pub from_str_radix : ℕ → ℕ → Result PinError ℕ
from_str_radix c d =
    if c == 43
    then elim (hex_digit d) [ none ↦ err invalid_digit | some low ↦ ok low ]
    else elim (hex_digit c) [
      | none ↦ err invalid_digit
      | some high ↦ elim (hex_digit d) [
        | none ↦ err invalid_digit
        | some low ↦ ok (high * 16 + low)
      ]
    ]

-- A slice may end before this byte: it does not go on with a character.
pub is_boundary : List ℕ → Bool
is_boundary [] = true
is_boundary (b ∷ bytes) = not (leb 128 b && ltb b 192)

-- The pairs from the left, to the first that is refused. The length is even.
pub decode_pairs : List ℕ → Result PinError (List ℕ)
decode_pairs [] = ok []
decode_pairs (c ∷ []) = err panics
decode_pairs (c ∷ d ∷ s) =
    let rest = decode_pairs s in
    if not (is_boundary s)
    then err panics
    else from_str_radix c d >>= λ b. rest >>= λ bytes. ok (b ∷ bytes)

pub decode_hex : List ℕ → Result PinError (List ℕ)
decode_hex s =
    if not (length s % 2 == 0)
    then err (message "hex string must have even length")
    else decode_pairs s

pub data CertMode : Type 0 where
  pin_hash : (hash : List ℕ) → CertMode
  skip_verify : CertMode

abbrev pub no_mode : PinError
no_mode =
    message
      "no certificate verification mode specified; use:\n  --cert-hash <hex>        (recommended) pin server cert by SHA-256 fingerprint\n  --danger-skip-verify     skip verification entirely (insecure)"

pub pinned : List ℕ → Result PinError CertMode
pinned hash =
    if not (length hash == 32)
    then err (message "--cert-hash must be 64 hex characters (SHA-256)")
    else ok (pin_hash hash)

unfoldable pub cert_mode : Option (List ℕ) → Bool → Result PinError CertMode
cert_mode (some hex) danger_skip_verify = decode_hex hex >>= λ hash. pinned hash
cert_mode none danger_skip_verify = if danger_skip_verify then ok skip_verify else err no_mode

-- Equality of two byte slices.
pub bytes_eq : List ℕ → List ℕ → Bool
bytes_eq [] [] = true
bytes_eq [] (c ∷ cs) = false
bytes_eq (b ∷ bs) [] = false
bytes_eq (b ∷ bs) (c ∷ cs) = b == c && bytes_eq bs cs

-- `verify_server_cert` of the verifier that the mode selects.
pub verify_server_cert : {Der : Type 0} → (Der → List ℕ) → CertMode → Der → Bool
verify_server_cert sha256 (pin_hash expected_hash) end_entity =
    bytes_eq (sha256 end_entity) expected_hash
verify_server_cert sha256 skip_verify end_entity = true
