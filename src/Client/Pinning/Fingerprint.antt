-- ===== src/Client/Pinning/Fingerprint.antt =====
-- The fingerprint that a server prints, given to a client, pins the certificate of that server.
use voicemcu.Base.{
  ℕ, ◌+◌, ◌*◌, ◌/◌, ◌%◌, ◌<◌, ◌≤◌, ◌≡◌, ◌↔◌, refl, ap, Bool, true, some, List, [], ◌∷◌, length, ok,
  arith,
}
use voicemcu.Base.Bytes.{IsBytes}
use voicemcu.Certificates.{hex_char, hex_text}
use voicemcu.Client.Pinning.{
  hex_digit, from_str_radix, is_boundary, decode_pairs, decode_hex, pin_hash, pinned, cert_mode,
  bytes_eq, verify_server_cert,
}

hex_digit-hex_char : (n : ℕ) → n < 16 → hex_digit (hex_char n) ≡ some n
unfolding hex_digit hex_char
hex_digit-hex_char n h = ground arith

hex_char_ascii : (n : ℕ) → n < 16 → (48 ≤ hex_char n) × (hex_char n < 128)
unfolding hex_char
hex_char_ascii n h = ground arith

from_str_radix-hex_char :
    (high low : ℕ)
    → high < 16
    → low < 16
    → from_str_radix (hex_char high) (hex_char low) ≡ ok (high * 16 + low)
unfolding from_str_radix
from_str_radix-hex_char high low h k =
    ground (arith, hex_char_ascii high h, hex_digit-hex_char high h, hex_digit-hex_char low k)

is_boundary-hex_text : (bytes : List ℕ) → IsBytes bytes → is_boundary (hex_text bytes) ≡ true
unfolding is_boundary hex_text
is_boundary-hex_text [] h = refl
is_boundary-hex_text (b ∷ bytes) h = ground (arith, hex_char_ascii (b / 16) (omega (arith, h.0)))

decode_pairs-hex_text : (bytes : List ℕ) → IsBytes bytes → decode_pairs (hex_text bytes) ≡ ok bytes
unfolding decode_pairs hex_text
decode_pairs-hex_text [] h = refl
decode_pairs-hex_text (b ∷ bytes) h =
    rw
      (
        is_boundary-hex_text bytes h.1,
        from_str_radix-hex_char (b / 16) (b % 16) (omega (arith, h.0)) (omega arith),
        decode_pairs-hex_text bytes h.1,
      )
      (ap (λ c. ok (c ∷ bytes)) (omega arith))

length-hex_text : (bytes : List ℕ) → length (hex_text bytes) ≡ 2 * length bytes
unfolding hex_text
length-hex_text [] = refl
length-hex_text (b ∷ bytes) = omega (arith, length-hex_text bytes)

decode_hex-hex_text : (bytes : List ℕ) → IsBytes bytes → decode_hex (hex_text bytes) ≡ ok bytes
unfolding decode_hex
decode_hex-hex_text bytes h = ground (arith, length-hex_text bytes, decode_pairs-hex_text bytes h)

bytes_eq_iff : (bs cs : List ℕ) → (bytes_eq bs cs ≡ true) ↔ (bs ≡ cs)
unfolding bytes_eq
bytes_eq_iff [] [] = (λ e. refl, λ e. refl)
bytes_eq_iff [] (c ∷ cs) = (λ e. absurd cc, λ e. absurd cc)
bytes_eq_iff (b ∷ bs) [] = (λ e. absurd cc, λ e. absurd cc)
bytes_eq_iff (b ∷ bs) (c ∷ cs) =
    (λ e. ground (arith, e, bytes_eq_iff bs cs), λ e. ground (arith, e, bytes_eq_iff bs cs))

-- Whatever the digest, if it has 32 bytes: the fingerprint that a server prints of its certificate
-- is taken as the pin of a client, also where the client was told to skip the check; and the client
-- then accepts a certificate if and only if its digest is that of the server's.
pub cert_mode-hex_text :
    {Der : Type 0} (sha256 : Der → List ℕ) (server : Der) (danger_skip_verify : Bool)
    → IsBytes (sha256 server)
    → length (sha256 server) ≡ 32
    → (cert_mode (some (hex_text (sha256 server))) danger_skip_verify
        ≡ ok (pin_hash (sha256 server)))
      × ((other : Der)
          → (verify_server_cert sha256 (pin_hash (sha256 server)) other ≡ true)
            ↔ (sha256 other ≡ sha256 server))
unfolding cert_mode pinned verify_server_cert
cert_mode-hex_text sha256 server danger_skip_verify h k = (
  rw (decode_hex-hex_text (sha256 server) h, k) refl,
  λ other. bytes_eq_iff (sha256 other) (sha256 server),
)
