-- ===== src/Client/Pinning/Examples.antt =====
-- Texts after `--cert-hash`, and the theorem at an input.
use voicemcu.Base.{
  ℕ, ◌≡◌, ◌↔◌, refl, true, false, some, List, [], ◌∷◌, replicate, ok, err, ◌==◌, arith,
}
use voicemcu.Certificates.{hex_text}
use voicemcu.Client.Pinning.{
  invalid_digit, panics, hex_digit, from_str_radix, is_boundary, decode_pairs, decode_hex, CertMode,
  cert_mode,
}
use voicemcu.Client.Pinning.Verifiers.{
  Rustls, ClientTls, build_client_config, accepts, build_client_config-hex_text,
}

-- "00ff" and "+a" are read, "zz" is not, and neither is a text cut inside a character.
decoded : decode_hex (48 ∷ 48 ∷ 102 ∷ 102 ∷ []) ≡ ok (0 ∷ 255 ∷ [])
unfolding decode_hex decode_pairs is_boundary from_str_radix hex_digit
decoded = refl

with_sign : decode_hex (43 ∷ 97 ∷ []) ≡ ok (10 ∷ [])
unfolding decode_hex decode_pairs is_boundary from_str_radix hex_digit
with_sign = refl

not_hex : decode_hex (122 ∷ 122 ∷ []) ≡ err invalid_digit
unfolding decode_hex decode_pairs is_boundary from_str_radix hex_digit
not_hex = refl

inside_character : decode_hex (97 ∷ 195 ∷ 169 ∷ 97 ∷ []) ≡ err panics
unfolding decode_hex decode_pairs is_boundary from_str_radix hex_digit
inside_character = refl

abbrev digest : ℕ → List ℕ
digest cert = replicate 32 cert

-- Certificates are numbers, and so are signatures: that of a certificate is itself.
abbrev numbers : Rustls
numbers = record {
  Der = ℕ;
  Dss = ℕ;
  Scheme = ℕ;
  sha256 = digest;
  verify_tls12_signature = λ (message : List ℕ) (cert dss : ℕ). cert == dss;
  verify_tls13_signature = λ (message : List ℕ) (cert dss : ℕ). cert == dss;
  supported_schemes = [];
  install_default = true;
  try_from = ok tt;
}

build_client_config-hex_text_example :
    (mode : CertMode) × (tls : ClientTls numbers) × (cert_mode (some (hex_text (digest 171))) false
      ≡ ok mode)
    × (build_client_config numbers mode ≡ ok tls)
    × ((other : ℕ) (message : List ℕ) (dss : ℕ)
        → (accepts numbers tls.verifier other message dss ≡ true)
          ↔ ((digest other ≡ digest 171) × (other == dss ≡ true)))
build_client_config-hex_text_example =
    build_client_config-hex_text numbers 171 false (ground arith) refl refl refl
