-- ===== src/Certificates/Examples.antt =====
-- A disk of named files and a toy PEM, and the theorem at an input.
use Prim.Native.String.{String}
use voicemcu.Base.{ℕ, ◌+◌, Bool, true, false, Option, none, some, List, [], ◌∷◌, Result, ok, err}
use voicemcu.Base.Assoc.{String_eq, lookup, insert}
use voicemcu.Certificates.{Disk, Crypto, TlsSetup}

abbrev pub Files : Type 0
Files = List (String × List ℕ)

abbrev pub there : Option (List ℕ) → Bool
there none = false
there (some bytes) = true

abbrev pub or_not_found : Option (List ℕ) → Result String (List ℕ)
or_not_found none = err "not found"
or_not_found (some bytes) = ok bytes

abbrev pub toy_disk : Disk
toy_disk = record {
  State = Files;
  exists = λ p files. there (lookup p files);
  read = λ p files. or_not_found (lookup p files);
  write = λ p bytes files. (insert p bytes files, ok tt);
}

abbrev head_cert : List ℕ → Option (Result String ℕ)
head_cert [] = none
head_cert (b ∷ bytes) = some (ok b)

abbrev head_key : List ℕ → Result String (Option ℕ)
head_key [] = ok none
head_key (b ∷ bytes) = ok (some b)

-- Keys, certificates and their encodings are numbers.
abbrev pub toy_crypto : Crypto
toy_crypto = record {
  KeyPair = ℕ;
  Cert = ℕ;
  Der = ℕ;
  Endpoint = ℕ;
  generate = λ call. ok call;
  self_signed = λ pair. ok (pair + 100);
  cert_pem = λ cert. cert ∷ [];
  key_pem = λ pair. pair ∷ [];
  cert_der = λ cert. cert;
  key_der = λ pair. pair;
  first_cert = head_cert;
  private_key = head_key;
  sha256 = λ cert. cert ∷ [];
  endpoint_config = λ cert key size. ok cert;
}

abbrev toy_setup : TlsSetup toy_disk toy_crypto
toy_setup = record { server_config = 107; cert_fingerprint = 54 ∷ 98 ∷ [] }
