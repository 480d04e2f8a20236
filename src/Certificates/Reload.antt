-- ===== src/Certificates/Reload.antt =====
-- A server that starts again has the same certificate.
use Prim.Native.String.{String}
use voicemcu.Base.{ℕ, ◌≡◌, ◌≢◌, true, some, List, Result, ok}
use voicemcu.Certificates.{Disk, Crypto, obtain_pair}

-- What a disk promises: what a write that succeeds wrote is there, and other files are as before.
pub record IsFaithful (disk : Disk) : Type 0 where
  pub written :
      (p : String) (data' : List ℕ) (files : disk.State)
      → (disk.write p data' files).1 ≡ ok tt
      → (disk.exists p (disk.write p data' files).0 ≡ true)
        × (disk.read p (disk.write p data' files).0 ≡ ok data')
  pub others :
      (p q : String) (data' : List ℕ) (files : disk.State)
      → p ≢ q
      → (disk.exists q (disk.write p data' files).0 ≡ disk.exists q files)
        × (disk.read q (disk.write p data' files).0 ≡ disk.read q files)

-- What the libraries promise: PEM that they wrote they read.
pub record ReadsPem (crypto : Crypto) : Type 0 where
  pub certs :
      (c : crypto.Cert) → crypto.first_cert (crypto.cert_pem c) ≡ some (ok (crypto.cert_der c))
  pub keys :
      (k : crypto.KeyPair) → crypto.private_key (crypto.key_pem k) ≡ ok (some (crypto.key_der k))

module _ (disk : Disk) (crypto : Crypto) (faithful : IsFaithful disk) (pem : ReadsPem crypto)
    (cf kf : String) (apart : cf ≢ kf) where
  open disk use {State, exists, read, write}
  open crypto use {KeyPair, Cert, Der, cert_pem, key_pem, cert_der, key_der}

  -- The files of a certificate and its key.
  record Holds (cert : Cert) (pair : KeyPair) (files : State) : Type 0 where
    cert_there : exists cf files ≡ true
    key_there : exists kf files ≡ true
    cert_read : read cf files ≡ ok (cert_pem cert)
    key_read : read kf files ≡ ok (key_pem pair)

  -- What is obtained is obtained again, from the files as they then are.
  abbrev Stays : ℕ → State × Result String (Der × Der) → Type 0
  Stays call r =
      (p : Der × Der)
      → r.1 ≡ ok p
      → obtain_pair disk crypto call (some cf) (some kf) r.0 ≡ (r.0, ok p)
