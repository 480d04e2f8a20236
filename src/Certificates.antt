-- ===== src/Certificates.antt =====
-- server/src/tls.rs: the server's certificate, from disk or made anew, and its fingerprint. The
-- disk and the libraries for keys, certificates and PEM are parameters. Text that is printed is the
-- list of its bytes.
mod Reload
pub mod Examples
use Prim.Native.String.{String}
use voicemcu.Base.{
  ℕ, ◌+◌, ◌/◌, ◌%◌, ◌&&◌, ltb, Bool, Option, none, some, List, [], ◌∷◌, ◌++◌, if◌then◌else◌, Result,
  ok, err, ◌>>=◌,
}

pub record Disk : Type 1 where
  pub State : Type 0
  pub exists : String → State → Bool
  pub read : String → State → Result String (List ℕ)
  pub write : String → List ℕ → State → State × Result String (Unit {0})

-- The number of `generate` stands for the call. `first_cert` and `private_key` give what the first
-- item of a PEM file is, if it has one; `endpoint_config` is what rustls and quinn make of a
-- certificate and its key.
pub record Crypto : Type 1 where
  pub KeyPair : Type 0
  pub Cert : Type 0
  pub Der : Type 0
  pub Endpoint : Type 0
  pub generate : ℕ → Result String KeyPair
  pub self_signed : KeyPair → Result String Cert
  pub cert_pem : Cert → List ℕ
  pub key_pem : KeyPair → List ℕ
  pub cert_der : Cert → Der
  pub key_der : KeyPair → Der
  pub first_cert : List ℕ → Option (Result String Der)
  pub private_key : List ℕ → Result String (Option Der)
  pub sha256 : Der → List ℕ
  pub endpoint_config : Der → Der → ℕ → Result String Endpoint

-- One digit of `{b:02x}`, and the two of a byte.
unfoldable pub hex_char : ℕ → ℕ
hex_char n = if ltb n 10 then 48 + n else 87 + n

unfoldable pub hex_text : List ℕ → List ℕ
hex_text [] = []
hex_text (b ∷ bytes) = hex_char (b / 16) ∷ hex_char (b % 16) ∷ hex_text bytes

module _ (disk : Disk) (crypto : Crypto) where
  open disk use {State, exists, read, write}
  open crypto use {
    KeyPair, Cert, Der, Endpoint, generate, self_signed, cert_pem, key_pem, cert_der, key_der,
    first_cert, private_key, sha256, endpoint_config,
  }

  pub record TlsSetup : Type 0 where
    pub server_config : Endpoint
    pub cert_fingerprint : List ℕ

  abbrev pub or_missing : {A : Type 0} → String → Option A → Result String A
  or_missing message none = err message
  or_missing message (some a) = ok a

  abbrev pub first_of : Option (Result String Der) → Result String Der
  first_of none = err "no certificate found in cert file"
  first_of (some r) = r

  pub load_pair : String → String → State → Result String (Der × Der)
  load_pair cf kf files = do
    pem ← read cf files
    key ← read kf files
    cert_der' ← first_of (first_cert pem)
    found ← private_key key
    key_der' ← or_missing "no private key found in key file" found
    ok (cert_der', key_der')

  unfoldable pub make_pair : ℕ → Result String (Cert × KeyPair)
  make_pair call = do pair ← generate call; cert ← self_signed pair; ok (cert, pair)

  -- `?` on a write.
  unfoldable pub after_write :
      State × Result String (Unit {0})
      → (State → State × Result String (Unit {0}))
      → State × Result String (Unit {0})
  after_write (files, ok u) next = next files
  after_write (files, err e) next = (files, err e)

  -- Both files are written, if both have a path.
  unfoldable pub save_pair :
      Option String → Option String → Cert → KeyPair → State → State × Result String (Unit {0})
  save_pair (some cf) (some kf) cert pair files =
      after_write (write cf (cert_pem cert) files) (λ files'. write kf (key_pem pair) files')
  save_pair cert_file key_file cert pair files = (files, ok tt)

  unfoldable pub saved_pair :
      Cert → KeyPair → State × Result String (Unit {0}) → State × Result String (Der × Der)
  saved_pair cert pair (files, ok u) = (files, ok (cert_der cert, key_der pair))
  saved_pair cert pair (files, err e) = (files, err e)

  unfoldable pub generate_pair :
      ℕ → Option String → Option String → State → State × Result String (Der × Der)
  generate_pair call cert_file key_file files = elim (make_pair call) [
    | err e ↦ (files, err e)
    | ok (cert, pair) ↦ saved_pair cert pair (save_pair cert_file key_file cert pair files)
  ]

  unfoldable pub obtain_pair :
      ℕ → Option String → Option String → State → State × Result String (Der × Der)
  obtain_pair call (some cf) (some kf) files =
      if exists cf files && exists kf files
      then (files, load_pair cf kf files)
      else generate_pair call (some cf) (some kf) files
  obtain_pair call cert_file key_file files = generate_pair call cert_file key_file files

  unfoldable pub set_up : ℕ → Result String (Der × Der) → Result String TlsSetup
  set_up datagram_buffer (err e) = err e
  set_up datagram_buffer (ok (cert, key)) = do
    server_config ← endpoint_config cert key datagram_buffer
    ok (record { server_config = server_config; cert_fingerprint = hex_text (sha256 cert) })

  unfoldable pub setup_tls :
      ℕ → Option String → Option String → ℕ → State → State × Result String TlsSetup
  setup_tls call cert_file key_file datagram_buffer files =
      let (files', pair) = obtain_pair call cert_file key_file files in
      (files', set_up datagram_buffer pair)
