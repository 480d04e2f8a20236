-- ===== src/Client/Pinning/Verifiers.antt =====
-- `build_client_config` of client/src/main.rs, and the two verifiers. rustls and ring are a parameter:
-- a digest, the check of a signature of the handshake, and whether their configuration can be made.
use Prim.Native.String.{String}
use voicemcu.Base.{
  ℕ, ◌≡◌, ◌↔◌, refl, Bool, true, ◌&&◌, some, List, length, Result, ok, ensure, ◌>>◌, arith,
}
use voicemcu.Certificates.{hex_text}
use voicemcu.Client.Pinning.{CertMode, pin_hash, skip_verify, cert_mode, verify_server_cert}
use voicemcu.Base.Bytes.{IsBytes}
use voicemcu.Client.Pinning.Fingerprint.{cert_mode-hex_text}

abbrev pub quic_mtu_discovery_upper_bound : ℕ
quic_mtu_discovery_upper_bound = 1200

-- `install_default` tells whether the provider could be installed, `try_from` the error of a
-- configuration that QUIC does not take.
pub record Rustls : Type 1 where
  pub Der : Type 0
  pub Dss : Type 0
  pub Scheme : Type 0
  pub sha256 : Der → List ℕ
  pub verify_tls12_signature : List ℕ → Der → Dss → Bool
  pub verify_tls13_signature : List ℕ → Der → Dss → Bool
  pub supported_schemes : List Scheme
  pub install_default : Bool
  pub try_from : Result String (Unit {0})

module _ (rustls : Rustls) where
  open rustls use {Der, Dss, Scheme, sha256}

  -- The trait `ServerCertVerifier`.
  pub record Verifier : Type 0 where
    pub verifies_cert : Der → Bool
    pub verifies_tls12 : List ℕ → Der → Dss → Bool
    pub verifies_tls13 : List ℕ → Der → Dss → Bool
    pub schemes : List Scheme

  unfoldable pub pinned_cert_verifier : List ℕ → Verifier
  pinned_cert_verifier expected_hash = record {
    verifies_cert = verify_server_cert sha256 (pin_hash expected_hash);
    verifies_tls12 = rustls.verify_tls12_signature;
    verifies_tls13 = rustls.verify_tls13_signature;
    schemes = rustls.supported_schemes;
  }

  unfoldable pub skip_server_verification : Verifier
  skip_server_verification = record {
    verifies_cert = verify_server_cert sha256 skip_verify;
    verifies_tls12 = λ (message : List ℕ) (cert : Der) (dss : Dss). true;
    verifies_tls13 = λ (message : List ℕ) (cert : Der) (dss : Dss). true;
    schemes = rustls.supported_schemes;
  }

  unfoldable pub verifier_of : CertMode → Verifier
  verifier_of (pin_hash hash) = pinned_cert_verifier hash
  verifier_of skip_verify = skip_server_verification

  pub record ClientTls : Type 0 where
    pub verifier : Verifier
    pub mtu_upper_bound : ℕ

  unfoldable pub build_client_config : CertMode → Result String ClientTls
  build_client_config mode = do
    ensure rustls.install_default "failed to install rustls crypto provider"
    rustls.try_from
    ok (record { verifier = verifier_of mode; mtu_upper_bound = quic_mtu_discovery_upper_bound })

  -- QUIC uses TLS 1.3: the certificate of a server, and its signature of the handshake.
  abbrev pub accepts : Verifier → Der → List ℕ → Dss → Bool
  accepts v cert message dss = v.verifies_cert cert && v.verifies_tls13 message cert dss

  accepts-pinned :
      (hash : List ℕ) (cert : Der) (message : List ℕ) (dss : Dss)
      → accepts (pinned_cert_verifier hash) cert message dss ≡ (
          verify_server_cert sha256 (pin_hash hash) cert
          && rustls.verify_tls13_signature message cert dss)
  unfolding pinned_cert_verifier
  accepts-pinned hash cert message dss = refl

  -- Where rustls can be set up, and whatever the digest, if it has 32 bytes: a client that is given
  -- the fingerprint that a server prints of its certificate, also one that is told to skip the check,
  -- is configured to accept a server if and only if the digest of its certificate is that one and its
  -- signature of the handshake is good.
  pub build_client_config-hex_text :
      (server : Der) (danger_skip_verify : Bool)
      → IsBytes (sha256 server)
      → length (sha256 server) ≡ 32
      → rustls.install_default ≡ true
      → rustls.try_from ≡ ok tt
      → (mode : CertMode) × (tls : ClientTls) × (cert_mode
            (some (hex_text (sha256 server)))
            danger_skip_verify
          ≡ ok mode)
        × (build_client_config mode ≡ ok tls)
        × ((other : Der) (message : List ℕ) (dss : Dss)
            → (accepts tls.verifier other message dss ≡ true) ↔ (
                (sha256 other ≡ sha256 server)
                × (rustls.verify_tls13_signature message other dss ≡ true)))
  unfolding build_client_config verifier_of
  build_client_config-hex_text server danger_skip_verify bytes long installed accepted =
      let (mode, pins) = cert_mode-hex_text sha256 server danger_skip_verify bytes long in
      (
        pin_hash (sha256 server),
        record {
          verifier = pinned_cert_verifier (sha256 server);
          mtu_upper_bound = quic_mtu_discovery_upper_bound;
        },
        mode,
        rw (installed, accepted) refl,
        λ other message dss. both other message dss (pins other),
      )
    where
      both :
          (other : Der) (message : List ℕ) (dss : Dss)
          → ((verify_server_cert sha256 (pin_hash (sha256 server)) other ≡ true)
              ↔ (sha256 other ≡ sha256 server))
          → (accepts (pinned_cert_verifier (sha256 server)) other message dss ≡ true) ↔ (
              (sha256 other ≡ sha256 server)
              × (rustls.verify_tls13_signature message other dss ≡ true))
      both other message dss pin =
          rw (accepts-pinned (sha256 server) other message dss)
            ((λ h. ground (arith, h, pin)), (λ h. ground (arith, h, pin)))
