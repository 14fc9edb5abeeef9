-- ===== src/Tls/Crypto.antt =====
-- What the certificate manager uses of OpenSSL and of the system's hash functions, and the
-- certificates that it asks for. The clock stands still during one operation.
use appytizer_app_server.Base.{
  ℕ, ◌*◌, Bool, true, false, not, ◌||◌, ◌&&◌, List, [], ◌∷◌, ◌++◌, Option, none, some, Text, codes,
  ltb, ◌==◌, text_eq, if◌then◌else◌, any,
}
use appytizer_app_server.Base.Int.{ℤ, pos, ltb_ℤ, eqb_ℤ}

-- An entry of the subjectAltName extension.
pub data AltName : Type 0 where
  dns_name : Text → AltName
  other_name : AltName

-- What X509_sign is given, field by field; with no issuer the certificate is its own.
pub record Request (Certificate Key : Type 0) : Type 0 where
  pub version : ℕ
  pub serial_bits : ℕ
  pub valid_seconds : ℕ
  pub key : Key
  pub common_name : Text
  pub issuer : Option Certificate
  pub extensions : List (Text × Text)
  pub signer : Key

pub record Crypto : Type 1 where
  pub Certificate : Type 0
  pub Key : Type 0
  -- PEM; an empty text is a failure to write.
  pub read_certificate : Text → Option Certificate
  pub read_key : Text → Option Key
  pub certificate_pem : Certificate → Text
  pub key_pem : Key → Text
  pub generate_key : ℕ → Option Key
  -- X509_sign, and each of the calls that prepare it; `none` if one of them fails.
  pub issue : Request Certificate Key → Option Certificate
  pub key_bits : Key → ℕ
  pub key_matches : Certificate → Key → Bool
  pub is_ca : Certificate → Bool
  pub verifies : Certificate → Key → Bool
  pub public_key : Certificate → Option Key
  pub issued_by : Certificate → Certificate → Bool
  pub self_named : Certificate → Bool
  pub not_before_ahead : Certificate → Bool
  pub not_after_passed : Certificate → Bool
  -- ASN1_TIME_diff from now to the end of validity: days and seconds.
  pub remaining : Certificate → Option (ℤ × ℤ)
  -- The NIDs of the extended key usage, and the alternative names.
  pub usages : Certificate → Option (List ℕ)
  pub alt_names : Certificate → Option (List AltName)
  pub common_name : Certificate → Option Text
  pub expiry_text : Certificate → Text
  pub der : Certificate → List ℕ
  -- Digests in hexadecimal, of a certificate by OpenSSL and of an entry of the trust store by Windows.
  pub sha1 : Certificate → Text
  pub sha256 : Certificate → Text
  pub entry_sha1 : List ℕ → Text
  pub entry_sha256 : List ℕ → Text

abbrev pub root_validity_days : ℕ
root_validity_days = 3652

abbrev pub leaf_validity_days : ℕ
leaf_validity_days = 397

abbrev pub renewal_days : ℤ
renewal_days = pos 30

-- NID_server_auth
abbrev pub nid_server_auth : ℕ
nid_server_auth = 129

module _ (C : Crypto) where
  abbrev pub root_request : C.Key → Request C.Certificate C.Key
  root_request key = record {
    version = 2;
    serial_bits = 128;
    valid_seconds = root_validity_days * 24 * 60 * 60;
    key = key;
    common_name = codes "Appytizer Local Development Root CA";
    issuer = none;
    extensions =
        (codes "basicConstraints", codes "critical,CA:TRUE,pathlen:0")
        ∷ (codes "keyUsage", codes "critical,keyCertSign,cRLSign")
        ∷ (codes "subjectKeyIdentifier", codes "hash")
        ∷ (codes "authorityKeyIdentifier", codes "keyid:always")
        ∷ [];
    signer = key;
  }

  abbrev pub leaf_request : C.Certificate → C.Key → C.Key → Text → Request C.Certificate C.Key
  leaf_request ca ca_key key hostname = record {
    version = 2;
    serial_bits = 128;
    valid_seconds = leaf_validity_days * 24 * 60 * 60;
    key = key;
    common_name = hostname;
    issuer = some ca;
    extensions =
        (codes "basicConstraints", codes "critical,CA:FALSE")
        ∷ (codes "keyUsage", codes "critical,digitalSignature,keyEncipherment")
        ∷ (codes "extendedKeyUsage", codes "serverAuth")
        ∷ (codes "subjectAltName", codes "DNS:" ++ hostname)
        ∷ (codes "subjectKeyIdentifier", codes "hash")
        ∷ (codes "authorityKeyIdentifier", codes "keyid,issuer")
        ∷ [];
    signer = ca_key;
  }

  unfoldable pub is_ca_valid : Option C.Certificate → Option C.Key → Bool
  is_ca_valid none key = false
  is_ca_valid (some certificate) none = false
  is_ca_valid (some certificate) (some key) =
      if ltb (C.key_bits key) 3072
        || (not (C.key_matches certificate key)
            || (not (C.is_ca certificate)
                || (C.not_after_passed certificate || not (C.verifies certificate key))))
      then false
      else C.self_named certificate

  -- The loop over the usages: the name says "exact", the code looks for the one among others.
  unfoldable pub has_exact_server_auth : C.Certificate → Bool
  has_exact_server_auth certificate = elim (C.usages certificate) [
    | none ↦ false
    | some usages ↦ any (λ nid. nid == nid_server_auth) usages
  ]

  sole_name : Text → List AltName → Bool
  sole_name hostname (dns_name name ∷ []) = text_eq name hostname
  sole_name hostname _ = false

  unfoldable pub has_exact_san : C.Certificate → Text → Bool
  unfolding sole_name
  has_exact_san certificate hostname = elim (C.alt_names certificate) [
    | none ↦ false
    | some names ↦ sole_name hostname names
  ]

  unfoldable pub expires_within : C.Certificate → ℤ → Bool
  expires_within certificate days = elim (C.remaining certificate) [
    | none ↦ true
    | some (left, seconds) ↦ ltb_ℤ left days || (eqb_ℤ left days && not (ltb_ℤ (pos 0) seconds))
  ]
