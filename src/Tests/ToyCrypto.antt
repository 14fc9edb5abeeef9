-- ===== src/Tests/ToyCrypto.antt =====
-- A concrete Crypto whose keys are their own size, and a system where nothing fails.
use mathlib.Core.Option.{some-injective}
use appytizer_app_server.Base.{
  ℕ, ◌≡◌, refl, subst, true, false, [], ◌∷◌, arith, Option, none, some, Text, codes, if◌then◌else◌,
  ltb, ◌==◌,
}
use appytizer_app_server.Base.Int.{pos}
use appytizer_app_server.Tls.Crypto.{Crypto, dns_name}
use appytizer_app_server.Tls.Disk.{System, Manager}
use appytizer_app_server.Tls.Authority.Valid.{MakesRoots}

-- `ca` is 1 for a root.
pub record ToyCertificate : Type 0 where
  pub ca : ℕ
  pub key : ℕ
  pub signer : ℕ
  pub name : Text

abbrev toy_pem : ToyCertificate → Text
toy_pem c = b'C' ∷ c.ca ∷ c.key ∷ c.signer ∷ c.name

abbrev read_toy_certificate : Text → Option ToyCertificate
read_toy_certificate (mark ∷ ca ∷ key ∷ signer ∷ name) =
    if mark == b'C'
    then some (record { ca = ca; key = key; signer = signer; name = name })
    else none
read_toy_certificate _ = none

abbrev read_toy_key : Text → Option ℕ
read_toy_key (mark ∷ k ∷ []) = if mark == b'K' then some k else none
read_toy_key _ = none

abbrev is_root : Option ToyCertificate → ℕ
is_root none = 1
is_root (some issuer) = 0

abbrev pub toy_crypto : Crypto
toy_crypto = record {
  Certificate = ToyCertificate;
  Key = ℕ;
  read_certificate = read_toy_certificate;
  read_key = read_toy_key;
  certificate_pem = toy_pem;
  key_pem = λ k. b'K' ∷ k ∷ [];
  generate_key = λ bits. some bits;
  issue = λ r.
      some (record { ca = is_root r.issuer; key = r.key; signer = r.signer; name = r.common_name });
  key_bits = λ k. k;
  key_matches = λ c k. c.key == k;
  is_ca = λ c. c.ca == 1;
  verifies = λ c k. c.signer == k;
  public_key = λ c. some c.key;
  issued_by = λ ca c. c.signer == ca.key;
  self_named = λ c. c.ca == 1;
  not_before_ahead = λ c. false;
  not_after_passed = λ c. false;
  remaining = λ c. some (pos 397, pos 0);
  usages = λ c. some (129 ∷ []);
  alt_names = λ c. some (dns_name c.name ∷ []);
  common_name = λ c. some c.name;
  expiry_text = λ c. codes "2027-01-01";
  der = toy_pem;
  sha1 = λ c. 1 ∷ toy_pem c;
  sha256 = λ c. 2 ∷ toy_pem c;
  entry_sha1 = λ e. 1 ∷ e;
  entry_sha256 = λ e. 2 ∷ e;
}

eqb_refl : (n : ℕ) → (n == n) ≡ true
eqb_refl n = ground arith

pub toy_crypto-MakesRoots : MakesRoots toy_crypto
toy_crypto-MakesRoots = record {
  reads_certificate = λ c. refl;
  reads_key = λ k. refl;
  has_bits = λ k e. subst (λ n. ltb n 3072 ≡ false) (some-injective 3072 k e) refl;
  issues = λ k c e.
      subst
        (λ (d : ToyCertificate).
          ((d.key == k) ≡ true)
          × ((d.ca == 1) ≡ true)
          × ((d.signer == k) ≡ true)
          × (false ≡ false)
          × ((d.ca == 1) ≡ true))
        (some-injective
          (record {
            ca = 1;
            key = k;
            signer = k;
            name = codes "Appytizer Local Development Root CA";
          })
          c e)
        (eqb_refl k, refl, eqb_refl k, refl, refl);
}

abbrev pub sound_system : System
sound_system = record {
  write = λ path. record {
    directory = false;
    opening = false;
    writing = false;
    restricting = false;
    moving = false;
  };
  restrict_private_keys = true;
  create_directory_fails = false;
  directory_exists = record { value = true; failed = false };
  store_opens = true;
  store_reads = true;
  add_fails = false;
  delete_fails = false;
  remove_all_fails = false;
  debris = λ files. files;
}

abbrev pub fresh_manager : Manager
fresh_manager = record { files = []; trust = codes "other" ∷ []; last_error = codes "old" }
