-- ===== src/Tls/Leaf.antt =====
-- CertificateManager: the certificates of the sites.
use appytizer_app_server.Base.{
  ℕ, Bool, true, false, not, ◌||◌, ◌&&◌, List, [], ◌∷◌, ◌++◌, Option, none, some, Text, codes,
  text_eq, is_empty, ltb, if◌then◌else◌,
}
use appytizer_app_server.Base.Int.{ℤ, pos}
use appytizer_app_server.Common.Json.{JsonLib}
use appytizer_app_server.Tls.Hostname.{valid_hostname}
use appytizer_app_server.Tls.Crypto.{
  Crypto, leaf_request, renewal_days, is_ca_valid, has_exact_server_auth, has_exact_san,
  expires_within,
}
use appytizer_app_server.Tls.Disk.{
  System, Manager, Files, Op, Reply, succeeded, failed, continue, ◌>>◌, fail_with, read_file,
  atomic_write, ca_certificate_path, ca_private_key_path, certificate_path, private_key_path,
}
use appytizer_app_server.Tls.Trust.{load_certificate}
use appytizer_app_server.Tls.Authority.{load_private_key, ensure_ca_files, cleared}
pub mod Issued
pub mod Restricted

module _ (J : JsonLib) (C : Crypto) (S : System) where
  abbrev has_common_name : C.Certificate → Text → Bool
  has_common_name certificate hostname = elim (C.common_name certificate) [
    | none ↦ false
    | some name ↦ text_eq name hostname
  ]

  -- The tests of site_certificate_valid, once all four files are loaded.
  unfoldable pub leaf_valid : C.Certificate → C.Certificate → C.Key → C.Key → Text → ℤ → Bool
  unfolding expires_within has_exact_san has_exact_server_auth
  leaf_valid ca certificate key issuer_key hostname days =
      if ltb (C.key_bits key) 2048
        || (not (C.key_matches certificate key)
            || (not (C.issued_by ca certificate)
                || (not (C.verifies certificate issuer_key)
                    || (C.not_before_ahead certificate
                        || (expires_within C certificate days
                            || (not (has_exact_san C certificate hostname)
                                || not (has_exact_server_auth C certificate)))))))
      then false
      else has_common_name certificate hostname

  unfoldable pub site_certificate_valid : Files → Text → ℤ → Bool
  unfolding leaf_valid
  site_certificate_valid files hostname days =
      elim (load_certificate J C S files ca_certificate_path) [
        | none ↦ false
        | some ca ↦ elim (load_certificate J C S files (certificate_path hostname)) [
          | none ↦ false
          | some certificate ↦ elim (load_private_key J C S files (private_key_path hostname)) [
            | none ↦ false
            | some key ↦ elim (C.public_key ca) [
              | none ↦ false
              | some issuer_key ↦ leaf_valid ca certificate key issuer_key hostname days
            ]
          ]
        ]
      ]

  write_leaf : C.Key → C.Certificate → Text → Files → Files × Bool
  unfolding atomic_write
  write_leaf key certificate hostname files =
      let (files', written) =
        atomic_write S S.restrict_private_keys (private_key_path hostname) (C.key_pem key) files in
      if is_empty (C.key_pem key) || is_empty (C.certificate_pem certificate)
      then (files, false)
      else if not written
      then (files', false)
      else atomic_write S false (certificate_path hostname) (C.certificate_pem certificate) files'

  issue_leaf :
      Option C.Certificate → Option C.Key → Option C.Key → Text → Option (C.Key × C.Certificate)
  unfolding is_ca_valid
  issue_leaf (some ca) (some ca_key) (some key) hostname =
      if not (is_ca_valid C (some ca) (some ca_key))
      then none
      else elim (C.issue (leaf_request C ca ca_key key hostname)) [
        | none ↦ none
        | some certificate ↦ some (key, certificate)
      ]
  issue_leaf _ _ _ hostname = none

  create_leaf : Text → Files → Files × Bool
  unfolding issue_leaf write_leaf
  create_leaf hostname files =
      elim (issue_leaf (load_certificate J C S files ca_certificate_path)
        (load_private_key J C S files ca_private_key_path) (C.generate_key 2048) hostname) [
          | none ↦ (files, false)
          | some (key, certificate) ↦ write_leaf key certificate hostname files
        ]

  leaf_error : Text → Text
  leaf_error hostname = codes "Could not issue a valid certificate for " ++ (hostname ++ codes ".")

  -- The part behind ensure_ca_files.
  ensure_leaf : Text → Op
  unfolding site_certificate_valid create_leaf leaf_error
  ensure_leaf hostname m =
      let (files, created) = create_leaf hostname m.files in
      let m' : Manager = record m { files = files } in
      if site_certificate_valid m.files hostname renewal_days
      then (m, succeeded)
      else if not created || not (site_certificate_valid files hostname (pos 0))
      then fail_with (leaf_error hostname) m'
      else (m', succeeded)

  unfoldable pub ensure_site_certificate : Text → Op
  unfolding valid_hostname ensure_ca_files ensure_leaf
  ensure_site_certificate hostname m =
      if not (valid_hostname hostname)
      then fail_with (codes "Refused to issue a certificate for an invalid exact .test hostname.")
          (cleared J C S m)
      else (ensure_ca_files J C S >> ensure_leaf hostname) (cleared J C S m)

  unfoldable pub certificate_needs_renewal : Files → Text → ℤ → Bool
  unfolding site_certificate_valid
  certificate_needs_renewal files hostname days = not (site_certificate_valid files hostname days)
