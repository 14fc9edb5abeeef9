-- ===== src/Tls/Authority.antt =====
-- CertificateManager: the certificate authority's files, and provision().
use appytizer_app_server.Base.{
  Bool, true, false, not, ◌||◌, ◌&&◌, List, [], ◌∷◌, Option, none, some, Text, codes, text_eq,
  is_empty, if◌then◌else◌,
}
use appytizer_app_server.Common.Json.{JsonLib}
use appytizer_app_server.Tls.Crypto.{Crypto, root_request, is_ca_valid}
use appytizer_app_server.Tls.Disk.{
  System, Manager, Files, Op, Reply, succeeded, failed, thrown, continue, ◌>>◌, fail_with,
  read_file, atomic_write, ca_certificate_path, ca_private_key_path, metadata_path,
}
use appytizer_app_server.Tls.Trust.{
  load_metadata, load_certificate, install_trust_entry, remove_recorded_trust_entry,
}
pub mod Restricted
pub mod Valid

module _ (J : JsonLib) (C : Crypto) (S : System) where
  abbrev pub load_private_key : Files → Text → Option C.Key
  load_private_key files path = C.read_key (read_file files path)

  unfoldable pub ca_files_valid : Files → Bool
  unfolding is_ca_valid
  ca_files_valid files =
      is_ca_valid C (load_certificate J C S files ca_certificate_path)
        (load_private_key files ca_private_key_path)

  -- The key, and then the certificate.
  write_root : C.Key → C.Certificate → Files → Files × Bool
  unfolding atomic_write
  write_root key certificate files =
      let (files', written) =
        atomic_write S S.restrict_private_keys ca_private_key_path (C.key_pem key) files in
      if is_empty (C.key_pem key) || is_empty (C.certificate_pem certificate)
      then (files, false)
      else if not written
      then (files', false)
      else atomic_write S false ca_certificate_path (C.certificate_pem certificate) files'

  unfoldable pub create_root : Files → Files × Bool
  unfolding write_root
  create_root files = elim (C.generate_key 3072) [
    | none ↦ (files, false)
    | some key ↦ elim (C.issue (root_request C key)) [
      | none ↦ (files, false)
      | some certificate ↦ write_root key certificate files
    ]
  ]

  abbrev pub metadata_of : C.Certificate → J.Json
  metadata_of certificate = J.object (
      (codes "owner", J.string (codes "Appytizer"))
      ∷ (codes "sha1_thumbprint", J.string (C.sha1 certificate))
      ∷ (codes "sha256", J.string (C.sha256 certificate))
      ∷ [])

  unfoldable pub save_metadata : C.Certificate → Op
  unfolding atomic_write
  save_metadata certificate m =
      let (files, written) =
        atomic_write S false metadata_path (J.dump_indented (metadata_of certificate)) m.files in
      if written
      then (record m { files = files }, succeeded)
      else fail_with (codes "Could not record Appytizer CA ownership metadata.")
          (record m { files = files })

  -- The comparison of the recorded digests; `none` is an exception.
  abbrev digests_match : J.Json → C.Certificate → Option Bool
  digests_match metadata certificate = elim (J.value_string metadata (codes "sha1_thumbprint") []) [
    | none ↦ none
    | some sha1 ↦
        if not (text_eq sha1 (C.sha1 certificate))
        then some false
        else elim (J.value_string metadata (codes "sha256") []) [
          | none ↦ none
          | some sha256 ↦ some (text_eq sha256 (C.sha256 certificate))
        ]
  ]

  abbrev metadata_matches : Files → C.Certificate → Option Bool
  metadata_matches files certificate = elim (load_metadata J C S files) [
    | none ↦ some false
    | some metadata ↦ digests_match metadata certificate
  ]

  -- The branch for CA files that are valid already.
  keep_root : C.Certificate → Op
  unfolding save_metadata load_metadata
  keep_root certificate m = elim (metadata_matches m.files certificate) [
    | none ↦ (m, thrown)
    | some true ↦ (m, succeeded)
    | some false ↦ save_metadata certificate m
  ]

  retire_root : Op
  unfolding load_metadata remove_recorded_trust_entry
  retire_root m = elim (load_metadata J C S m.files) [
    | none ↦ (m, succeeded)
    | some metadata ↦ remove_recorded_trust_entry J C S m
  ]

  new_root : Op
  unfolding create_root save_metadata
  new_root m =
      let (files, created) = create_root m.files in
      let m' : Manager = record m { files = files } in
      if S.create_directory_fails
      then fail_with (codes "Could not create the Appytizer root CA files.") m
      else if not created
      then fail_with (codes "Could not create the Appytizer root CA files.") m'
      else elim (load_certificate J C S files ca_certificate_path) [
        | none ↦ fail_with (codes "Could not record Appytizer CA ownership metadata.") m'
        | some certificate ↦ save_metadata certificate m'
      ]

  renew_root : Op
  unfolding retire_root new_root
  renew_root = retire_root >> new_root

  -- With valid files there is a certificate to compare (the clause without one is never met);
  -- otherwise the CA is made anew.
  ensure_ca_files_with : Bool → Option C.Certificate → Op
  unfolding keep_root renew_root
  ensure_ca_files_with true (some certificate) m = keep_root certificate m
  ensure_ca_files_with true none m = renew_root m
  ensure_ca_files_with false certificate m = renew_root m

  unfoldable pub ensure_ca_files : Op
  unfolding ca_files_valid ensure_ca_files_with
  ensure_ca_files m =
      ensure_ca_files_with (ca_files_valid m.files)
        (load_certificate J C S m.files ca_certificate_path) m

  abbrev pub cleared : Manager → Manager
  cleared m = record m { last_error = [] }

  unfoldable pub provision : Op
  unfolding ensure_ca_files install_trust_entry
  provision m = (ensure_ca_files >> install_trust_entry J C S) (cleared m)

  unfoldable pub provision_files_only : Op
  unfolding ensure_ca_files
  provision_files_only m = ensure_ca_files (cleared m)
