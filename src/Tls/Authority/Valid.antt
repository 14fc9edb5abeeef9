-- ===== src/Tls/Authority/Valid.antt =====
-- CertificateManager::provision leaves CA files that are valid.
use appytizer_app_server.Base.{
  ◌≡◌, refl, ap, ap₂, ◌∙◌, inl, inr, Bool, true, false, arith, Option, none, some, Text,
  Option-cases, ltb, text_eq, text_eq_refl,
}
use appytizer_app_server.Base.Dict.{lookup-insert}
use appytizer_app_server.Common.Json.{JsonLib}
use appytizer_app_server.Tls.Crypto.{Crypto, root_request, is_ca_valid}
use appytizer_app_server.Tls.Disk.{
  System, Manager, Files, Reply, succeeded, failed, thrown, continue, atomic_write, read_file,
  ca_certificate_path, ca_private_key_path, metadata_path,
}
use appytizer_app_server.Tls.Trust.{load_certificate}
use appytizer_app_server.Tls.Authority.{
  ca_files_valid, write_root, create_root, save_metadata, metadata_of, keep_root, retire_root,
  new_root, renew_root, ensure_ca_files_with, ensure_ca_files,
}

-- What OpenSSL documents of a certificate that it has signed for its own key, and of PEM files.
pub record MakesRoots (C : Crypto) : Type 0 where
  pub reads_certificate : (c : C.Certificate) → C.read_certificate (C.certificate_pem c) ≡ some c
  pub reads_key : (k : C.Key) → C.read_key (C.key_pem k) ≡ some k
  pub has_bits : (k : C.Key) → C.generate_key 3072 ≡ some k → ltb (C.key_bits k) 3072 ≡ false
  pub issues :
      (k : C.Key) (c : C.Certificate)
      → C.issue (root_request C k) ≡ some c
      → (C.key_matches c k ≡ true)
        × (C.is_ca c ≡ true)
        × (C.verifies c k ≡ true)
        × (C.not_after_passed c ≡ false)
        × (C.self_named c ≡ true)

atomic_write-read_file :
    (S : System) (restrict_access : Bool) (path contents : Text) (files : Files)
    → (atomic_write S restrict_access path contents files).1 ≡ true
    → read_file (atomic_write S restrict_access path contents files).0 path ≡ contents
unfolding atomic_write
atomic_write-read_file S restrict_access path contents files h = ground (
  arith,
  text_eq_refl path,
  lookup-insert path path (record { contents = contents; restricted = restrict_access }) files,
)

atomic_write-read_file_other :
    (S : System) (restrict_access : Bool) (path contents asked : Text) (files : Files)
    → text_eq path asked ≡ false
    → read_file (atomic_write S restrict_access path contents files).0 asked ≡ read_file files asked
unfolding atomic_write
atomic_write-read_file_other S restrict_access path contents asked files other = ground (
  arith,
  other,
  lookup-insert path asked (record { contents = contents; restricted = restrict_access }) files,
)

module _ (J : JsonLib) (C : Crypto) (S : System) where
  save_metadata-valid :
      (c : C.Certificate) (m : Manager)
      → ca_files_valid J C S (save_metadata J C S c m).0.files ≡ ca_files_valid J C S m.files
  unfolding save_metadata ca_files_valid
  save_metadata-valid c m =
      let text = J.dump_indented (metadata_of J C S c) in
      ground (
        arith,
        atomic_write-read_file_other S false metadata_path text ca_certificate_path m.files refl,
        atomic_write-read_file_other S false metadata_path text ca_private_key_path m.files refl,
      )

  write_root-read_file :
      (k : C.Key) (c : C.Certificate) (files : Files)
      → (write_root J C S k c files).1 ≡ true
      → (read_file (write_root J C S k c files).0 ca_certificate_path ≡ C.certificate_pem c)
        × (read_file (write_root J C S k c files).0 ca_private_key_path ≡ C.key_pem k)
  unfolding write_root
  write_root-read_file k c files h =
      let files1 =
        (atomic_write S S.restrict_private_keys ca_private_key_path (C.key_pem k) files).0 in
      ground (
        arith,
        atomic_write-read_file S S.restrict_private_keys ca_private_key_path (C.key_pem k) files,
        atomic_write-read_file S false ca_certificate_path (C.certificate_pem c) files1,
        atomic_write-read_file_other S false ca_certificate_path (C.certificate_pem c)
            ca_private_key_path files1 refl,
      )

  root-valid :
      MakesRoots C
      → (k : C.Key) (c : C.Certificate) (files : Files) → C.generate_key 3072 ≡ some k
      → C.issue (root_request C k) ≡ some c
      → read_file files ca_certificate_path ≡ C.certificate_pem c
      → read_file files ca_private_key_path ≡ C.key_pem k
      → ca_files_valid J C S files ≡ true
  unfolding ca_files_valid is_ca_valid
  root-valid laws k c files made issued in_file key_in_file =
      let (a, b, d, e, f) = laws.issues k c issued in
      ap₂ (is_ca_valid C) (ap C.read_certificate in_file ∙ laws.reads_certificate c)
        (ap C.read_key key_in_file ∙ laws.reads_key k)
      ∙ rw (is_ca_valid, laws.has_bits k made, a, b, d, e, f) refl

  create_root-valid :
      MakesRoots C
      → (files : Files) → (create_root J C S files).1 ≡ true
      → ca_files_valid J C S (create_root J C S files).0 ≡ true
  unfolding create_root
  create_root-valid laws files h = elim (Option-cases (C.generate_key 3072)) [
    | inl e ↦ ground arith
    | inr (k, e) ↦ elim (Option-cases (C.issue (root_request C k))) [
      | inl i ↦ ground arith
      | inr (c, i) ↦
          let written : create_root J C S files ≡ write_root J C S k c files =
            rw (create_root, e, i) refl in
          let (p, q) = write_root-read_file k c files (ground (arith, written)) in
          rw written (root-valid laws k c (write_root J C S k c files).0 e i p q)
    ]
  ]

  new_root-valid :
      MakesRoots C
      → (m : Manager) → (new_root J C S m).1 ≡ succeeded
      → ca_files_valid J C S (new_root J C S m).0.files ≡ true
  unfolding new_root
  new_root-valid laws m h =
      let m' : Manager = record m { files = (create_root J C S m.files).0 } in
      let valid = create_root-valid laws m.files in
      elim (Option-cases
        (load_certificate J C S (create_root J C S m.files).0 ca_certificate_path)) [
          | inl e ↦ ground (arith, valid)
          | inr (c, e) ↦ ground (arith, valid, save_metadata-valid c m')
        ]

  continue-new_root-valid :
      MakesRoots C
      → (r : Manager × Reply) → (continue (new_root J C S) r).1 ≡ succeeded
      → ca_files_valid J C S (continue (new_root J C S) r).0.files ≡ true
  continue-new_root-valid laws (m, succeeded) h = new_root-valid laws m h
  continue-new_root-valid laws (m, failed) h = cc
  continue-new_root-valid laws (m, thrown) h = cc

  keep_root-valid :
      (c : C.Certificate) (m : Manager)
      → ca_files_valid J C S (keep_root J C S c m).0.files ≡ ca_files_valid J C S m.files
  unfolding keep_root
  keep_root-valid c m = ground (arith, save_metadata-valid c m)

  ensure_ca_files_with-valid :
      MakesRoots C
      → (valid : Bool) (found : Option C.Certificate) (m : Manager)
      → (valid ≡ true → ca_files_valid J C S m.files ≡ true)
      → (ensure_ca_files_with J C S valid found m).1 ≡ succeeded
      → ca_files_valid J C S (ensure_ca_files_with J C S valid found m).0.files ≡ true
  unfolding ensure_ca_files_with renew_root
  ensure_ca_files_with-valid laws true (some c) m v h = keep_root-valid c m ∙ v refl
  ensure_ca_files_with-valid laws true none m v h =
      continue-new_root-valid laws (retire_root J C S m) h
  ensure_ca_files_with-valid laws false found m v h =
      continue-new_root-valid laws (retire_root J C S m) h

  pub ensure_ca_files-valid :
      MakesRoots C
      → (m : Manager) → (ensure_ca_files J C S m).1 ≡ succeeded
      → ca_files_valid J C S (ensure_ca_files J C S m).0.files ≡ true
  unfolding ensure_ca_files
  ensure_ca_files-valid laws m h =
      ensure_ca_files_with-valid laws (ca_files_valid J C S m.files)
        (load_certificate J C S m.files ca_certificate_path) m (λ v. v) h
