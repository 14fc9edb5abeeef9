-- ===== src/Tls/Authority/Restricted.antt =====
-- The manager puts no private key in place that others than SYSTEM and Administrators can read.
use appytizer_app_server.Base.{
  ◌≡◌, refl, inl, inr, Bool, true, false, not, ◌||◌, ◌&&◌, [], ◌∷◌, arith, Option, none, some, Text,
  codes, ends_with, text_eq, text_eq_iff, Bool-cases, Option-cases,
}
use appytizer_app_server.Base.Dict.{insert}
use appytizer_app_server.Common.Json.{JsonLib}
use appytizer_app_server.Tls.Crypto.{Crypto, root_request}
use appytizer_app_server.Tls.Disk.{
  System, Manager, Files, StoredFile, Op, Reply, succeeded, failed, thrown, continue, atomic_write,
  ca_certificate_path, ca_private_key_path, metadata_path,
}
use appytizer_app_server.Tls.Trust.{load_certificate}
use appytizer_app_server.Tls.Trust.Unchanged.{remove_recorded_trust_entry-files}
use appytizer_app_server.Tls.Authority.{
  ca_files_valid, metadata_of, write_root, create_root, save_metadata, keep_root, retire_root,
  new_root, renew_root, ensure_ca_files_with, ensure_ca_files,
}

-- A path of a private key.
abbrev pub is_key_path : Text → Bool
is_key_path path = ends_with (codes ".key.pem") path

-- Every private key that is stored is restricted.
unfoldable pub are_restricted : Files → Bool
are_restricted [] = true
are_restricted ((path, file) ∷ files) =
    (not (is_key_path path) || file.restricted) && are_restricted files

insert-are_restricted :
    (path : Text) (file : StoredFile) (files : Files)
    → (not (is_key_path path) || file.restricted) ≡ true
    → are_restricted files ≡ true
    → are_restricted (insert path file files) ≡ true
unfolding are_restricted insert
insert-are_restricted path file [] safe v = ground arith
insert-are_restricted path file ((other, old) ∷ files) safe v =
    let rest = insert-are_restricted path file files safe in
    elim (Bool-cases (text_eq other path)) [
      | inl same ↦ rw (same, (text_eq_iff other path).0 same) (ground arith)
      | inr new ↦ rw new (ground arith)
    ]

pub atomic_write-are_restricted :
    (S : System) (restrict_access : Bool) (path contents : Text) (files : Files)
    → (not (is_key_path path) || restrict_access) ≡ true
    → are_restricted files ≡ true
    → are_restricted (atomic_write S restrict_access path contents files).0 ≡ true
unfolding atomic_write
atomic_write-are_restricted S restrict_access path contents files safe v =
    let stored : StoredFile = record { contents = contents; restricted = restrict_access } in
    ground (arith, insert-are_restricted path stored files safe v)

-- An operation that keeps the private keys restricted, whatever its outcome.
abbrev pub KeepsRestricted : Op → Type 0
KeepsRestricted op =
    (m : Manager) → are_restricted m.files ≡ true → are_restricted (op m).0.files ≡ true

pub continue-are_restricted :
    (second : Op) (r : Manager × Reply)
    → KeepsRestricted second
    → are_restricted r.0.files ≡ true
    → are_restricted (continue second r).0.files ≡ true
continue-are_restricted second (m, succeeded) k v = k m v
continue-are_restricted second (m, failed) k v = v
continue-are_restricted second (m, thrown) k v = v

module _ (J : JsonLib) (C : Crypto) (S : System) (on : S.restrict_private_keys ≡ true) where
  write_root-are_restricted :
      (k : C.Key) (c : C.Certificate) (files : Files)
      → are_restricted files ≡ true
      → are_restricted (write_root J C S k c files).0 ≡ true
  unfolding write_root
  write_root-are_restricted k c files v =
      let (files1, written) =
        atomic_write S S.restrict_private_keys ca_private_key_path (C.key_pem k) files in
      ground (
        arith,
        atomic_write-are_restricted S S.restrict_private_keys ca_private_key_path (C.key_pem k)
            files (ground (arith, on)) v,
        atomic_write-are_restricted S false ca_certificate_path (C.certificate_pem c) files1 refl,
      )

  create_root-are_restricted :
      (files : Files)
      → are_restricted files ≡ true
      → are_restricted (create_root J C S files).0 ≡ true
  unfolding create_root
  create_root-are_restricted files v = elim (Option-cases (C.generate_key 3072)) [
    | inl e ↦ ground arith
    | inr (k, e) ↦ elim (Option-cases (C.issue (root_request C k))) [
      | inl i ↦ ground arith
      | inr (c, i) ↦ rw (create_root, e, i) (write_root-are_restricted k c files v)
    ]
  ]

  save_metadata-are_restricted : (c : C.Certificate) → KeepsRestricted (save_metadata J C S c)
  unfolding save_metadata
  save_metadata-are_restricted c m v =
      let text = J.dump_indented (metadata_of J C S c) in
      ground (arith, atomic_write-are_restricted S false metadata_path text m.files refl v)

  keep_root-are_restricted : (c : C.Certificate) → KeepsRestricted (keep_root J C S c)
  unfolding keep_root
  keep_root-are_restricted c m v = ground (arith, save_metadata-are_restricted c m v)

  retire_root-are_restricted : KeepsRestricted (retire_root J C S)
  unfolding retire_root
  retire_root-are_restricted m v = ground (arith, remove_recorded_trust_entry-files J C S m)

  new_root-are_restricted : KeepsRestricted (new_root J C S)
  unfolding new_root
  new_root-are_restricted m v =
      let m' : Manager = record m { files = (create_root J C S m.files).0 } in
      let kept = create_root-are_restricted m.files v in
      elim (Option-cases
        (load_certificate J C S (create_root J C S m.files).0 ca_certificate_path)) [
          | inl e ↦ ground (arith, kept)
          | inr (c, e) ↦ ground (arith, kept, save_metadata-are_restricted c m')
        ]

  renew_root-are_restricted : KeepsRestricted (renew_root J C S)
  unfolding renew_root
  renew_root-are_restricted m v =
      continue-are_restricted (new_root J C S) (retire_root J C S m) new_root-are_restricted
        (retire_root-are_restricted m v)

  ensure_ca_files_with-are_restricted :
      (valid : Bool) (found : Option C.Certificate)
      → KeepsRestricted (ensure_ca_files_with J C S valid found)
  unfolding ensure_ca_files_with
  ensure_ca_files_with-are_restricted true (some c) m v = keep_root-are_restricted c m v
  ensure_ca_files_with-are_restricted true none m v = renew_root-are_restricted m v
  ensure_ca_files_with-are_restricted false found m v = renew_root-are_restricted m v

  pub ensure_ca_files-are_restricted : KeepsRestricted (ensure_ca_files J C S)
  unfolding ensure_ca_files
  ensure_ca_files-are_restricted m v =
      ensure_ca_files_with-are_restricted (ca_files_valid J C S m.files)
        (load_certificate J C S m.files ca_certificate_path) m v
