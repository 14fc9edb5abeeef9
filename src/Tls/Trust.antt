-- ===== src/Tls/Trust.antt =====
-- CertificateManager: the entry in LocalMachine\Root.
use appytizer_app_server.Base.{
  ℕ, Bool, true, false, not, ◌||◌, ◌&&◌, List, [], ◌∷◌, ◌++◌, Option, none, some, Text, codes,
  text_eq, text_mem, is_empty, if◌then◌else◌,
}
use appytizer_app_server.Common.Json.{JsonLib}
use appytizer_app_server.Tls.Crypto.{Crypto}
use appytizer_app_server.Tls.Disk.{
  System, Manager, Files, Op, Reply, succeeded, failed, thrown, reply_of, ◌>>◌, fail_with,
  read_file, ca_certificate_path, metadata_path,
}
pub mod Removal
pub mod Unchanged

-- The first entry with both digests, deleted from the store: what is left, and whether there was one.
delete_first : (List ℕ → Bool) → List (List ℕ) → List (List ℕ)
delete_first matches [] = []
delete_first matches (entry ∷ entries) =
    if matches entry then entries else entry ∷ delete_first matches entries

abbrev pub some_match : (List ℕ → Bool) → List (List ℕ) → Bool
some_match matches [] = false
some_match matches (entry ∷ entries) = matches entry || some_match matches entries

module _ (J : JsonLib) (C : Crypto) (S : System) where
  -- `none` where the file is missing, is no JSON or has another owner; the conversion of `owner`
  -- may throw, and load_metadata catches that.
  unfoldable pub load_metadata : Files → Option J.Json
  load_metadata files = elim (J.parse (read_file files metadata_path)) [
    | none ↦ none
    | some json ↦ elim (J.value_string json (codes "owner") []) [
      | none ↦ none
      | some owner ↦ if text_eq owner (codes "Appytizer") then some json else none
    ]
  ]

  abbrev pub load_certificate : Files → Text → Option C.Certificate
  load_certificate files path = C.read_certificate (read_file files path)

  -- The DER encoding of the CA certificate; empty if there is none.
  unfoldable pub ca_der : Files → List ℕ
  ca_der files = elim (load_certificate files ca_certificate_path) [
    | none ↦ []
    | some certificate ↦ C.der certificate
  ]

  unfoldable pub install_trust_entry : Op
  unfolding ca_der
  install_trust_entry m =
      let der = ca_der m.files in
      let added : Manager = record m { trust = m.trust ++ (der ∷ []) } in
      if not S.store_opens || is_empty der
      then fail_with
          (codes
            "Could not open the LocalMachine root certificate store. Run TLS repair as administrator.")
          m
      else if text_mem der m.trust
      then (m, succeeded)
      else if S.add_fails
      then fail_with (codes "Could not trust the Appytizer root CA in LocalMachine\\Root.") m
      else (added, succeeded)

  unfoldable pub is_trusted : Manager → Bool
  unfolding ca_der
  is_trusted m =
      let der = ca_der m.files in
      if not S.store_reads || is_empty der then false else text_mem der m.trust

  abbrev recorded : Text → Text → List ℕ → Bool
  recorded sha1 sha256 entry =
      text_eq (C.entry_sha1 entry) sha1 && text_eq (C.entry_sha256 entry) sha256

  -- The loop over the store: it stops at the first entry with both digests.
  delete_recorded : Text → Text → Op
  unfolding delete_first
  delete_recorded sha1 sha256 m =
      let matches = recorded sha1 sha256 in
      let deleted : Manager = record m { trust = delete_first matches m.trust } in
      if not S.store_opens
      then fail_with (codes "Could not open LocalMachine\\Root to remove the Appytizer CA.") m
      else if not (some_match matches m.trust)
      then (m, succeeded)
      else if S.delete_fails
      then fail_with (codes "Could not remove the exact recorded Appytizer CA trust entry.") m
      else (deleted, succeeded)

  remove_digests : Text → Text → Op
  unfolding delete_recorded
  remove_digests sha1 sha256 m =
      if is_empty sha1 || is_empty sha256
      then fail_with
          (codes "Appytizer CA ownership metadata is incomplete; no trust entry was removed.") m
      else delete_recorded sha1 sha256 m

  -- Without metadata: a directory that is not there has nothing to remove.
  no_metadata : Op
  no_metadata m =
      if not S.directory_exists.value
      then (m, reply_of (not S.directory_exists.failed))
      else fail_with
          (codes
            "Appytizer CA ownership metadata is missing; no trust entry or certificate file was removed.")
          m

  unfoldable pub remove_recorded_trust_entry : Op
  unfolding load_metadata remove_digests no_metadata
  remove_recorded_trust_entry m = elim (load_metadata m.files) [
    | none ↦ no_metadata m
    | some metadata ↦ elim (J.value_string metadata (codes "sha1_thumbprint") []) [
      | none ↦ (m, thrown)
      | some sha1 ↦ elim (J.value_string metadata (codes "sha256") []) [
        | none ↦ (m, thrown)
        | some sha256 ↦ remove_digests sha1 sha256 m
      ]
    ]
  ]

  remove_files : Op
  remove_files m =
      if S.remove_all_fails
      then fail_with
          (codes
            "The trust entry was removed, but Appytizer certificate files could not be deleted.")
          (record m { files = S.debris m.files })
      else (record m { files = [] }, succeeded)

  -- remove(): the files go once the trust entry is gone.
  unfoldable pub remove : Op
  unfolding remove_recorded_trust_entry remove_files
  remove m = (remove_recorded_trust_entry >> remove_files) (record m { last_error = [] })
