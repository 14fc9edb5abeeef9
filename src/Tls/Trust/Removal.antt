-- ===== src/Tls/Trust/Removal.antt =====
-- What the removal of the trust entry takes out of the store.
use mathlib.Core.Option.{none-ne-some, some-injective}
use appytizer_app_server.Base.{
  ℕ, ◌≡◌, refl, sym, ap, ◌∙◌, subst, ◌⊎◌, inl, inr, Bool, true, not, ◌||◌, List, [], ◌∷◌, ◌++◌,
  some, Option-cases, Bool-cases, arith, Text, codes, text_eq, text_eq_iff, is_empty,
}
use appytizer_app_server.Common.Json.{JsonLib}
use appytizer_app_server.Tls.Crypto.{Crypto}
use appytizer_app_server.Tls.Disk.{
  System, Manager, Reply, succeeded, failed, thrown, continue, read_file, metadata_path,
}
use appytizer_app_server.Tls.Trust.{
  delete_first, some_match, load_metadata, recorded, delete_recorded, remove_digests, no_metadata,
  remove_recorded_trust_entry, remove, remove_files,
}

delete_first-split :
    (matches : List ℕ → Bool) (entries : List (List ℕ))
    → some_match matches entries ≡ true
    → (before : List (List ℕ)) × (entry : List ℕ) × (after : List (List ℕ)) × (entries
        ≡ before ++ (entry ∷ after))
      × (delete_first matches entries ≡ before ++ after)
      × (matches entry ≡ true)
unfolding delete_first
delete_first-split matches [] h = absurd (cc)
delete_first-split matches (e ∷ es) h = elim (Bool-cases (matches e)) [
  | inl hit ↦ ([], e, es, refl, rw hit refl, hit)
  | inr miss ↦
      let (before, entry, after, p, q, r) = delete_first-split matches es (ground arith) in
      (e ∷ before, entry, after, ap (◌∷◌ e) p, rw miss (ap (◌∷◌ e) q), r)
]

module _ (J : JsonLib) (C : Crypto) where
  -- Nothing was taken out, or one entry, whose two digests are the ones that the metadata file of the
  -- certificate directory records, in which Appytizer is the owner.
  abbrev pub TookRecorded : Manager → List (List ℕ) → Type 0
  TookRecorded m trust =
      (trust ≡ m.trust)
      ⊎ ((before : List (List ℕ)) × (entry : List ℕ) × (after : List (List ℕ)) × (metadata : J.Json)
          × (m.trust ≡ before ++ (entry ∷ after))
          × (trust ≡ before ++ after)
          × (J.parse (read_file m.files metadata_path) ≡ some metadata)
          × (J.value_string metadata (codes "owner") [] ≡ some (codes "Appytizer"))
          × (J.value_string metadata (codes "sha1_thumbprint") [] ≡ some (C.entry_sha1 entry))
          × (J.value_string metadata (codes "sha256") [] ≡ some (C.entry_sha256 entry)))

module _ (J : JsonLib) (C : Crypto) (S : System) where
  load_metadata-owner :
      (m : Manager) (metadata : J.Json)
      → load_metadata J C S m.files ≡ some metadata
      → (J.parse (read_file m.files metadata_path) ≡ some metadata)
        × (J.value_string metadata (codes "owner") [] ≡ some (codes "Appytizer"))
  unfolding load_metadata
  load_metadata-owner m metadata h =
      elim (Option-cases (J.parse (read_file m.files metadata_path))) [
        | inl e ↦ absurd (none-ne-some metadata (sym (rw (load_metadata, e)) ∙ h))
        | inr (json, e) ↦ elim (Option-cases (J.value_string json (codes "owner") [])) [
          | inl o ↦ absurd (none-ne-some metadata (sym (rw (load_metadata, e, o)) ∙ h))
          | inr (owner, o) ↦ elim (Bool-cases (text_eq owner (codes "Appytizer"))) [
            | inl same ↦
                let p : some json ≡ some metadata = sym (rw (load_metadata, e, o, same)) ∙ h in
                (
                  e ∙ p,
                  subst (λ j. J.value_string j (codes "owner") [] ≡ some (codes "Appytizer"))
                      (some-injective json metadata p)
                      (o ∙ ap some ((text_eq_iff owner (codes "Appytizer")).0 same)),
                )
            | inr other ↦ absurd (none-ne-some metadata (sym (rw (load_metadata, e, o, other)) ∙ h))
          ]
        ]
      ]

  remove_digests-TookRecorded :
      (m : Manager) (metadata : J.Json) (sha1 sha256 : Text)
      → J.parse (read_file m.files metadata_path) ≡ some metadata
      → J.value_string metadata (codes "owner") [] ≡ some (codes "Appytizer")
      → J.value_string metadata (codes "sha1_thumbprint") [] ≡ some sha1
      → J.value_string metadata (codes "sha256") [] ≡ some sha256
      → TookRecorded J C m (remove_digests J C S sha1 sha256 m).0.trust
  unfolding remove_digests delete_recorded
  remove_digests-TookRecorded m metadata sha1 sha256 stands o a b =
      elim (Bool-cases (some_match (recorded J C S sha1 sha256) m.trust)) [
        | inr absent ↦ inl (ground arith)
        | inl present ↦
            let (before, entry, after, p, q, r) =
              delete_first-split (recorded J C S sha1 sha256) m.trust present in
            elim (Bool-cases
              (is_empty sha1 || (is_empty sha256 || (not S.store_opens || S.delete_fails)))) [
                | inl stopped ↦ inl (ground arith)
                | inr done ↦ inr (
                  before,
                  entry,
                  after,
                  metadata,
                  p,
                  ground arith,
                  stands,
                  o,
                  ground (arith, text_eq_iff (C.entry_sha1 entry) sha1),
                  ground (arith, text_eq_iff (C.entry_sha256 entry) sha256),
                )
              ]
      ]

  no_metadata-trust : (m : Manager) → (no_metadata J C S m).0.trust ≡ m.trust
  unfolding no_metadata
  no_metadata-trust m = ground arith

  remove_recorded_trust_entry-TookRecorded :
      (m : Manager) → TookRecorded J C m (remove_recorded_trust_entry J C S m).0.trust
  unfolding remove_recorded_trust_entry
  remove_recorded_trust_entry-TookRecorded m = elim (Option-cases (load_metadata J C S m.files)) [
    | inl e ↦ inl (rw (e, remove_recorded_trust_entry) (no_metadata-trust m))
    | inr (metadata, e) ↦
        elim (Option-cases (J.value_string metadata (codes "sha1_thumbprint") [])) [
          | inl a ↦ inl (rw (e, remove_recorded_trust_entry, a))
          | inr (sha1, a) ↦ elim (Option-cases (J.value_string metadata (codes "sha256") [])) [
            | inl b ↦ inl (rw (e, remove_recorded_trust_entry, a, b))
            | inr (sha256, b) ↦
                let (stands, owner) = load_metadata-owner m metadata e in
                rw (e, remove_recorded_trust_entry, a, b)
                  (remove_digests-TookRecorded m metadata sha1 sha256 stands owner a b)
          ]
        ]
  ]

  continue-remove_files :
      (r : Manager × Reply) → (continue (remove_files J C S) r).0.trust ≡ r.0.trust
  unfolding remove_files
  continue-remove_files (m, succeeded) = ground arith
  continue-remove_files (m, failed) = refl
  continue-remove_files (m, thrown) = refl

  -- Removing the certificates takes at most one entry out of the trust store, whatever the outcome:
  -- one whose SHA-1 and SHA-256 digests are both those that the metadata file of the manager's directory
  -- records, if that file reads as JSON with Appytizer as its owner. All other entries stay, in their order.
  pub remove-TookRecorded : (m : Manager) → TookRecorded J C m (remove J C S m).0.trust
  unfolding remove
  remove-TookRecorded m =
      let cleared : Manager = record m { last_error = [] } in
      subst (λ t. TookRecorded J C m t)
        (sym (continue-remove_files (remove_recorded_trust_entry J C S cleared)))
        (remove_recorded_trust_entry-TookRecorded cleared)
