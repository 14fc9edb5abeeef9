-- ===== src/Sites/Registry/Atomic.antt =====
-- SiteRegistry::rescan replaces the whole table or leaves it alone.
use mathlib.Core.List.{Perm, append-nil}
use mathlib.Core.List.Perm
use appytizer_app_server.Base.{
  ◌≡◌, refl, sym, ◌⊎◌, inl, inr, Bool, true, false, List, [], ◌∷◌, ◌++◌, append_assoc, map, arith,
  none, some, Option-cases,
}
use appytizer_app_server.Sites.Scan.{ScannedSite, Folder, scan, annotate}
use appytizer_app_server.Sites.Database.{Database, IsLawful}
use appytizer_app_server.Sites.Registry.{
  to_site, insert_sites, begin_and_delete, commit_or_rollback, replace_rows, rescan, list,
}

module _ (D : Database) where
  -- The new rows, with no transaction left open, or the old rows.
  abbrev pub Replaced : List ScannedSite → D.State → D.State × Bool → Type 0
  Replaced sites s (t, ok) =
      ((ok ≡ true) × (D.rows t ≡ sites) × (D.is_open t ≡ false))
      ⊎ ((ok ≡ false) × (D.rows t ≡ D.rows s))

module _ (D : Database) (L : IsLawful D) where
  saved-insert_sites :
      (sites : List ScannedSite) (s : D.State) → D.saved (insert_sites D sites s).0 ≡ D.saved s
  unfolding insert_sites
  saved-insert_sites [] s = refl
  saved-insert_sites (r ∷ sites) s =
      ground (arith, L.insert_saved s r, saved-insert_sites sites (D.insert_site s r).0)

  rows-insert_sites :
      (sites : List ScannedSite) (s : D.State)
      → (insert_sites D sites s).1 ≡ true
      → D.rows (insert_sites D sites s).0 ≡ D.rows s ++ sites
  unfolding insert_sites
  rows-insert_sites [] s h = sym (append-nil (D.rows s))
  rows-insert_sites (r ∷ sites) s h = ground (
    arith,
    L.insert_works s r,
    rows-insert_sites sites (D.insert_site s r).0,
    append_assoc (D.rows s) (r ∷ []) sites,
  )

  commit_or_rollback-Replaced :
      (sites : List ScannedSite) (s t : D.State) (ok : Bool)
      → D.saved t ≡ D.rows s
      → (ok ≡ true → D.rows t ≡ sites)
      → Replaced D sites s (commit_or_rollback D (t, ok))
  unfolding commit_or_rollback
  commit_or_rollback-Replaced sites s t ok kept full = ground (
    arith,
    L.rollback_works t,
    L.rollback_works (D.commit t).0,
    L.commit_fails t,
    L.commit_works t,
  )

  replace_rows-Replaced :
      (sites : List ScannedSite) (s : D.State) → Replaced D sites s (replace_rows D sites s)
  unfolding replace_rows begin_and_delete
  replace_rows-Replaced sites s =
      let b = (D.begin_immediate s).0 in
      let d = (D.delete_sites b).0 in
      ground (
        arith,
        L.begin_fails s,
        L.begin_works s,
        L.delete_fails b,
        L.delete_works b,
        L.rollback_works d,
        saved-insert_sites sites d,
        rows-insert_sites sites d,
        commit_or_rollback-Replaced sites s (insert_sites D sites d).0 (insert_sites D sites d).1,
      )

  -- A rescan of an open database either puts exactly the scanned sites, with their errors, into the
  -- table and ends its transaction, or fails and leaves the rows as they were. It fails whenever the
  -- scan does.
  pub rescan-Replaced :
      (folder : Folder) (s : D.State)
      → ((scan folder ≡ none) × (rescan D folder (some s) ≡ (some s, false)))
        ⊎ ((scanned : List ScannedSite) × (t : D.State) × (ok : Bool) × (scan folder ≡ some scanned)
            × (rescan D folder (some s) ≡ (some t, ok))
            × Replaced D (annotate scanned) s (t, ok))
  unfolding rescan
  rescan-Replaced folder s = elim (Option-cases (scan folder)) [
    | inl e ↦ inl (e, rw (e, rescan))
    | inr (scanned, e) ↦ inr (
      scanned,
      (replace_rows D (annotate scanned) s).0,
      (replace_rows D (annotate scanned) s).1,
      e,
      rw (e, rescan),
      replace_rows-Replaced (annotate scanned) s,
    )
  ]

  -- What `list` then reports is the table in some order.
  pub list-perm :
      (s : D.State) → D.prepare_select s ≡ true → Perm (list D (some s)) (map to_site (D.rows s))
  unfolding list
  list-perm s h = rw (h, list) (Perm.map to_site (L.select_perm s))

  -- If the BEGIN of a rescan works and its DELETE fails in such a way that SQLite keeps the transaction
  -- open, then the rescan leaves it open: it fails, and every later one fails and changes nothing.
  pub rescan_stuck :
      (folder later : Folder) (s : D.State) (scanned : List ScannedSite)
      → scan folder ≡ some scanned
      → (D.begin_immediate s).1 ≡ true
      → (D.delete_sites (D.begin_immediate s).0).1 ≡ false
      → D.is_open (D.delete_sites (D.begin_immediate s).0).0 ≡ true
      → let stuck = (rescan D folder (some s)).0 in
        ((rescan D folder (some s)).1 ≡ false) × (rescan D later stuck ≡ (stuck, false))
  unfolding rescan replace_rows begin_and_delete
  rescan_stuck folder later s scanned e begun refused kept =
      let d = (D.delete_sites (D.begin_immediate s).0).0 in
      rw (e, rescan) (ground (arith, L.begin_nested d, L.begin_fails d))
