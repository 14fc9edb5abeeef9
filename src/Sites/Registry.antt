-- ===== src/Sites/Registry.antt =====
-- SiteRegistry::rescan and SiteRegistry::list in engine/sites/site_registry.cpp, over a database.
use appytizer_app_server.Base.{
  Bool, true, false, not, List, [], ◌∷◌, map, Option, none, some, Text, is_empty, if◌then◌else◌,
}
use appytizer_app_server.Sites.Scan.{ScannedSite, Folder, scan, annotate}
use appytizer_app_server.Sites.Database.{Database}
pub mod Atomic

-- A site as `list` reports it.
pub record Site : Type 0 where
  pub name : Text
  pub hostname : Text
  pub path : Text
  pub type : Text
  pub has_index : Bool
  pub valid : Bool
  pub error : Text

unfoldable pub to_site : ScannedSite → Site
to_site r = record {
  name = r.name;
  hostname = r.hostname;
  path = r.path;
  type = r.type;
  has_index = r.has_index;
  valid = is_empty r.error;
  error = r.error;
}

module _ (D : Database) where
  -- The loop over the scanned sites: it stops at the first row that is not inserted.
  insert_sites : List ScannedSite → D.State → D.State × Bool
  insert_sites [] s = (s, true)
  insert_sites (site ∷ sites) s =
      let (s', done) = D.insert_site s site in
      let rest = insert_sites sites s' in if not done then (s', false) else rest

  -- `sqlite3_exec` of both statements: the second runs if the first succeeds.
  begin_and_delete : D.State → D.State × Bool
  begin_and_delete s =
      let (s', begun) = D.begin_immediate s in if begun then D.delete_sites s' else (s', false)

  commit_or_rollback : D.State × Bool → D.State × Bool
  commit_or_rollback (s, inserted) =
      let (t, committed) = D.commit s in
      if not inserted
      then ((D.rollback s).0, false)
      else if not committed
      then ((D.rollback t).0, false)
      else (t, true)

  replace_rows : List ScannedSite → D.State → D.State × Bool
  unfolding insert_sites begin_and_delete commit_or_rollback
  replace_rows sites s =
      let (s', begun) = begin_and_delete s in
      if not begun
      then (s', false)
      else if not (D.prepare_insert s')
      then ((D.rollback s').0, false)
      else commit_or_rollback (insert_sites sites s')

  -- `none` is a database that could not be opened.
  unfoldable pub rescan : Folder → Option D.State → Option D.State × Bool
  unfolding replace_rows scan annotate
  rescan folder none = (none, false)
  rescan folder (some s) = elim (scan folder) [
    | none ↦ (some s, false)
    | some scanned ↦ let (s', done) = replace_rows (annotate scanned) s in (some s', done)
  ]

  unfoldable pub list : Option D.State → List Site
  unfolding to_site
  list none = []
  list (some s) = if not (D.prepare_select s) then [] else map to_site (D.selected s)
