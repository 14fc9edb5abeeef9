-- ===== src/Tests/Memory.antt =====
-- A database in memory, which shows that the assumptions on SQLite can be met.
use mathlib.Core.List.Perm
use appytizer_app_server.Base.{
  refl, inl, Bool, true, false, List, [], ◌∷◌, ◌++◌, arith, if◌then◌else◌,
}
use appytizer_app_server.Sites.Scan.{ScannedSite}
use appytizer_app_server.Sites.Database.{Database, IsLawful}

pub record Table : Type 0 where
  pub rows : List ScannedSite
  pub saved : List ScannedSite
  pub is_open : Bool

abbrev pub no_rows : Table
no_rows = record { rows = []; saved = []; is_open = false }

-- With the flag, every DELETE fails.
abbrev pub memory : Bool → Database
memory refuses = record {
  State = Table;
  begin_immediate =
      λ t. if t.is_open then (t, false) else (record t { saved = t.rows; is_open = true }, true);
  delete_sites = λ t. if refuses then (t, false) else (record t { rows = [] }, true);
  prepare_insert = λ t. true;
  prepare_select = λ t. true;
  insert_site = λ t r. (record t { rows = t.rows ++ (r ∷ []) }, true);
  commit = λ t. (record t { is_open = false }, true);
  rollback = λ t. (record t { rows = t.saved; is_open = false }, true);
  rows = λ t. t.rows;
  selected = λ t. t.rows;
  is_open = λ t. t.is_open;
  saved = λ t. t.saved;
}

pub memory-IsLawful : (refuses : Bool) → IsLawful (memory refuses)
memory-IsLawful refuses = record {
  begin_nested = λ t h. ground arith;
  begin_fails = λ t h. ground arith;
  begin_works = λ t h. ground arith;
  delete_fails = λ t h. inl (ground arith, ground arith, ground arith);
  delete_works = λ t h. ground arith;
  insert_saved = λ t r. refl;
  insert_works = λ t r h. refl;
  commit_fails = λ t h. refl;
  commit_works = λ t h. (refl, refl);
  rollback_works = λ t. (refl, refl);
  select_perm = λ t. Perm.refl t.rows;
}
