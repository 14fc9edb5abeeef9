-- ===== src/Sites/Database.antt =====
-- What the registry uses of SQLite, over an unknown database state. Each call gives the new state
-- and whether it returned SQLITE_OK (SQLITE_DONE for a step).
use appytizer_app_server.Base.{◌≡◌, ◌⊎◌, Bool, true, false, List, [], ◌∷◌, ◌++◌}
use mathlib.Core.List.{Perm}
use appytizer_app_server.Sites.Scan.{ScannedSite}

pub record Database : Type 1 where
  pub State : Type 0
  pub begin_immediate : State → State × Bool
  pub delete_sites : State → State × Bool
  pub prepare_insert : State → Bool
  pub prepare_select : State → Bool
  pub insert_site : State → ScannedSite → State × Bool
  pub commit : State → State × Bool
  pub rollback : State → State × Bool
  -- The rows of table `sites`, and the query's rows, in the order of its ORDER BY.
  pub rows : State → List ScannedSite
  pub selected : State → List ScannedSite
  -- Whether a transaction is open, and the rows that a rollback brings back.
  pub is_open : State → Bool
  pub saved : State → List ScannedSite

-- The documented behaviour of transactions.
pub record IsLawful (D : Database) : Type 0 where
  pub begin_nested : (s : D.State) → D.is_open s ≡ true → (D.begin_immediate s).1 ≡ false
  pub begin_fails : (s : D.State) → (D.begin_immediate s).1 ≡ false → (D.begin_immediate s).0 ≡ s
  pub begin_works :
      (s : D.State)
      → (D.begin_immediate s).1 ≡ true
      → (D.is_open (D.begin_immediate s).0 ≡ true)
        × (D.rows (D.begin_immediate s).0 ≡ D.rows s)
        × (D.saved (D.begin_immediate s).0 ≡ D.rows s)
  -- A statement that fails has no effect, or SQLite rolls the whole transaction back.
  pub delete_fails :
      (s : D.State)
      → (D.delete_sites s).1 ≡ false
      → ((D.rows (D.delete_sites s).0 ≡ D.rows s)
          × (D.saved (D.delete_sites s).0 ≡ D.saved s)
          × (D.is_open (D.delete_sites s).0 ≡ D.is_open s))
        ⊎ ((D.rows (D.delete_sites s).0 ≡ D.saved s) × (D.is_open (D.delete_sites s).0 ≡ false))
  pub delete_works :
      (s : D.State)
      → (D.delete_sites s).1 ≡ true
      → (D.rows (D.delete_sites s).0 ≡ []) × (D.saved (D.delete_sites s).0 ≡ D.saved s)
  pub insert_saved : (s : D.State) (r : ScannedSite) → D.saved (D.insert_site s r).0 ≡ D.saved s
  pub insert_works :
      (s : D.State) (r : ScannedSite)
      → (D.insert_site s r).1 ≡ true
      → D.rows (D.insert_site s r).0 ≡ D.rows s ++ (r ∷ [])
  pub commit_fails : (s : D.State) → (D.commit s).1 ≡ false → D.saved (D.commit s).0 ≡ D.saved s
  pub commit_works :
      (s : D.State)
      → (D.commit s).1 ≡ true
      → (D.rows (D.commit s).0 ≡ D.rows s) × (D.is_open (D.commit s).0 ≡ false)
  pub rollback_works :
      (s : D.State) → (D.rows (D.rollback s).0 ≡ D.saved s) × (D.is_open (D.rollback s).0 ≡ false)
  pub select_perm : (s : D.State) → Perm (D.selected s) (D.rows s)
