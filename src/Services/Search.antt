-- ===== src/Services/Search.antt =====
-- find_installed_executables in engine/services/detection_utils.cpp.
use appytizer_app_server.Base.{
  ℕ, zero, suc, ◌+◌, Bool, true, false, not, ◌||◌, ◌&&◌, List, [], ◌∷◌, ◌++◌, Option, none, some,
  Text, codes, text_eq, is_empty, find, lowercase, take, drop, length, if◌then◌else◌, ◌==◌, leb,
  ltb,
}
use appytizer_app_server.Services.Paths.{c_str, join}
use appytizer_app_server.Services.Detect.{is_token_of}
pub mod Sorted
pub mod Growth
pub mod Found
pub mod PathVariable

-- What the walk of a folder meets: its entries, each with its name, whether it is a regular file, and
-- what stands in it; or an error of the increment, which ends the walk.
pub data Entries : Type 0 where
  no_more broken : Entries
  entry : Text → Bool → Entries → Entries → Entries

pub record Disk : Type 0 where
  pub is_regular_file : Text → Bool
  pub is_directory : Text → Bool
  -- Empty where it fails.
  pub weakly_canonical : Text → Text
  pub entries_of : Text → Entries

-- An item of the list of installed programs: both texts are empty where they are not told.
pub record UninstallItem : Type 0 where
  pub opens : Bool
  pub display : Text
  pub location : Text

-- The order of the paths that weakly_canonical gives: a backslash, their only separator, comes first.
abbrev pub rank : ℕ → ℕ
rank c = if c == b'\\' then 0 else c + 1

abbrev pub before : Text → Text → Bool
before [] [] = false
before [] (y ∷ ys) = true
before (x ∷ xs) [] = false
before (x ∷ xs) (y ∷ ys) = ltb (rank x) (rank y) || ((rank x == rank y) && before xs ys)

-- std::set<std::filesystem::path>::insert.
abbrev pub insert_path : Text → List Text → List Text
insert_path path [] = path ∷ []
insert_path path (other ∷ others) =
    if before path other
    then path ∷ (other ∷ others)
    else if before other path
    then other ∷ insert_path path others
    else other ∷ others

module _ (D : Disk) where
  -- Windows reads a path up to its first NUL.
  abbrev pub is_regular : Text → Bool
  is_regular path = D.is_regular_file (c_str path)

  unfoldable pub add_if_executable : Text → List Text → List Text
  add_if_executable candidate found =
      if is_regular candidate then insert_path (D.weakly_canonical candidate) found else found

  -- `root / name` for each name.
  unfoldable pub add_names : List Text → Text → List Text → List Text
  unfolding join add_if_executable
  add_names [] root found = found
  add_names (name ∷ names) root found =
      add_names names root (add_if_executable (join root name) found)

  -- The file at the path, once for each of the names that is its own.
  unfoldable pub add_matching : List Text → Text → Text → List Text → List Text
  unfolding add_if_executable
  add_matching [] path file_name found = found
  add_matching (name ∷ names) path file_name found = add_matching names path file_name (
      if text_eq (lowercase file_name) (lowercase name)
      then add_if_executable path found
      else found)

  -- Whether the walk goes on, with what is found.
  unfoldable pub scan_entries : List Text → ℕ → Text → Entries → List Text → List Text × Bool
  unfolding join add_matching
  scan_entries names depth dir no_more found = (found, true)
  scan_entries names depth dir broken found = (found, false)
  scan_entries names depth dir (entry file_name regular below rest) found =
      let path = join dir file_name in
      let found' = if regular then add_matching names path file_name found else found in
      let inside = scan_entries names (suc depth) path below found' in
      let (found'', goes_on) = if leb 4 depth then (found', true) else inside in
      let behind = scan_entries names depth dir rest found'' in
      if goes_on then behind else (found'', false)

  unfoldable pub scan_root : List Text → Text → List Text → List Text
  unfolding add_names scan_entries
  scan_root names root found =
      if not (D.is_directory (c_str root))
      then found
      else (scan_entries names 0 root (D.entries_of root) (add_names names root found)).0

  unfoldable pub scan_roots : List Text → List Text → List Text → List Text
  unfolding scan_root
  scan_roots names [] found = found
  scan_roots names (root ∷ roots) found =
      scan_roots names roots (if is_empty root then found else scan_root names root found)

  -- The loop over PATH: the names in each of its folders, up to a semicolon; `none` is out of fuel.
  unfoldable pub path_loop : ℕ → List Text → Text → List Text → Option (List Text)
  unfolding add_names
  path_loop zero names path found = none
  path_loop (suc fuel) names path found =
      if is_empty path then some found else elim (find (codes ";") path) [
        | none ↦ some (add_names names path found)
        | some end ↦
            path_loop fuel names (drop (suc end) path) (add_names names (take end path) found)
      ]

  -- The buffer has room for the NUL behind the value, and is not cut back.
  unfoldable pub add_path : List Text → Option Text → List Text → Option (List Text)
  unfolding path_loop
  add_path names none found = some found
  add_path names (some value) found =
      let path = value ++ (0 ∷ []) in path_loop (suc (length path)) names path found

-- The folders of the programs whose name has one of the tokens, if there are tokens.
unfoldable pub registry_roots : List Text → List UninstallItem → List Text
registry_roots tokens [] = []
registry_roots tokens (item ∷ items) =
    let matches = is_empty tokens || is_token_of tokens item.display in
    if item.opens && matches && not (is_empty item.location)
    then item.location ∷ registry_roots tokens items
    else registry_roots tokens items

-- The lists of the three hives that are read, and the variable PATH.
pub record Installed : Type 0 where
  pub machine_64 : List UninstallItem
  pub machine_32 : List UninstallItem
  pub user : List UninstallItem
  pub path : Option Text

unfoldable pub find_installed_executables :
    Disk → Installed → List Text → List Text → List Text → Option (List Text)
unfolding registry_roots scan_roots add_path
find_installed_executables D I names requested_roots tokens =
    let of_machine = registry_roots tokens I.machine_64 ++ registry_roots tokens I.machine_32 in
    let roots = requested_roots ++ (of_machine ++ registry_roots tokens I.user) in
    add_path D names I.path (scan_roots D names roots [])
