-- ===== src/Services/Search/Growth.antt =====
-- How the search in engine/services/detection_utils.cpp grows its set of paths.
use appytizer_app_server.Base.{
  ℕ, zero, suc, ◌<◌, ◌≡◌, refl, inl, inr, Bool, true, false, List, [], ◌∷◌, ◌++◌, Option, none,
  some, arith, Bool-cases, Option-cases, Text, codes, text_eq, text_eq_refl, text_mem, is_empty,
  any, All, find, lowercase, take, drop, length, leb, if◌then◌else◌, if_both, length-drop,
}
use appytizer_app_server.Services.Paths.{c_str, join}
use appytizer_app_server.Services.Search.{
  Entries, no_more, broken, entry, Disk, insert_path, is_regular, add_if_executable, add_names,
  add_matching, scan_entries, scan_root, scan_roots, path_loop, add_path,
}
use appytizer_app_server.Services.Search.Sorted.{
  IsAscending, insert_path-All, insert_path-IsAscending, text_mem-insert_path,
}

-- The name of a file is one of the names, up to their case.
abbrev pub is_named : List Text → Text → Bool
is_named names file_name = any (λ name. text_eq (lowercase file_name) (lowercase name)) names

module _ (D : Disk) where
  -- The canonical form of a path `dir / file_name`, where the last is one of the names, and Windows
  -- finds a regular file under the path.
  pub IsExecutable : List Text → Text → Type 0
  IsExecutable names path =
      (dir : Text) × (file_name : Text) × (is_named names file_name ≡ true)
      × (D.is_regular_file (c_str (join dir file_name)) ≡ true)
      × (path ≡ D.weakly_canonical (join dir file_name))

  -- How a set of paths grows: by the files that are found, one at a time.
  pub data Grows : List Text → List Text → List Text → Type 0 where
    same : (names found : List Text) → Grows names found found
    added :
        {names found found' : List Text} (dir file_name : Text)
        → Grows names found found'
        → is_regular D (join dir file_name) ≡ true
        → is_named names file_name ≡ true
        → Grows names found (insert_path (D.weakly_canonical (join dir file_name)) found')

  pub Grows-trans : {names a b c : List Text} → Grows names a b → Grows names b c → Grows names a c
  Grows-trans g (same names found) = g
  Grows-trans g (added dir file_name h regular named) =
      added dir file_name (Grows-trans g h) regular named

  Grows-more : {names a b : List Text} (name : Text) → Grows names a b → Grows (name ∷ names) a b
  Grows-more name (same names found) = same (name ∷ names) found
  Grows-more name (added dir file_name h regular named) =
      added dir file_name (Grows-more name h) regular (ground (arith, named))

  pub Grows-IsAscending : {names a b : List Text} → Grows names a b → IsAscending a → IsAscending b
  Grows-IsAscending (same names found) h = h
  Grows-IsAscending (added dir file_name g regular named) h =
      insert_path-IsAscending _ _ (Grows-IsAscending g h)

  pub Grows-IsExecutable :
      {names a b : List Text}
      → Grows names a b
      → All (IsExecutable names) a
      → All (IsExecutable names) b
  unfolding IsExecutable
  Grows-IsExecutable (same names found) h = h
  Grows-IsExecutable {names} (added dir file_name g regular named) h =
      insert_path-All (IsExecutable names) _ _ (dir, file_name, named, regular, refl)
        (Grows-IsExecutable g h)

  pub Grows-text_mem :
      {names a b : List Text} (path : Text)
      → Grows names a b
      → text_mem path a ≡ true
      → text_mem path b ≡ true
  Grows-text_mem path (same names found) h = h
  Grows-text_mem path (added {found' = found'} dir file_name g regular named) h = ground (
    arith,
    text_mem-insert_path path (D.weakly_canonical (join dir file_name)) found',
    Grows-text_mem path g h,
  )

  add_if_executable-Grows :
      (names : List Text) (dir file_name : Text) (found : List Text)
      → is_named names file_name ≡ true
      → Grows names found (add_if_executable D (join dir file_name) found)
  unfolding add_if_executable
  add_if_executable-Grows names dir file_name found named =
      elim (Bool-cases (is_regular D (join dir file_name))) [
        | inl r ↦ rw (add_if_executable, r) (added dir file_name (same names found) r named)
        | inr r ↦ rw (add_if_executable, r) (same names found)
      ]

  pub add_names-Grows :
      (names : List Text) (root : Text) (found : List Text)
      → Grows names found (add_names D names root found)
  unfolding add_names
  add_names-Grows [] root found = same [] found
  add_names-Grows (name ∷ names) root found =
      Grows-trans
        (add_if_executable-Grows (name ∷ names) root name found
          (ground (arith, text_eq_refl (lowercase name))))
        (Grows-more name (add_names-Grows names root (add_if_executable D (join root name) found)))

  add_matching-Grows :
      (names : List Text) (dir file_name : Text) (found : List Text)
      → Grows names found (add_matching D names (join dir file_name) file_name found)
  unfolding add_matching
  add_matching-Grows [] dir file_name found = same [] found
  add_matching-Grows (name ∷ names) dir file_name found =
      elim (Bool-cases (text_eq (lowercase file_name) (lowercase name))) [
        | inl e ↦ rw e (
            Grows-trans
              (add_if_executable-Grows (name ∷ names) dir file_name found (ground (arith, e)))
              (Grows-more name (
                add_matching-Grows names dir file_name
                  (add_if_executable D (join dir file_name) found))))
        | inr e ↦ rw e (Grows-more name (add_matching-Grows names dir file_name found))
      ]

  pub scan_entries-Grows :
      (names : List Text) (depth : ℕ) (dir : Text) (entries : Entries) (found : List Text)
      → Grows names found (scan_entries D names depth dir entries found).0
  unfolding scan_entries
  scan_entries-Grows names depth dir no_more found = same names found
  scan_entries-Grows names depth dir broken found = same names found
  scan_entries-Grows names depth dir (entry file_name regular below rest) found =
      let path = join dir file_name in
      let found' = if regular then add_matching D names path file_name found else found in
      let at_file : Grows names found found' =
        if_both (Grows names found) regular (add_matching D names path file_name found) found
          (add_matching-Grows names dir file_name found) (same names found) in
      let inside = scan_entries D names (suc depth) path below found' in
      let until = if leb 4 depth then (found', true) else inside in
      let until-Grows : Grows names found until.0 =
        if_both (λ (s : List Text × Bool). Grows names found s.0) (leb 4 depth) (found', true)
          inside at_file
          (Grows-trans at_file (scan_entries-Grows names (suc depth) path below found')) in
      if_both (λ (s : List Text × Bool). Grows names found s.0) until.1
        (scan_entries D names depth dir rest until.0) (until.0, false)
        (Grows-trans until-Grows (scan_entries-Grows names depth dir rest until.0)) until-Grows

  pub scan_root-Grows :
      (names : List Text) (root : Text) (found : List Text)
      → Grows names found (scan_root D names root found)
  unfolding scan_root
  scan_root-Grows names root found = elim (Bool-cases (D.is_directory (c_str root))) [
    | inr e ↦ rw (scan_root, e) (same names found)
    | inl e ↦
        rw (scan_root, e)
          (Grows-trans (add_names-Grows names root found)
            (scan_entries-Grows names 0 root (D.entries_of root) (add_names D names root found)))
  ]

  pub scan_roots-Grows :
      (names roots : List Text) (found : List Text)
      → Grows names found (scan_roots D names roots found)
  unfolding scan_roots
  scan_roots-Grows names [] found = same names found
  scan_roots-Grows names (root ∷ roots) found = elim (Bool-cases (is_empty root)) [
    | inl e ↦ rw (scan_roots, e) (scan_roots-Grows names roots found)
    | inr e ↦
        rw (scan_roots, e)
          (Grows-trans (scan_root-Grows names root found)
            (scan_roots-Grows names roots (scan_root D names root found)))
  ]

  path_loop-Grows :
      (fuel : ℕ) (names : List Text) (path : Text) (found : List Text)
      → length path < fuel
      → (found' : List Text) × (path_loop D fuel names path found ≡ some found')
        × Grows names found found'
  unfolding path_loop
  path_loop-Grows zero names path found enough = absurd (omega arith)
  path_loop-Grows (suc fuel) names [] found enough = (found, refl, same names found)
  path_loop-Grows (suc fuel) names (c ∷ path) found enough =
      elim (Option-cases (find (codes ";") (c ∷ path))) [
        | inl e ↦ (
          add_names D names (c ∷ path) found,
          rw (path_loop, e) refl,
          add_names-Grows names (c ∷ path) found,
        )
        | inr (end, e) ↦
            let (found', result, g) =
              path_loop-Grows fuel names (drop end path)
                (add_names D names (take end (c ∷ path)) found)
                (omega (arith, enough, length-drop end path)) in
            (
              found',
              rw (path_loop, e) result,
              Grows-trans (add_names-Grows names (take end (c ∷ path)) found) g,
            )
      ]

  pub add_path-Grows :
      (names : List Text) (path : Option Text) (found : List Text)
      → (found' : List Text) × (add_path D names path found ≡ some found')
        × Grows names found found'
  unfolding add_path
  add_path-Grows names none found = (found, refl, same names found)
  add_path-Grows names (some value) found =
      path_loop-Grows (suc (length (value ++ (0 ∷ [])))) names (value ++ (0 ∷ [])) found
        (omega arith)
