-- ===== src/Services/Search/Found.antt =====
-- What find_installed_executables in engine/services/detection_utils.cpp finds.
use appytizer_app_server.Base.{
  ◌≡◌, refl, sym, ap, subst, ◌∙◌, inl, inr, Bool, true, false, ◌||◌, List, [], ◌∷◌, ◌++◌, some,
  arith, Bool-cases, Text, text_eq, text_eq_iff, text_eq_refl, text_mem, is_empty, if◌then◌else◌,
  All,
}
use appytizer_app_server.Services.Paths.{c_str, join}
use appytizer_app_server.Services.Search.{
  Disk, Installed, is_regular, add_if_executable, add_names, scan_root, scan_roots, registry_roots,
  find_installed_executables,
}
use appytizer_app_server.Services.Search.Sorted.{IsAscending, text_mem-insert_path}
use appytizer_app_server.Services.Search.Growth.{
  IsExecutable, Grows-trans, Grows-IsAscending, Grows-IsExecutable, Grows-text_mem, add_names-Grows,
  scan_entries-Grows, scan_roots-Grows, add_path-Grows,
}

module _ (D : Disk) where
  text_mem-add_if_executable :
      (candidate : Text) (found : List Text)
      → is_regular D candidate ≡ true
      → text_mem (D.weakly_canonical candidate) (add_if_executable D candidate found) ≡ true
  unfolding add_if_executable
  text_mem-add_if_executable candidate found regular =
      let path = D.weakly_canonical candidate in
      rw (add_if_executable, regular, text_mem-insert_path path path found, text_eq_refl path)
        (ground arith)

  text_mem-add_names :
      (names : List Text) (name root : Text) (found : List Text)
      → text_mem name names ≡ true
      → is_regular D (join root name) ≡ true
      → text_mem (D.weakly_canonical (join root name)) (add_names D names root found) ≡ true
  unfolding add_names
  text_mem-add_names [] name root found asked regular = absurd cc
  text_mem-add_names (first ∷ names) name root found asked regular =
      let found' = add_if_executable D (join root first) found in
      elim (Bool-cases (text_eq name first)) [
        | inl e ↦
            let here : text_mem (D.weakly_canonical (join root name)) found' ≡ true =
              rw (sym ((text_eq_iff name first).0 e))
                (text_mem-add_if_executable (join root name) found regular) in
            Grows-text_mem D _ (add_names-Grows D names root found') here
        | inr e ↦ text_mem-add_names names name root found' (ground (arith, asked, e)) regular
      ]

  text_mem-scan_root :
      (names : List Text) (name root : Text) (found : List Text)
      → text_mem name names ≡ true
      → D.is_directory (c_str root) ≡ true
      → is_regular D (join root name) ≡ true
      → text_mem (D.weakly_canonical (join root name)) (scan_root D names root found) ≡ true
  unfolding scan_root
  text_mem-scan_root names name root found asked dir regular =
      rw (scan_root, dir)
        (Grows-text_mem D _
          (scan_entries-Grows D names 0 root (D.entries_of root) (add_names D names root found))
          (text_mem-add_names names name root found asked regular))

  text_mem-scan_roots_first :
      (names roots : List Text) (name root : Text) (found : List Text)
      → text_mem name names ≡ true
      → is_empty root ≡ false
      → D.is_directory (c_str root) ≡ true
      → is_regular D (join root name) ≡ true
      → text_mem (D.weakly_canonical (join root name)) (scan_roots D names (root ∷ roots) found)
        ≡ true
  unfolding scan_roots
  text_mem-scan_roots_first names roots name root found asked given dir regular =
      let scanned = scan_root D names root found in
      ap
        (λ (b : Bool).
          text_mem (D.weakly_canonical (join root name))
            (scan_roots D names roots (if b then found else scanned)))
        given
      ∙ Grows-text_mem D _ (scan_roots-Grows D names roots scanned)
          (text_mem-scan_root names name root found asked dir regular)

  text_mem-scan_roots :
      (names roots : List Text) (name root : Text) (found : List Text)
      → text_mem name names ≡ true
      → text_mem root roots ≡ true
      → is_empty root ≡ false
      → D.is_directory (c_str root) ≡ true
      → is_regular D (join root name) ≡ true
      → text_mem (D.weakly_canonical (join root name)) (scan_roots D names roots found) ≡ true
  unfolding scan_roots
  text_mem-scan_roots names [] name root found asked listed given dir regular = absurd cc
  text_mem-scan_roots names (first ∷ roots) name root found asked listed given dir regular =
      elim (Bool-cases (text_eq root first)) [
        | inl e ↦
            let same = sym ((text_eq_iff root first).0 e) in
            subst
              (λ r.
                text_mem (D.weakly_canonical (join r name))
                  (scan_roots D names (first ∷ roots) found)
                ≡ true)
              {x = first} {y = root} same
              (text_mem-scan_roots_first names roots name first found asked (rw same given)
                (rw same dir) (rw same regular))
        | inr e ↦
            text_mem-scan_roots names roots name root _ asked (ground (arith, listed, e)) given dir
              regular
      ]

text_mem-append :
    (asked : Text) (xs ys : List Text)
    → text_mem asked (xs ++ ys) ≡ (text_mem asked xs || text_mem asked ys)
text_mem-append asked [] ys = refl
text_mem-append asked (x ∷ xs) ys = ground (arith, text_mem-append asked xs ys)

module _ (D : Disk) (I : Installed) where
  -- The search always ends with a list. The list is in strictly ascending order, and each path in it is
  -- the canonical form of a path that joins a folder and a file name, where the name is one of those
  -- asked for, up to case, and the path, which Windows reads up to its first NUL, is a regular file's.
  pub find_installed_executables-IsExecutable :
      (names roots tokens : List Text)
      → (found : List Text) × (find_installed_executables D I names roots tokens ≡ some found)
        × IsAscending found
        × All (IsExecutable D names) found
  unfolding find_installed_executables IsAscending
  find_installed_executables-IsExecutable names roots tokens =
      let of_machine = registry_roots tokens I.machine_64 ++ registry_roots tokens I.machine_32 in
      let all_roots = roots ++ (of_machine ++ registry_roots tokens I.user) in
      let (found, result, g) = add_path-Grows D names I.path (scan_roots D names all_roots []) in
      let whole = Grows-trans D (scan_roots-Grows D names all_roots []) g in
      (found, result, Grows-IsAscending D whole tt, Grows-IsExecutable D whole tt)

  -- A regular file with one of the names that stands in one of the folders asked for is found, by
  -- its canonical path, provided that the folder's path is not empty.
  pub find_installed_executables-finds :
      (names roots tokens : List Text) (name root : Text)
      → text_mem name names ≡ true
      → text_mem root roots ≡ true
      → is_empty root ≡ false
      → D.is_directory (c_str root) ≡ true
      → is_regular D (join root name) ≡ true
      → (found : List Text) × (find_installed_executables D I names roots tokens ≡ some found)
        × (text_mem (D.weakly_canonical (join root name)) found ≡ true)
  unfolding find_installed_executables
  find_installed_executables-finds names roots tokens name root asked listed given dir regular =
      let of_machine = registry_roots tokens I.machine_64 ++ registry_roots tokens I.machine_32 in
      let all_roots = roots ++ (of_machine ++ registry_roots tokens I.user) in
      let (found, result, g) = add_path-Grows D names I.path (scan_roots D names all_roots []) in
      let in_all : text_mem root all_roots ≡ true =
        rw (text_mem-append root roots (of_machine ++ registry_roots tokens I.user), listed) refl in
      (
        found,
        result,
        Grows-text_mem D _ g
            (text_mem-scan_roots D names all_roots name root [] asked in_all given dir regular),
      )
