-- ===== src/Services/Search/PathVariable.antt =====
-- The folders of PATH that find_installed_executables in engine/services/detection_utils.cpp visits.
use appytizer_app_server.Base.{
  ℕ, zero, suc, ◌<◌, ◌≡◌, refl, sym, ap, ◌∙◌, inl, inr, Bool, false, List, [], ◌∷◌, ◌++◌, Option,
  none, some, arith, subst, append_assoc, Bool-cases, Option-cases, length-drop, Text, codes, find,
  any, take, drop, length, if◌then◌else◌, if_both, ◌==◌,
}
use mathlib.Core.Option
use appytizer_app_server.Services.Paths.{c_str, needs_no_separator, join}
use appytizer_app_server.Services.Search.{
  Disk, insert_path, is_regular, add_if_executable, add_names, path_loop, add_path,
}

extend : ℕ → List Text → List Text
extend c [] = (c ∷ []) ∷ []
extend c (folder ∷ folders) = (c ∷ folder) ∷ folders

-- The text cut at its semicolons; nothing stands behind one at the end.
unfoldable pub folders_of : Text → List Text
unfolding extend
folders_of [] = []
folders_of (c ∷ path) = let rest = folders_of path in if c == b';' then [] ∷ rest else extend c rest

-- Each folder in turn.
unfoldable pub add_folders : Disk → List Text → List Text → List Text → List Text
unfolding add_names
add_folders D names [] found = found
add_folders D names (folder ∷ folders) found =
    add_folders D names folders (add_names D names folder found)

abbrev pub has_semicolon : Text → Bool
has_semicolon path = any (λ c. c == b';') path

-- What the loop makes of its text: the part up to the first semicolon, and what is behind it.
cut : Text → Option ℕ → List Text
unfolding folders_of
cut text none = text ∷ []
cut text (some end) = take end text ∷ folders_of (drop (suc end) text)

extend-cut :
    (c : ℕ) (text : Text) (at : Option ℕ)
    → extend c (cut text at) ≡ cut (c ∷ text) (Option.map suc at)
unfolding extend cut
extend-cut c text none = refl
extend-cut c text (some end) = refl

folders_of-cut :
    (c : ℕ) (path : Text) → folders_of (c ∷ path) ≡ cut (c ∷ path) (find (codes ";") (c ∷ path))
unfolding folders_of extend cut
folders_of-cut c [] = ground arith
folders_of-cut c (d ∷ path) = elim (Bool-cases (c == b';')) [
  | inl e ↦ ground (arith, e)
  | inr e ↦
      let found = find (codes ";") (d ∷ path) in
      let skipped : find (codes ";") (c ∷ d ∷ path) ≡ Option.map suc found = ground (arith, e) in
      let rest : folders_of (c ∷ d ∷ path) ≡ extend c (folders_of (d ∷ path)) = rw e refl in
      rest
      ∙ (ap (extend c) (folders_of-cut d path)
          ∙ (extend-cut c (d ∷ path) found ∙ ap (cut (c ∷ d ∷ path)) (sym skipped)))
]

module _ (D : Disk) where
  settle : ℕ → List Text → Text → List Text → Option ℕ → Option (List Text)
  unfolding path_loop add_names
  settle fuel names path found none = some (add_names D names path found)
  settle fuel names path found (some end) =
      path_loop D fuel names (drop (suc end) path) (add_names D names (take end path) found)

  path_loop-settle :
      (fuel : ℕ) (names : List Text) (c : ℕ) (path : Text) (found : List Text)
      → path_loop D (suc fuel) names (c ∷ path) found
        ≡ settle fuel names (c ∷ path) found (find (codes ";") (c ∷ path))
  unfolding path_loop settle
  path_loop-settle fuel names c path found = refl

  cut-folders_of :
      (names : List Text) (c : ℕ) (path : Text) (found : List Text) (at : Option ℕ)
      → find (codes ";") (c ∷ path) ≡ at
      → some (add_folders D names (cut (c ∷ path) at) found)
        ≡ some (add_folders D names (folders_of (c ∷ path)) found)
  cut-folders_of names c path found at e =
      ap (λ fs. some (add_folders D names fs found))
        (sym (folders_of-cut c path ∙ ap (cut (c ∷ path)) e))

  -- With more fuel than the text of PATH has characters, the loop over PATH ends, and it has looked
  -- for the names in the folders between its semicolons, one after the other.
  pub path_loop-folders_of :
      (fuel : ℕ) (names : List Text) (path : Text) (found : List Text)
      → length path < fuel
      → path_loop D fuel names path found ≡ some (add_folders D names (folders_of path) found)
  unfolding path_loop add_folders settle cut folders_of
  path_loop-folders_of zero names path found enough = absurd (omega arith)
  path_loop-folders_of (suc fuel) names [] found enough = refl
  path_loop-folders_of (suc fuel) names (c ∷ path) found enough =
      let text = c ∷ path in
      elim (Option-cases (find (codes ";") text)) [
        | inl e ↦
            path_loop-settle fuel names c path found
            ∙ (ap (settle fuel names text found) e ∙ cut-folders_of names c path found none e)
        | inr (end, e) ↦
            let rest =
              path_loop-folders_of fuel names (drop end path)
                (add_names D names (take end text) found)
                (omega (arith, enough, length-drop end path)) in
            path_loop-settle fuel names c path found
            ∙ (ap (settle fuel names text found) e
                ∙ (rest ∙ cut-folders_of names c path found (some end) e))
      ]

folders_of-append_with :
    (front rest : Text)
    → (folder : Text) × (folders : List Text) × (folders_of (front ++ codes ";") ≡ folder ∷ folders)
      × (folders_of (front ++ (b';' ∷ rest)) ≡ folder ∷ (folders ++ folders_of rest))
unfolding folders_of extend
folders_of-append_with [] rest = ([], [], refl, refl)
folders_of-append_with (c ∷ front) rest =
    let (folder, folders, alone, longer) = folders_of-append_with front rest in
    elim (Bool-cases (c == b';')) [
      | inl e ↦
          ([], folder ∷ folders, rw (folders_of, e, alone) refl, rw (folders_of, e, longer) refl)
      | inr e ↦
          (c ∷ folder, folders, rw (folders_of, e, alone) refl, rw (folders_of, e, longer) refl)
    ]

folders_of-append :
    (front rest : Text)
    → folders_of (front ++ (b';' ∷ rest)) ≡ folders_of (front ++ codes ";") ++ folders_of rest
folders_of-append front rest =
    let (folder, folders, alone, longer) = folders_of-append_with front rest in
    longer ∙ ap (λ fs. fs ++ folders_of rest) (sym alone)

folders_of-single :
    (folder : Text)
    → has_semicolon folder ≡ false
    → folders_of (folder ++ (0 ∷ [])) ≡ (folder ++ (0 ∷ [])) ∷ []
unfolding folders_of extend
folders_of-single [] none_in = refl
folders_of-single (c ∷ folder) none_in = ground (arith, folders_of-single folder)

c_str-nul : (s t : Text) → c_str ((s ++ (0 ∷ [])) ++ t) ≡ c_str s
c_str-nul [] t = refl
c_str-nul (c ∷ s) t = ground (arith, c_str-nul s t)

add_folders-append :
    (D : Disk) (names : List Text) (xs ys : List Text) (found : List Text)
    → add_folders D names (xs ++ ys) found ≡ add_folders D names ys (add_folders D names xs found)
unfolding add_folders
add_folders-append D names [] ys found = refl
add_folders-append D names (x ∷ xs) ys found =
    add_folders-append D names xs ys (add_names D names x found)

c_str-join_nul : (folder name : Text) → c_str (join (folder ++ (0 ∷ [])) name) ≡ c_str folder
unfolding join
c_str-join_nul folder name =
    let dir = folder ++ (0 ∷ []) in
    if_both (λ d. c_str (d ++ name) ≡ c_str folder) (needs_no_separator dir) dir
      (dir ++ (b'\\' ∷ [])) (c_str-nul folder name)
      (ap c_str (append_assoc dir (b'\\' ∷ []) name) ∙ c_str-nul folder (b'\\' ∷ name))

module _ (D : Disk) where
  -- The NUL behind the folder hides the name.
  add_names-nul :
      (names : List Text) (folder : Text) (found : List Text)
      → is_regular D folder ≡ false
      → add_names D names (folder ++ (0 ∷ [])) found ≡ found
  unfolding add_names add_if_executable
  add_names-nul [] folder found not_file = refl
  add_names-nul (name ∷ names) folder found not_file =
      let dir = folder ++ (0 ∷ []) in
      let hidden : is_regular D (join dir name) ≡ false =
        ap D.is_regular_file (c_str-join_nul folder name) ∙ not_file in
      ap
        (λ (b : Bool).
          add_names D names dir
            (if b then insert_path (D.weakly_canonical (join dir name)) found else found))
        hidden
      ∙ add_names-nul names folder found not_file

  -- The last folder of PATH is not searched: whatever stands in it, the search finds what it finds
  -- when PATH ends before that folder. The folder is no regular file, and has no semicolon in its name.
  pub add_path_misses_last :
      (names : List Text) (front last : Text) (found : List Text)
      → has_semicolon last ≡ false
      → is_regular D last ≡ false
      → add_path D names (some (front ++ (b';' ∷ last))) found
        ≡ some (add_folders D names (folders_of (front ++ codes ";")) found)
  unfolding add_path add_folders
  add_path_misses_last names front last found one not_file =
      let path = front ++ (b';' ∷ (last ++ (0 ∷ []))) in
      let visited : folders_of path ≡ folders_of (front ++ codes ";") ++ ((last ++ (0 ∷ [])) ∷ []) =
        folders_of-append front (last ++ (0 ∷ []))
        ∙ ap (◌++◌ (folders_of (front ++ codes ";"))) (folders_of-single last one) in
      let before_last = add_folders D names (folders_of (front ++ codes ";")) found in
      subst (λ p. path_loop D (suc (length p)) names p found ≡ some before_last) {x = path}
        {y = (front ++ (b';' ∷ last)) ++ (0 ∷ [])} (sym (append_assoc front (b';' ∷ last) (0 ∷ [])))
        (path_loop-folders_of D (suc (length path)) names path found (omega arith)
          ∙ ap some (
              ap (λ fs. add_folders D names fs found) visited
              ∙ (add_folders-append D names (folders_of (front ++ codes ";"))
                    ((last ++ (0 ∷ [])) ∷ []) found
                  ∙ add_names-nul names last before_last not_file)))
