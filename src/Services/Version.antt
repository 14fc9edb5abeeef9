-- ===== src/Services/Version.antt =====
-- parse_version in engine/services/providers.cpp.
use appytizer_app_server.Base.{
  ℕ, zero, suc, Bool, true, false, ◌&&◌, List, [], ◌∷◌, ◌++◌, Option, none, some, Text, is_empty,
  leb, ◌==◌, if◌then◌else◌,
}
pub mod Infix

abbrev pub is_digit : ℕ → Bool
is_digit c = leb b'0' c && leb c b'9'

-- The longest run of digits in front, and what is behind it.
abbrev pub digits : Text → Text × Text
digits [] = ([], [])
digits (c ∷ s) = let (run, rest) = digits s in if is_digit c then (c ∷ run, rest) else ([], c ∷ s)

-- Up to that many groups of a dot and digits, and what is behind them.
abbrev pub groups : ℕ → Text → Text × Text
groups zero s = ([], s)
groups (suc n) [] = ([], [])
groups (suc n) (c ∷ s) =
    let (run, rest) = digits s in
    let (more, behind) = groups n rest in
    if (c == b'.') && (if is_empty run then false else true)
    then (c ∷ (run ++ more), behind)
    else ([], c ∷ s)

-- The pattern `\d+(?:\.\d+){1,3}` at the start. Fewer digits than all never help: a digit is no dot.
abbrev pub version_at : Text → Option Text
version_at s =
    let (run, rest) = digits s in
    let (more, behind) = groups 3 rest in
    if is_empty run then none else if is_empty more then none else some (run ++ more)

-- std::regex_search: the first place that matches.
abbrev pub search_version : Text → Option Text
search_version [] = none
search_version (c ∷ s) =
    let later = search_version s in
    elim (version_at (c ∷ s)) [ none ↦ later | some version ↦ some version ]

unfoldable pub parse_version : Text → Text
parse_version text = elim (search_version text) [ none ↦ text | some version ↦ version ]
