-- ===== src/Services/Paths.antt =====
-- The operations of std::filesystem::path that engine/services/ uses, on the texts of Windows paths.
use appytizer_app_server.Base.{
  ℕ, ◌-◌, Bool, not, ◌||◌, ◌&&◌, [], ◌∷◌, ◌++◌, Text, codes, is_empty, length, take, if◌then◌else◌,
  ◌==◌,
}

-- The text that a call of Windows reads: up to the first NUL.
abbrev pub c_str : Text → Text
c_str [] = []
c_str (c ∷ path) = if c == 0 then [] else c ∷ c_str path

abbrev is_separator : ℕ → Bool
is_separator c = (c == b'\\') || (c == b'/')

abbrev last_or_zero : Text → ℕ
last_or_zero [] = 0
last_or_zero (c ∷ []) = c
last_or_zero (c ∷ d ∷ path) = last_or_zero (d ∷ path)

-- Nothing, a separator or a drive alone is before the name.
abbrev pub needs_no_separator : Text → Bool
needs_no_separator dir =
    let last = last_or_zero dir in
    is_empty dir || is_separator last || ((length dir == 2) && (last == b':'))

-- The folder, with a separator behind it where a name needs one.
abbrev pub before_name : Text → Text
before_name dir = if needs_no_separator dir then dir else dir ++ (b'\\' ∷ [])

-- `dir / name` for a name that is relative.
unfoldable pub join : Text → Text → Text
join dir name = before_name dir ++ name

-- The part behind the last separator.
unfoldable pub file_name : Text → Text
file_name [] = []
file_name (c ∷ path) =
    let ahead = file_name path in
    let has_separator = not (length ahead == length path) in
    if is_separator c || (c == b':') || has_separator then ahead else c ∷ path

-- The path without its last part, and without the separators before that one; the root of a drive
-- keeps its separator.
abbrev cut_separators : Text → Text
cut_separators [] = []
cut_separators (c ∷ path) =
    let rest = cut_separators path in if is_empty rest && is_separator c then [] else c ∷ rest

abbrev pub without_last : Text → Text
unfolding file_name
without_last path = take (length path - length (file_name path)) path

unfoldable pub parent_path : Text → Text
parent_path path =
    let parent = cut_separators (without_last path) in
    if last_or_zero parent == b':' then parent ++ codes "\\" else parent
