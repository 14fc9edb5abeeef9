-- ===== src/Services/Fixed.antt =====
-- executable_version and environment_path in engine/services/detection_utils.cpp.
use appytizer_app_server.Base.{
  ℕ, zero, suc, ◌+◌, ◌/◌, ◌%◌, ◌^◌, [], ◌∷◌, ◌++◌, Option, none, some, Text, codes, is_empty,
  if◌then◌else◌, ltb,
}
use appytizer_app_server.Services.Paths.{c_str, file_name, parent_path}

-- std::to_string, for numbers of at most that many digits.
abbrev pub decimal : ℕ → ℕ → Text
decimal zero n = []
decimal (suc more) n =
    let ahead = decimal more (n / 10) in
    let last = (n % 10) + 48 in if ltb n 10 then last ∷ [] else ahead ++ (last ∷ [])

abbrev hiword : ℕ → ℕ
hiword n = (n / 2 ^ 16) % 2 ^ 16

abbrev loword : ℕ → ℕ
loword n = n % 2 ^ 16

-- The words of VS_FIXEDFILEINFO that are read.
pub record FixedFileInfo : Type 0 where
  pub version_ms : ℕ
  pub version_ls : ℕ

-- `info` is what the file's version resource says, if it has one.
unfoldable pub executable_version : Option FixedFileInfo → Text → Text
unfolding file_name parent_path
executable_version (some info) executable =
    decimal 5 (hiword info.version_ms)
    ++ (codes "."
        ++ (decimal 5 (loword info.version_ms)
            ++ (codes "." ++ decimal 5 (hiword info.version_ls))))
executable_version none executable =
    let parent = file_name (parent_path executable) in
    if is_empty parent then file_name executable else parent

-- `value` is the variable's, if it is set.
abbrev pub environment_path : Option Text → Text
environment_path none = []
environment_path (some value) = c_str value
