-- ===== src/Engine/Hosts.antt =====
-- Engine::sync_hosts in engine/engine.cpp. The hosts file is the text that a text-mode stream reads.
use appytizer_app_server.Base.{
  ℕ, Bool, true, false, not, ◌&&◌, List, [], ◌∷◌, ◌++◌, map, Option, none, some, Text, codes, find,
  keep, ◌==◌, if◌then◌else◌,
}
use appytizer_app_server.Sites.Registry.{Site}
pub mod Laws

abbrev newline : ℕ
newline = 10

-- kHostsTag
abbrev pub hosts_tag : Text
hosts_tag = codes "# Appytizer"

abbrev add_to_line : ℕ → List Text → List Text
add_to_line c [] = (c ∷ []) ∷ []
add_to_line c (l ∷ ls) = (c ∷ l) ∷ ls

-- The std::getline loop: a newline at the end of the file begins no further line.
unfoldable pub lines_of : Text → List Text
lines_of [] = []
lines_of (c ∷ cs) = if c == newline then [] ∷ lines_of cs else add_to_line c (lines_of cs)

abbrev pub is_tagged : Text → Bool
is_tagged entry = elim (find hosts_tag entry) [ none ↦ false | some p ↦ true ]

abbrev pub hosts_entry : Site → Text
hosts_entry site = codes "127.0.0.1\t" ++ (site.hostname ++ (codes "\t" ++ hosts_tag))

abbrev pub valid_entries : List Site → List Text
valid_entries sites = map hosts_entry (keep (λ s. s.valid) sites)

-- The output loop.
unfoldable pub write_lines : List Text → Text
write_lines [] = []
write_lines (entry ∷ entries) = entry ++ (newline ∷ write_lines entries)

unfoldable pub updated_hosts : List Site → Text → Text
unfolding lines_of write_lines
updated_hosts sites file =
    write_lines (keep (λ entry. not (is_tagged entry)) (lines_of file) ++ valid_entries sites)

-- Which file it is, whether it can be opened, and whether a write or the close fails behind that, with
-- what such a write leaves, is the system's to say.
pub record HostsSystem : Type 0 where
  pub override_set : Bool
  pub windows_directory_found : Bool
  pub can_write : Bool
  pub write_fails : Bool
  pub left : Text → Text

-- The outcome: the file (`none` where there is none to read), the result, and whether the resolver's
-- cache was flushed.
pub record HostsResult : Type 0 where
  pub file : Option Text
  pub ok : Bool
  pub flushed : Bool

-- Once the file is open, no error of the output is looked at.
unfoldable pub sync_hosts : HostsSystem → List Site → Option Text → HostsResult
unfolding updated_hosts
sync_hosts system sites file =
    if not system.override_set && not system.windows_directory_found
    then record { file = file; ok = false; flushed = false }
    else elim file [
      | none ↦ record { file = none; ok = false; flushed = false }
      | some text ↦
          if not system.can_write
          then record { file = some text; ok = false; flushed = false }
          else record {
            file = some (
                if system.write_fails
                then system.left (updated_hosts sites text)
                else updated_hosts sites text);
            ok = true;
            flushed = not system.override_set;
          }
    ]
