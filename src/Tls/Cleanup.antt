-- ===== src/Tls/Cleanup.antt =====
-- CertificateManager::remove_unused_site_certificates.
use appytizer_app_server.Base.{
  ℕ, ◌+◌, Bool, true, false, not, ◌||◌, ◌&&◌, List, [], ◌∷◌, ◌++◌, Option, none, some, Text, codes,
  text_eq, text_mem, find, take, if◌then◌else◌,
}
use appytizer_app_server.Sites.Scan.{Answer}
pub mod Retained

-- The hostname that a file of the folder belongs to, if it has one.
unfoldable pub hostname_of : Text → Option Text
hostname_of filename = elim (find (codes ".test.") filename) [
  | none ↦ none
  | some marker ↦ some (take (marker + 5) filename)
]

-- Whether the file is to go.
abbrev pub is_unused : List Text → Text → Bool
is_unused retained filename = elim (hostname_of filename) [
  | none ↦ false
  | some hostname ↦ not (text_mem hostname retained)
]

-- The loop: what is left of the folder, and whether no removal failed. It stops at the first that
-- fails.
remove_unused_from : (Text → Bool) → List Text → List Text → List Text × Bool
remove_unused_from fails retained [] = ([], true)
remove_unused_from fails retained (filename ∷ filenames) =
    let (rest, done) = remove_unused_from fails retained filenames in
    if not (is_unused retained filename)
    then (filename ∷ rest, done)
    else if fails filename
    then (filename ∷ filenames, false)
    else (rest, done)

-- `folder` is the answer to is_directory; a folder that is not there is no error.
unfoldable pub remove_unused_site_certificates :
    Answer → (Text → Bool) → List Text → List Text → List Text × Bool
unfolding remove_unused_from hostname_of
remove_unused_site_certificates folder fails hostnames filenames =
    if not folder.value
    then (filenames, not folder.failed)
    else remove_unused_from fails hostnames filenames
