-- ===== src/Sites/Scan.antt =====
-- SiteRegistry::rescan in engine/sites/site_registry.cpp, as far as it reads the projects folder.
-- The file system's answers are arguments: a value with the error flag that the call sets.
use appytizer_app_server.Base.{
  Bool, true, false, ◌||◌, not, List, [], ◌∷◌, ◌++◌, map, Option, none, some, Text, codes, lower,
  lowercase, if◌then◌else◌,
}
use appytizer_app_server.Base.Dict.{Dict, lookup}
use appytizer_app_server.Dns.{site_suffix}
use appytizer_app_server.Sites.Labels.{validate_dns_label, validate_dns_labels}
pub mod Names

-- The result of a call that takes a std::error_code.
pub record Answer : Type 0 where
  pub value : Bool
  pub failed : Bool

-- The texts are what path::string() gives. That it throws, at a name that the system's code page does
-- not have, is an answer in Engine.Answers.
pub record Entry : Type 0 where
  pub name : Text
  pub path : Text
  pub is_directory : Answer
  pub has_php_index : Answer
  pub has_html_index : Answer

-- `open_failed` is the error of the directory_iterator's constructor, which then yields no entry.
pub record Folder : Type 0 where
  pub is_directory : Answer
  pub open_failed : Bool
  pub entries : List Entry

pub record ScannedSite : Type 0 where
  pub name : Text
  pub hostname : Text
  pub path : Text
  pub type : Text
  pub has_index : Bool
  pub error : Text

unfoldable pub scanned_site : Entry → ScannedSite
unfolding validate_dns_label lower
scanned_site e = record {
  name = e.name;
  hostname = lowercase e.name ++ site_suffix;
  path = e.path;
  type =
      if e.has_php_index.value
      then codes "php"
      else if e.has_html_index.value
      then codes "html"
      else [];
  has_index = e.has_php_index.value || e.has_html_index.value;
  error = validate_dns_label e.name;
}

-- The loop over the entries; `error` is the flag that the round before left, and `none` the early
-- `return false`.
unfoldable pub scan_loop : Bool → List Entry → List ScannedSite → Option (List ScannedSite)
unfolding scanned_site
scan_loop error [] scanned = some scanned
scan_loop error (e ∷ es) scanned =
    let skip = scan_loop e.is_directory.failed es scanned in
    let take = scan_loop e.has_html_index.failed es (scanned ++ (scanned_site e ∷ [])) in
    if error
    then none
    else if not e.is_directory.value
    then (if e.is_directory.failed then none else skip)
    else if e.has_php_index.failed
    then none
    else if e.has_html_index.failed
    then none
    else take

unfoldable pub scan : Folder → Option (List ScannedSite)
unfolding scan_loop
scan folder =
    if folder.is_directory.value
    then (if folder.open_failed then some [] else scan_loop false folder.entries [])
    else if folder.is_directory.failed
    then none
    else some []

abbrev with_error : Option Text → ScannedSite → ScannedSite
with_error none site = site
with_error (some error) site = record site { error = error }

-- The sites with the errors that validate_dns_labels finds among all of them.
unfoldable pub annotate : List ScannedSite → List ScannedSite
unfolding validate_dns_labels lookup
annotate scanned =
    let errors = validate_dns_labels (map (λ s. s.name) scanned) in
    map (λ s. with_error (lookup s.name errors) s) scanned
