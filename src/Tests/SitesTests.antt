-- ===== src/Tests/SitesTests.antt =====
-- engine/sites/site_registry.cpp on a projects folder with a rival pair and an invalid name.
use appytizer_app_server.Base.{
  ◌≡◌, ◌⊎◌, refl, Bool, true, false, List, [], ◌∷◌, ◌++◌, none, some, map, keep, is_empty,
  lowercase, Text, codes, lower,
}
use appytizer_app_server.Base.Dict.{lookup, insert}
use appytizer_app_server.Sites.Labels.{validate_dns_label, validate_dns_labels, collision_error}
use appytizer_app_server.Sites.Scan.{Answer, Entry, Folder, ScannedSite, scan, annotate}
use appytizer_app_server.Sites.Scan.Names.{Distinct, annotate-Distinct}
use appytizer_app_server.Sites.Registry.{rescan}
use appytizer_app_server.Sites.Registry.Atomic.{Replaced, rescan-Replaced, rescan_stuck}
use appytizer_app_server.Tests.Memory.{Table, no_rows, memory, memory-IsLawful}

abbrev is_so : Bool → Answer
is_so b = record { value = b; failed = false }

abbrev project : Text → Entry
project name = record {
  name = name;
  path = codes "C:/Projects/" ++ name;
  is_directory = is_so true;
  has_php_index = is_so true;
  has_html_index = is_so false;
}

abbrev pub projects : Folder
projects = record {
  is_directory = is_so true;
  open_failed = false;
  entries =
      project (codes "Shop")
      ∷ project (codes "shop")
      ∷ project (codes "a_b")
      ∷ project (codes "blog")
      ∷ [];
}

abbrev names : List Text
names = codes "Shop" ∷ codes "shop" ∷ codes "a_b" ∷ codes "blog" ∷ []

abbrev site_of : Text → ScannedSite
site_of n = record {
  name = n;
  hostname = lowercase n ++ codes ".test";
  path = codes "C:/Projects/" ++ n;
  type = codes "php";
  has_index = true;
  error = validate_dns_label n;
}

scan-projects : scan projects ≡ some (map site_of names)
unfolding scan
scan-projects = refl

rival_refused :
    lookup (codes "shop") (validate_dns_labels names) ≡ some (collision_error (codes "shop"))
unfolding validate_dns_labels lookup insert lower
rival_refused = refl

blog_published :
    (map (λ s. s.name) (keep (λ s. is_empty s.error) (annotate (map site_of names))))
    ≡ codes "blog" ∷ []
unfolding annotate insert lower
blog_published = refl

annotate-Distinct_example :
    Distinct (map (λ s. s.hostname) (keep (λ s. is_empty s.error) (annotate (map site_of names))))
annotate-Distinct_example = annotate-Distinct projects (map site_of names) scan-projects

rescan-Replaced_example :
    let D = memory false in
    ((scan projects ≡ none) × (rescan D projects (some no_rows) ≡ (some no_rows, false)))
    ⊎ ((sites : List ScannedSite) × (t : Table) × (ok : Bool) × (scan projects ≡ some sites)
        × (rescan D projects (some no_rows) ≡ (some t, ok))
        × Replaced D (annotate sites) no_rows (t, ok))
rescan-Replaced_example = rescan-Replaced (memory false) (memory-IsLawful false) projects no_rows

rescan_stuck_example :
    let stuck = (rescan (memory true) projects (some no_rows)).0 in
    ((rescan (memory true) projects (some no_rows)).1 ≡ false)
    × (rescan (memory true) projects stuck ≡ (stuck, false))
rescan_stuck_example =
    rescan_stuck (memory true) (memory-IsLawful true) projects projects no_rows (map site_of names)
      scan-projects refl refl refl
