-- ===== src/Sites/Labels.antt =====
-- engine/sites/site_registry.cpp: which folder names become hostnames.
use appytizer_app_server.Base.{
  ℕ, ◌+◌, ◌-◌, Bool, ◌&&◌, ◌||◌, not, List, [], ◌∷◌, ◌++◌, Text, codes, length, get_or, is_empty,
  all, leb, ltb, ◌==◌, if◌then◌else◌, lowercase, lower, Option, none, some, text_eq,
}
use appytizer_app_server.Base.Dict.{Dict, lookup, insert}
use appytizer_app_server.Dns.{site_suffix}
pub mod Single
pub mod Collisions

abbrev hyphen : ℕ
hyphen = b'-'

abbrev pub is_label_byte : ℕ → Bool
is_label_byte c =
    (leb b'a' c && leb c b'z')
    || ((leb b'A' c && leb c b'Z') || ((leb b'0' c && leb c b'9') || (c == hyphen)))

-- front() and back(), of a label that is not empty.
abbrev pub front : Text → ℕ
front label = get_or label 0 0

abbrev pub back : Text → ℕ
back label = get_or label (length label - 1) 0

-- The error text; it is empty for a valid label.
unfoldable pub validate_dns_label : Text → Text
validate_dns_label label =
    if is_empty label
    then codes "Folder name is empty."
    else if ltb 63 (length label)
    then codes "Folder name exceeds the 63-character DNS label limit."
    else if (front label == hyphen) || (back label == hyphen)
    then codes "DNS labels cannot start or end with a hyphen."
    else if not (all is_label_byte label)
    then codes "Folder name must contain only ASCII letters, digits, and hyphens."
    else []

-- `normalized_labels[key].push_back(label)`
push_label : Text → Text → Dict (List Text) → Dict (List Text)
push_label key label [] = (key, label ∷ []) ∷ []
push_label key label ((k, originals) ∷ m) =
    if text_eq k key
    then (k, originals ++ (label ∷ [])) ∷ m
    else (k, originals) ∷ push_label key label m

-- The first loop: errors of single labels, and the valid labels by their lower case.
collect_labels : List Text → Dict Text → Dict (List Text) → Dict Text × Dict (List Text)
unfolding validate_dns_label push_label
collect_labels [] errors normalized = (errors, normalized)
collect_labels (label ∷ labels) errors normalized =
    let error = validate_dns_label label in
    let bad = collect_labels labels (insert label error errors) normalized in
    let good = collect_labels labels errors (push_label (lowercase label) label normalized) in
    if not (is_empty error) then bad else good

abbrev pub collision_error : Text → Text
collision_error key =
    codes "Case-insensitive hostname collision for " ++ (key ++ (site_suffix ++ codes "."))

mark_all : Text → List Text → Dict Text → Dict Text
mark_all error [] errors = errors
mark_all error (label ∷ labels) errors = mark_all error labels (insert label error errors)

-- The second loop. The map's order decides nothing: the groups have no label in common.
mark_collisions : Dict (List Text) → Dict Text → Dict Text
unfolding mark_all
mark_collisions [] errors = errors
mark_collisions ((key, originals) ∷ groups) errors =
    mark_collisions groups
      (if ltb (length originals) 2 then errors else mark_all (collision_error key) originals errors)

unfoldable pub validate_dns_labels : List Text → Dict Text
unfolding collect_labels mark_collisions
validate_dns_labels labels =
    let (errors, normalized) = collect_labels labels [] [] in mark_collisions normalized errors
