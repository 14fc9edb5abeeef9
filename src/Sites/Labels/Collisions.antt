-- ===== src/Sites/Labels/Collisions.antt =====
-- SiteRegistry::validate_dns_labels: which of several folder names are refused, and how.
use appytizer_app_server.Base.{
  ◌≡◌, refl, ap, ◌∙◌, Bool, false, ◌&&◌, not, List, [], ◌∷◌, ◌++◌, append_assoc, append-nil, sym,
  inl, inr, arith, Text, length, All, is_empty, Bool-cases, text_eq, text_eq_iff, text_mem,
  lowercase, ltb, keep, if◌then◌else◌, Option, none, some,
}
use appytizer_app_server.Base.Dict.{Dict, lookup, insert, lookup-insert}
use appytizer_app_server.Sites.Labels.{
  validate_dns_label, push_label, collect_labels, collision_error, mark_all, mark_collisions,
  validate_dns_labels,
}

-- The valid labels that `key` is the lower case of.
abbrev is_rival : Text → Text → Bool
is_rival key l = is_empty (validate_dns_label l) && text_eq (lowercase l) key

abbrev pub rivals : Text → List Text → List Text
rivals key = keep (is_rival key)

abbrev group_of : Text → Dict (List Text) → List Text
group_of key [] = []
group_of key ((k, os) ∷ m) = if text_eq k key then os else group_of key m

group_of-push_label :
    (key k l : Text) (m : Dict (List Text))
    → group_of key (push_label k l m)
      ≡ (if text_eq k key then group_of key m ++ (l ∷ []) else group_of key m)
unfolding push_label
group_of-push_label key k l [] = ground arith
group_of-push_label key k l ((j, os) ∷ m) =
    ground
      (arith, text_eq_iff j k, text_eq_iff j key, text_eq_iff k key, group_of-push_label key k l m)

-- The first loop gathers the rivals of each key, and the errors of the others.
group_of-collect_labels :
    (key : Text) (labels : List Text) (errors : Dict Text) (m : Dict (List Text))
    → group_of key (collect_labels labels errors m).1 ≡ group_of key m ++ rivals key labels
unfolding collect_labels
group_of-collect_labels key [] errors m = sym (append-nil (group_of key m))
group_of-collect_labels key (l ∷ labels) errors m =
    elim (Bool-cases (is_empty (validate_dns_label l))) [
      | inl good ↦ rw good (
          ground (
            arith,
            group_of-collect_labels key labels errors (push_label (lowercase l) l m),
            group_of-push_label key (lowercase l) l m,
            append_assoc (group_of key m) (l ∷ []) (rivals key labels),
          ))
      | inr bad ↦
          rw bad (group_of-collect_labels key labels (insert l (validate_dns_label l) errors) m)
    ]

lookup-collect_labels :
    (l : Text) (labels : List Text) (errors : Dict Text) (m : Dict (List Text))
    → lookup l (collect_labels labels errors m).0 ≡ (
        if text_mem l labels && not (is_empty (validate_dns_label l))
        then some (validate_dns_label l)
        else lookup l errors)
unfolding collect_labels
lookup-collect_labels l [] errors m = refl
lookup-collect_labels l (x ∷ labels) errors m =
    elim (Bool-cases (is_empty (validate_dns_label x))) [
      | inl good ↦ rw good (
          ground (
            arith,
            lookup-collect_labels l labels errors (push_label (lowercase x) x m),
            text_eq_iff l x,
          ))
      | inr bad ↦ rw bad (
          ground (
            arith,
            lookup-collect_labels l labels (insert x (validate_dns_label x) errors) m,
            text_eq_iff l x,
            text_eq_iff x l,
            lookup-insert x l (validate_dns_label x) errors,
          ))
    ]

-- Each group stands under the lower case of its labels, and no key twice.
abbrev IsGrouped : Dict (List Text) → Type 0
IsGrouped [] = Unit
IsGrouped ((k, os) ∷ m) = All (λ l. lowercase l ≡ k) os × (group_of k m ≡ []) × IsGrouped m

lookup-mark_all :
    (l error : Text) (labels : List Text) (errors : Dict Text)
    → lookup l (mark_all error labels errors)
      ≡ (if text_mem l labels then some error else lookup l errors)
unfolding mark_all
lookup-mark_all l error [] errors = refl
lookup-mark_all l error (x ∷ labels) errors = ground (
  arith,
  lookup-mark_all l error labels (insert x error errors),
  text_eq_iff l x,
  text_eq_iff x l,
  lookup-insert x l error errors,
)

mem-stranger :
    (k l : Text) (os : List Text)
    → All (λ x. lowercase x ≡ k) os
    → text_eq k (lowercase l) ≡ false
    → text_mem l os ≡ false
mem-stranger k l [] v h = refl
mem-stranger k l (x ∷ os) v h = ground (
  arith,
  mem-stranger k l os v.1 h,
  text_eq_iff l x,
  text_eq_iff k (lowercase l),
  λ (e : l ≡ x). ap lowercase e,
)

-- The second loop marks the labels of each group of two or more.
lookup-mark_collisions :
    (l : Text) (m : Dict (List Text)) (errors : Dict Text)
    → IsGrouped m
    → lookup l (mark_collisions m errors) ≡ (
        if text_mem l (group_of (lowercase l) m) && not (ltb (length (group_of (lowercase l) m)) 2)
        then some (collision_error (lowercase l))
        else lookup l errors)
unfolding mark_collisions
lookup-mark_collisions l [] errors v = refl
lookup-mark_collisions l ((k, os) ∷ m) errors v = elim (Bool-cases (text_eq k (lowercase l))) [
  | inl same ↦
      let e = (text_eq_iff k (lowercase l)).0 same in
      rw (same, lookup-mark_collisions l m _ v.2, ← e, v.1)
        (ground (arith, lookup-mark_all l (collision_error k) os errors))
  | inr other ↦
      rw (other, lookup-mark_collisions l m _ v.2)
        (ground
          (arith, lookup-mark_all l (collision_error k) os errors, mem-stranger k l os v.0 other))
]

All-snoc :
    (k l : Text) (os : List Text)
    → All (λ x. lowercase x ≡ k) os
    → lowercase l ≡ k
    → All (λ x. lowercase x ≡ k) (os ++ (l ∷ []))
All-snoc k l [] v e = (e, tt)
All-snoc k l (x ∷ os) v e = (v.0, All-snoc k l os v.1 e)

IsGrouped-push_label :
    (l : Text) (m : Dict (List Text)) → IsGrouped m → IsGrouped (push_label (lowercase l) l m)
unfolding push_label
IsGrouped-push_label l [] v = ((refl, tt), refl, tt)
IsGrouped-push_label l ((k, os) ∷ m) v = elim (Bool-cases (text_eq k (lowercase l))) [
  | inl same ↦ rw same (All-snoc k l os v.0 (sym ((text_eq_iff k (lowercase l)).0 same)), v.1, v.2)
  | inr other ↦ rw other (
    v.0,
    ground (
      arith,
      v.1,
      group_of-push_label k (lowercase l) l m,
      text_eq_iff k (lowercase l),
      text_eq_iff (lowercase l) k,
    ),
    IsGrouped-push_label l m v.2,
  )
]

IsGrouped-collect_labels :
    (labels : List Text) (errors : Dict Text) (m : Dict (List Text))
    → IsGrouped m
    → IsGrouped (collect_labels labels errors m).1
unfolding collect_labels
IsGrouped-collect_labels [] errors m v = v
IsGrouped-collect_labels (l ∷ labels) errors m v =
    elim (Bool-cases (is_empty (validate_dns_label l))) [
      | inl good ↦ rw good (IsGrouped-collect_labels labels errors _ (IsGrouped-push_label l m v))
      | inr bad ↦ rw bad (IsGrouped-collect_labels labels _ m v)
    ]

mem-rivals :
    (l : Text) (labels : List Text)
    → text_mem l (rivals (lowercase l) labels)
      ≡ (text_mem l labels && is_empty (validate_dns_label l))
mem-rivals l [] = refl
mem-rivals l (x ∷ labels) = elim (Bool-cases (text_eq l x)) [
  | inl same ↦
      let e = (text_eq_iff l x).0 same in
      rw (← e) (
        ground
          (arith, mem-rivals l labels, text_eq_iff l l, text_eq_iff (lowercase l) (lowercase l)))
  | inr other ↦ ground (arith, mem-rivals l labels)
]

-- What a name in the list is refused for: itself, or another valid name of the same lower case.
abbrev pub label_error : Text → List Text → Option Text
label_error l labels =
    if not (text_mem l labels)
    then none
    else if not (is_empty (validate_dns_label l))
    then some (validate_dns_label l)
    else if ltb (length (rivals (lowercase l) labels)) 2
    then none
    else some (collision_error (lowercase l))

-- The map of errors holds exactly this, for every text.
pub lookup-validate_dns_labels :
    (l : Text) (labels : List Text) → lookup l (validate_dns_labels labels) ≡ label_error l labels
unfolding validate_dns_labels lookup
lookup-validate_dns_labels l labels =
    lookup-mark_collisions l (collect_labels labels [] []).1 _
      (IsGrouped-collect_labels labels [] [] tt)
    ∙ rw (group_of-collect_labels (lowercase l) labels [] [], lookup-collect_labels l labels [] [])
        (ground (arith, mem-rivals l labels))
