-- ===== src/Services/Version/Infix.antt =====
-- What parse_version finds.
use appytizer_app_server.Base.{
  ℕ, zero, suc, ◌≡◌, refl, sym, ap, ◌∙◌, inl, inr, List, [], ◌∷◌, ◌++◌, append_assoc, arith, none,
  some, Option-cases, Text, ◌⊎◌, All,
}
use appytizer_app_server.Services.Version.{
  digits, groups, version_at, search_version, parse_version,
}

digits-append : (s : Text) → (digits s).0 ++ (digits s).1 ≡ s
digits-append [] = refl
digits-append (c ∷ s) = ground (arith, digits-append s)

groups-append : (n : ℕ) (s : Text) → (groups n s).0 ++ (groups n s).1 ≡ s
groups-append zero s = refl
groups-append (suc n) [] = refl
groups-append (suc n) (c ∷ s) =
    let run = (digits s).0 in
    let rest = (digits s).1 in
    ground (
      arith,
      digits-append s,
      groups-append n rest,
      append_assoc run (groups n rest).0 (groups n rest).1,
    )

version_at-append :
    (s version : Text) → version_at s ≡ some version → version ++ (groups 3 (digits s).1).1 ≡ s
version_at-append s version h = ground (
  arith,
  digits-append s,
  groups-append 3 (digits s).1,
  append_assoc (digits s).0 (groups 3 (digits s).1).0 (groups 3 (digits s).1).1,
)

search_version-append :
    (s version : Text)
    → search_version s ≡ some version
    → (before : Text) × (after : Text) × (s ≡ before ++ (version ++ after))
      × (version_at (version ++ after) ≡ some version)
search_version-append [] version h = absurd (cc)
search_version-append (c ∷ s) version h = elim (Option-cases (version_at (c ∷ s))) [
  | inr (found, e) ↦
      let here : version_at (c ∷ s) ≡ some version = ground (arith) in
      let p = version_at-append (c ∷ s) version here in
      ([], (groups 3 (digits (c ∷ s)).1).1, sym p, ap version_at p ∙ here)
  | inl e ↦
      let (before, after, p, q) = search_version-append s version (ground (arith)) in
      (c ∷ before, after, ap (◌∷◌ c) p, q)
]

abbrev pub suffixes : Text → List Text
suffixes [] = []
suffixes (c ∷ s) = (c ∷ s) ∷ suffixes s

search_version-none :
    (s : Text) → search_version s ≡ none → All (λ suffix. version_at suffix ≡ none) (suffixes s)
search_version-none [] h = tt
search_version-none (c ∷ s) h = elim (Option-cases (version_at (c ∷ s))) [
  | inr (found, e) ↦ absurd (ground arith)
  | inl e ↦ (e, search_version-none s (ground arith))
]

-- parse_version gives a version that stands in the text, where the pattern matches it; or the
-- pattern matches nowhere in the text, and the text itself is the version.
pub parse_version-stands :
    (text : Text)
    → ((before : Text) × (after : Text) × (text ≡ before ++ (parse_version text ++ after))
        × (version_at (parse_version text ++ after) ≡ some (parse_version text)))
      ⊎ ((parse_version text ≡ text) × All (λ suffix. version_at suffix ≡ none) (suffixes text))
unfolding parse_version
parse_version-stands text = elim (Option-cases (search_version text)) [
  | inl e ↦ inr (rw (parse_version, e) refl, search_version-none text e)
  | inr (version, e) ↦ rw (parse_version, e) (inl (search_version-append text version e))
]
