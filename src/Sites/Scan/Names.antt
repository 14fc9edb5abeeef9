-- ===== src/Sites/Scan/Names.antt =====
-- What a scan publishes: exactly the names that are labels and have no rival.
use mathlib.Core.List.{append_cancel_right}
use appytizer_app_server.Base.{
  ◌≤◌, ◌≡◌, refl, ◌↔◌, inl, inr, Bool, true, false, ◌&&◌, List, [], ◌∷◌, ◌++◌, arith, map, some,
  Text, length, All, is_empty, Bool-cases, text_eq_iff, text_eq_refl, text_mem, lowercase, ltb,
  keep,
}
use appytizer_app_server.Base.Dict.{lookup}
use appytizer_app_server.Dns.{site_suffix}
use appytizer_app_server.Sites.Labels.{validate_dns_label, validate_dns_labels}
use appytizer_app_server.Sites.Labels.Single.{IsDnsLabel, validate_dns_label_iff}
use appytizer_app_server.Sites.Labels.Collisions.{rivals, lookup-validate_dns_labels}
use appytizer_app_server.Sites.Scan.{
  Entry, Folder, ScannedSite, scanned_site, scan_loop, scan, with_error, annotate,
}

-- What each scanned site says, before the collisions are known.
abbrev pub IsScanned : ScannedSite → Type 0
IsScanned s = (s.error ≡ validate_dns_label s.name) × (s.hostname ≡ lowercase s.name ++ site_suffix)

All-IsScanned-snoc :
    (sites : List ScannedSite) (e : Entry)
    → All IsScanned sites
    → All IsScanned (sites ++ (scanned_site e ∷ []))
unfolding scanned_site
All-IsScanned-snoc [] e v = ((refl, refl), tt)
All-IsScanned-snoc (s ∷ sites) e v = (v.0, All-IsScanned-snoc sites e v.1)

scan_loop-IsScanned :
    (es : List Entry) (error : Bool) (acc scanned : List ScannedSite)
    → All IsScanned acc
    → scan_loop error es acc ≡ some scanned
    → All IsScanned scanned
unfolding scan_loop
scan_loop-IsScanned [] error acc scanned v h = ground arith
scan_loop-IsScanned (e ∷ es) error acc scanned v h = ground (
  arith,
  scan_loop-IsScanned es e.is_directory.failed acc scanned v,
  scan_loop-IsScanned es e.has_html_index.failed (acc ++ (scanned_site e ∷ [])) scanned
      (All-IsScanned-snoc acc e v),
)

scan-IsScanned :
    (folder : Folder) (scanned : List ScannedSite)
    → scan folder ≡ some scanned
    → All IsScanned scanned
unfolding scan
scan-IsScanned folder scanned h =
    ground (arith, scan_loop-IsScanned folder.entries false [] scanned tt)

-- No text stands twice in the list.
abbrev pub Distinct : List Text → Type 0
Distinct [] = Unit
Distinct (t ∷ ts) = (text_mem t ts ≡ false) × Distinct ts

module _ (names : List Text) where
  abbrev annotated : ScannedSite → ScannedSite
  annotated s = with_error (lookup s.name (validate_dns_labels names)) s

  abbrev published : ScannedSite → Bool
  published s = is_empty (annotated s).error

  published_lem :
      (s : ScannedSite)
      → IsScanned s
      → text_mem s.name names ≡ true
      → published s
        ≡ (is_empty (validate_dns_label s.name) && ltb (length (rivals (lowercase s.name) names)) 2)
  published_lem s v m = rw (lookup-validate_dns_labels s.name names) (ground (arith, v.0))

  -- The hostnames of the published sites.
  abbrev hosts : List ScannedSite → List Text
  hosts sites = map (λ s. s.hostname) (keep published sites)

  rival_of_host :
      (n : Text) (xs : List ScannedSite)
      → All IsScanned xs
      → ((t : Text) → text_mem t (map (λ s. s.name) xs) ≡ true → text_mem t names ≡ true)
      → text_mem (lowercase n ++ site_suffix) (hosts xs) ≡ true
      → 1 ≤ length (rivals (lowercase n) (map (λ s. s.name) xs))
  rival_of_host n [] v sub h = cc
  rival_of_host n (y ∷ ys) v sub h = ground (
    arith,
    published_lem y v.0 (sub y.name (ground (arith, text_eq_refl y.name))),
    rival_of_host n ys v.1 (λ t m. sub t (ground arith)),
    text_eq_iff (lowercase n ++ site_suffix) y.hostname,
    append_cancel_right (lowercase n) (lowercase y.name) site_suffix,
    text_eq_iff (lowercase y.name) (lowercase n),
  )

  hosts-Distinct :
      (xs : List ScannedSite)
      → All IsScanned xs
      → ((t : Text) → text_mem t (map (λ s. s.name) xs) ≡ true → text_mem t names ≡ true)
      → ((k : Text) → length (rivals k (map (λ s. s.name) xs)) ≤ length (rivals k names))
      → Distinct (hosts xs)
  hosts-Distinct [] v sub le = tt
  hosts-Distinct (x ∷ xs) v sub le =
      let m = sub x.name (ground (arith, text_eq_refl x.name)) in
      let rest = hosts-Distinct xs v.1 (λ t m. sub t (ground arith)) (λ k. ground (arith, le k)) in
      elim (Bool-cases (published x)) [
        | inr hidden ↦ rw hidden rest
        | inl shown ↦ rw shown (
          ground (
            arith,
            published_lem x v.0 m,
            rival_of_host x.name xs v.1 (λ t m. sub t (ground arith)),
            le (lowercase x.name),
            text_eq_refl (lowercase x.name),
          ),
          rest,
        )
      ]

  -- The hostnames that the annotated sites publish.
  hosts-annotated :
      (sites : List ScannedSite)
      → map (λ s. s.hostname) (keep (λ s. is_empty s.error) (map annotated sites)) ≡ hosts sites
  hosts-annotated [] = refl
  hosts-annotated (s ∷ sites) = ground (arith, hosts-annotated sites)

  -- Whether a site is published depends on its own name and on the rivals of that name.
  abbrev pub PublishedIff : ScannedSite → Type 0
  PublishedIff s =
      ((annotated s).error ≡ [])
      ↔ (IsDnsLabel s.name × (length (rivals (lowercase s.name) names) ≡ 1))

  rivals_of_self :
      (n : Text) (ns : List Text)
      → text_mem n ns ≡ true
      → is_empty (validate_dns_label n) ≡ true
      → 1 ≤ length (rivals (lowercase n) ns)
  rivals_of_self n [] m e = cc
  rivals_of_self n (x ∷ ns) m e =
      ground (arith, text_eq_iff n x, text_eq_refl (lowercase n), rivals_of_self n ns)

  All-PublishedIff :
      (xs : List ScannedSite)
      → All IsScanned xs
      → ((t : Text) → text_mem t (map (λ s. s.name) xs) ≡ true → text_mem t names ≡ true)
      → All PublishedIff xs
  All-PublishedIff [] v sub = tt
  All-PublishedIff (x ∷ xs) v sub =
      let m = sub x.name (ground (arith, text_eq_refl x.name)) in
      (
        (
          λ e. (
            (validate_dns_label_iff x.name).0 (ground (arith, published_lem x v.0 m)),
            ground (arith, published_lem x v.0 m, rivals_of_self x.name names m),
          ),
          λ e.
              let ok = (validate_dns_label_iff x.name).1 e.0 in
              ground (arith, published_lem x v.0 m),
        ),
        All-PublishedIff xs v.1 (λ t k. sub t (ground arith)),
      )

-- Of the folders that a scan finds, a site is left without an error exactly if its name is a DNS
-- label and no other folder's valid name has the same lower case.
pub annotate-published :
    (folder : Folder) (scanned : List ScannedSite)
    → scan folder ≡ some scanned
    → All (PublishedIff (map (λ s. s.name) scanned)) scanned
annotate-published folder scanned e =
    All-PublishedIff (map (λ s. s.name) scanned) scanned (scan-IsScanned folder scanned e)
      (λ t m. m)

-- No two sites that a scan leaves without an error have the same hostname.
pub annotate-Distinct :
    (folder : Folder) (scanned : List ScannedSite)
    → scan folder ≡ some scanned
    → Distinct (map (λ s. s.hostname) (keep (λ s. is_empty s.error) (annotate scanned)))
unfolding annotate
annotate-Distinct folder scanned e =
    let names = map (λ s. s.name) scanned in
    rw (hosts-annotated names scanned)
      (hosts-Distinct names scanned (scan-IsScanned folder scanned e) (λ t m. m) (λ k. omega arith))
