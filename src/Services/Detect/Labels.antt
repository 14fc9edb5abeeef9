-- ===== src/Services/Detect/Labels.antt =====
-- The versions that Provider::detect lists, and the status that it leaves.
use appytizer_app_server.Base.{
  ◌≡◌, refl, ap, ◌∙◌, inl, inr, Bool, true, false, not, ◌||◌, ◌&&◌, List, [], ◌∷◌, ◌++◌, arith,
  Bool-cases, Text, text_eq, text_eq_iff, any, keep,
}
use appytizer_app_server.Services.Provider.{
  InstalledVersion, Windows, Provider, no_status, is_within,
}
use appytizer_app_server.Services.Detect.{
  is_known, add_executable, add_executables, detect_services, detect_executables, preferred_first,
  choose_active, detect,
}

-- No label stands twice.
abbrev pub are_distinct : List InstalledVersion → Bool
are_distinct [] = true
are_distinct (v ∷ vs) = not (is_known vs v.version_label) && are_distinct vs

is_known-append :
    (vs : List InstalledVersion) (v : InstalledVersion) (label : Text)
    → is_known (vs ++ (v ∷ [])) label ≡ (is_known vs label || text_eq v.version_label label)
is_known-append [] v label = ground arith
is_known-append (w ∷ vs) v label = ground (arith, is_known-append vs v label)

are_distinct-append :
    (vs : List InstalledVersion) (v : InstalledVersion)
    → are_distinct vs ≡ true
    → is_known vs v.version_label ≡ false
    → are_distinct (vs ++ (v ∷ [])) ≡ true
are_distinct-append [] v d k = refl
are_distinct-append (w ∷ vs) v d k = ground (
  arith,
  are_distinct-append vs v,
  is_known-append vs v w.version_label,
  text_eq_iff w.version_label v.version_label,
  text_eq_iff v.version_label w.version_label,
)

any-append : (f : Text → Bool) (xs ys : List Text) → any f (xs ++ ys) ≡ (any f xs || any f ys)
any-append f [] ys = refl
any-append f (x ∷ xs) ys = ground (arith, any-append f xs ys)

any-keep :
    (f g : Text → Bool) (xs : List Text)
    → (any f (keep g xs) || any f (keep (λ x. not (g x)) xs)) ≡ any f xs
any-keep f g [] = refl
any-keep f g (x ∷ xs) = ground (arith, any-keep f g xs)

module _ (W : Windows) where
  add_executable-are_distinct :
      (e : Text) (p : Provider)
      → are_distinct p.versions ≡ true
      → are_distinct (add_executable W e p).versions ≡ true
  unfolding add_executable
  add_executable-are_distinct e p d = elim (Bool-cases (is_known p.versions (W.version_of e))) [
    | inl k ↦ rw (add_executable, k) d
    | inr k ↦ rw (add_executable, k) (are_distinct-append p.versions _ d k)
  ]

  add_executable-is_known :
      (e label : Text) (p : Provider)
      → is_known (add_executable W e p).versions label
        ≡ (is_known p.versions label || text_eq (W.version_of e) label)
  unfolding add_executable
  add_executable-is_known e label p = elim (Bool-cases (is_known p.versions (W.version_of e))) [
    | inl k ↦
        rw (add_executable, k)
          (ground (
            arith,
            k,
            text_eq_iff (W.version_of e) label,
            ap (is_known p.versions) {x = W.version_of e} {y = label},
          ))
    | inr k ↦ rw (add_executable, k) (is_known-append p.versions _ label)
  ]

  add_executables-versions :
      (es : List Text) (p : Provider) (label : Text)
      → are_distinct p.versions ≡ true
      → (are_distinct (add_executables W es p).versions ≡ true)
        × (is_known (add_executables W es p).versions label
            ≡ (is_known p.versions label || any (λ e. text_eq (W.version_of e) label) es))
  unfolding add_executables
  add_executables-versions [] p label d = (d, ground arith)
  add_executables-versions (e ∷ es) p label d =
      let p' = add_executable W e p in
      let (rest_distinct, rest_known) =
        add_executables-versions es p' label (add_executable-are_distinct e p d) in
      (rest_distinct, ground (arith, rest_known, add_executable-is_known e label p))

  add_executables-status :
      (es : List Text) (p : Provider)
      → ((add_executables W es p).status ≡ p.status)
        × ((add_executables W es p).process ≡ p.process)
  unfolding add_executables add_executable
  add_executables-status [] p = (refl, refl)
  add_executables-status (e ∷ es) p =
      ground (arith, add_executables-status es (add_executable W e p))

  choose_active-rest :
      (p : Provider)
      → ((choose_active W p).versions ≡ p.versions)
        × ((choose_active W p).status ≡ p.status)
        × ((choose_active W p).process ≡ p.process)
  unfolding choose_active
  choose_active-rest p = ground arith

  forgotten : Provider → Provider
  forgotten p = record p { versions = []; status = no_status }

  detect_services-no_tokens : (p : Provider) → p.service_tokens ≡ [] → detect_services W p ≡ p
  unfolding detect_services
  detect_services-no_tokens p e = rw (detect_services, e) refl

  -- Without tokens, only the executables count.
  detect-executables :
      (es : List Text) (p : Provider)
      → p.service_tokens ≡ []
      → detect W es p
        ≡ choose_active W (add_executables W (preferred_first W p.preferred_root es) (forgotten p))
  unfolding detect detect_executables forgotten
  detect-executables es p e =
      ap (λ (q : Provider). choose_active W (detect_executables W es q))
        (detect_services-no_tokens (forgotten p) e)

  any-preferred_first :
      (f : Text → Bool) (root : Text) (es : List Text)
      → any f (preferred_first W root es) ≡ any f es
  unfolding preferred_first
  any-preferred_first f root es =
      any-append f (keep (λ e. is_within W e root) es) (keep (λ e. not (is_within W e root)) es)
      ∙ any-keep f (λ e. is_within W e root) es

  -- For a provider without service tokens, the versions that a detection lists have different labels,
  -- and the labels are exactly those of the executables that were found.
  pub detect-labels :
      (es : List Text) (p : Provider) (label : Text)
      → p.service_tokens ≡ []
      → (are_distinct (detect W es p).versions ≡ true)
        × (is_known (detect W es p).versions label ≡ any (λ e. text_eq (W.version_of e) label) es)
  unfolding forgotten
  detect-labels es p label no_tokens =
      let es' = preferred_first W p.preferred_root es in
      let (d, k) = add_executables-versions es' (forgotten p) label refl in
      let listed : (detect W es p).versions ≡ (add_executables W es' (forgotten p)).versions =
        ap (λ (q : Provider). q.versions) (detect-executables es p no_tokens)
        ∙ (choose_active-rest (add_executables W es' (forgotten p))).0 in
      (
        ap are_distinct listed ∙ d,
        ap (λ vs. is_known vs label) listed
            ∙ (k ∙ any-preferred_first (λ e. text_eq (W.version_of e) label) p.preferred_root es),
      )

  -- After a detection, the status of a provider without service tokens says that nothing runs,
  -- also where the provider owns a process: the process is kept, and still runs.
  pub detect_forgets :
      (es : List Text) (p : Provider)
      → p.service_tokens ≡ []
      → ((detect W es p).status.running ≡ false) × ((detect W es p).process ≡ p.process)
  unfolding forgotten
  detect_forgets es p no_tokens =
      let es' = preferred_first W p.preferred_root es in
      let (a, b) = add_executables-status es' (forgotten p) in
      let (same, s, q) = choose_active-rest (add_executables W es' (forgotten p)) in
      let found = detect-executables es p no_tokens in
      (
        ap (λ (r : Provider). r.status.running) found ∙ ap (λ r. r.running) (s ∙ a),
        ap (λ (r : Provider). r.process) found ∙ (q ∙ b),
      )
