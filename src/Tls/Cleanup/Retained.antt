-- ===== src/Tls/Cleanup/Retained.antt =====
-- Which files of the certificate folder the clean-up takes.
use appytizer_app_server.Base.{
  ◌+◌, ◌≡◌, refl, sym, ap, ap₂, ◌∙◌, inl, inr, Bool, true, false, not, List, [], ◌∷◌, ◌++◌,
  append_assoc, arith, some, Text, codes, find, starts_with-append, take, take-append, length,
  length-append, keep, All, Bool-cases, ◌==◌,
}
use appytizer_app_server.Dns.{site_suffix}
use appytizer_app_server.Sites.Scan.{Answer}
use appytizer_app_server.Tls.Cleanup.{
  hostname_of, is_unused, remove_unused_from, remove_unused_site_certificates,
}

abbrev pub stays : List Text → Text → Bool
stays hostnames filename = not (is_unused hostnames filename)

remove_unused_from-stays :
    (fails : Text → Bool) (hostnames filenames : List Text)
    → let (left, done) = remove_unused_from fails hostnames filenames in
      (keep (stays hostnames) left ≡ keep (stays hostnames) filenames)
      × (done ≡ true → left ≡ keep (stays hostnames) filenames)
unfolding remove_unused_from
remove_unused_from-stays fails hostnames [] = (refl, λ e. refl)
remove_unused_from-stays fails hostnames (f ∷ fs) = elim (Bool-cases (is_unused hostnames f)) [
  | inl unused ↦ rw unused (ground (arith, remove_unused_from-stays fails hostnames fs))
  | inr used ↦ rw used (ground (arith, remove_unused_from-stays fails hostnames fs))
]

-- No file of a retained hostname, and none that belongs to no hostname, is ever removed, and the
-- order stays.
pub remove_unused_site_certificates-stays :
    (folder : Answer) (fails : Text → Bool) (hostnames filenames : List Text)
    → keep (stays hostnames) (remove_unused_site_certificates folder fails hostnames filenames).0
      ≡ keep (stays hostnames) filenames
unfolding remove_unused_site_certificates
remove_unused_site_certificates-stays folder fails hostnames filenames =
    ground (arith, (remove_unused_from-stays fails hostnames filenames).0)

-- If the clean-up of a folder that is there succeeds, the files of retained hostnames and those that
-- belong to no hostname are all that is left.
pub remove_unused_site_certificates-keep :
    (folder : Answer) (fails : Text → Bool) (hostnames filenames : List Text)
    → folder.value ≡ true
    → (remove_unused_site_certificates folder fails hostnames filenames).1 ≡ true
    → (remove_unused_site_certificates folder fails hostnames filenames).0
      ≡ keep (stays hostnames) filenames
unfolding remove_unused_site_certificates
remove_unused_site_certificates-keep folder fails hostnames filenames there h =
    ground (arith, remove_unused_from-stays fails hostnames filenames)

-- No dot in a label.
abbrev pub HasNoDot : Text → Type 0
HasNoDot = All (λ c. (b'.' == c) ≡ false)

find-dot :
    (l tail rest : Text)
    → HasNoDot l
    → find ((b'.') ∷ tail) (l ++ ((b'.') ∷ (tail ++ rest))) ≡ some (length l)
find-dot [] tail rest v = ground (arith, starts_with-append tail rest)
find-dot (c ∷ l) tail rest v = rw (v.0, find-dot l tail rest v.1) refl

-- The file of a site whose label has no dot belongs to the site's hostname, whatever stands behind
-- the hostname's dot.
pub hostname_of-site :
    (label rest : Text)
    → HasNoDot label
    → hostname_of (label ++ (site_suffix ++ (codes "." ++ rest))) ≡ some (label ++ site_suffix)
unfolding hostname_of
hostname_of-site label rest v =
    let at : length label + 5 ≡ length (label ++ site_suffix) =
      omega (arith, length-append label site_suffix) in
    let whole : label ++ (site_suffix ++ (codes "." ++ rest))
        ≡ (label ++ site_suffix) ++ (codes "." ++ rest) =
      sym (append_assoc label site_suffix (codes "." ++ rest)) in
    rw (hostname_of, find-dot label (codes "test.") rest v)
      (ap some (ap₂ take at whole ∙ take-append (label ++ site_suffix) (codes "." ++ rest)))
