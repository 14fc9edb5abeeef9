-- ===== src/Tls/Hostname/Agreement.antt =====
-- Every hostname that the site registry publishes is one that the certificate manager accepts.
use appytizer_app_server.Base.{
  ℕ, zero, suc, ◌-◌, ◌<◌, ◌≡◌, refl, ap, ◌∙◌, ◌≢◌, true, false, [], ◌∷◌, ◌++◌, arith, Text, length,
  get_or, take, is_empty, All, all, ◌==◌, ends_with-append, length-append, take-append, lower,
  lowercase,
}
use appytizer_app_server.Dns.{site_suffix}
use appytizer_app_server.Sites.Labels.{front, back, validate_dns_label}
use appytizer_app_server.Sites.Labels.Single.{IsLabelByte, IsDnsLabel, validate_dns_label_iff}
use appytizer_app_server.Tls.Hostname.{is_host_byte, valid_host_label, valid_hostname}

lower-IsLabelByte : (c : ℕ) → IsLabelByte c → is_host_byte (lower c) ≡ true
unfolding lower
lower-IsLabelByte c h = ground arith

lower-ne-hyphen : (c : ℕ) → c ≢ b'-' → (lower c == b'-') ≡ false
unfolding lower
lower-ne-hyphen c h = ground arith

all-lowercase : (l : Text) → All IsLabelByte l → all is_host_byte (lowercase l) ≡ true
all-lowercase [] v = refl
all-lowercase (c ∷ l) v = ground (arith, lower-IsLabelByte c v.0, all-lowercase l v.1)

length-lowercase : (l : Text) → length (lowercase l) ≡ length l
length-lowercase [] = refl
length-lowercase (c ∷ l) = ap suc (length-lowercase l)

get_or-lowercase :
    (l : Text) (i : ℕ) → i < length l → get_or (lowercase l) i 0 ≡ lower (get_or l i 0)
get_or-lowercase [] i h = absurd (omega arith)
get_or-lowercase (c ∷ l) zero h = refl
get_or-lowercase (c ∷ l) (suc i) h = get_or-lowercase l i (omega arith)

label_of-append :
    (l : Text) → take (length (l ++ site_suffix) - length site_suffix) (l ++ site_suffix) ≡ l
label_of-append l =
    ap (λ n. take n (l ++ site_suffix)) (omega (arith, length-append l site_suffix))
    ∙ take-append l site_suffix

valid_hostname-suffixed :
    (l : Text) → 0 < length l → valid_hostname (l ++ site_suffix) ≡ valid_host_label l
unfolding valid_hostname
valid_hostname-suffixed l h =
    rw (valid_hostname, ends_with-append l site_suffix, label_of-append l)
      (ground (arith, length-append l site_suffix))

empty-length : (l : Text) → 0 < length l → is_empty l ≡ false
empty-length [] h = absurd (omega arith)
empty-length (c ∷ l) h = refl

valid_host_label-lowercase : (l : Text) → IsDnsLabel l → valid_host_label (lowercase l) ≡ true
unfolding valid_host_label
valid_host_label-lowercase l v =
    let n = length-lowercase l in
    rw
      (
        get_or-lowercase l 0 v.nonempty,
        n,
        get_or-lowercase l (length l - 1) (omega (arith, v.nonempty)),
      )
      (ground (
        arith,
        empty-length (lowercase l) (omega (arith, n, v.nonempty)),
        all-lowercase l v.bytes,
        lower-ne-hyphen (front l) v.starts_well,
        lower-ne-hyphen (back l) v.ends_well,
      ))

-- The lower case of a name without an error, with the site suffix, is a valid hostname: the
-- certificate manager refuses no site that the registry publishes.
pub valid_hostname-lowercase :
    (label : Text)
    → validate_dns_label label ≡ []
    → valid_hostname (lowercase label ++ site_suffix) ≡ true
valid_hostname-lowercase label e =
    let v = (validate_dns_label_iff label).0 e in
    valid_hostname-suffixed (lowercase label) (omega (arith, length-lowercase label, v.nonempty))
    ∙ valid_host_label-lowercase label v
