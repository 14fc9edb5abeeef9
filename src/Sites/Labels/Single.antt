-- ===== src/Sites/Labels/Single.antt =====
-- SiteRegistry::validate_dns_label against the rule for DNS labels.
use appytizer_app_server.Base.{
  ℕ, ◌≤◌, ◌<◌, ◌≡◌, refl, ◌≢◌, ◌↔◌, ◌⊎◌, Bool, true, false, [], ◌∷◌, arith, Text, length, All, all,
  is_empty, not, ◌||◌, ltb, ◌==◌, if◌then◌else◌, not_ltb→le, le→not_ltb,
}
use appytizer_app_server.Sites.Labels.{front, back, is_label_byte, validate_dns_label}

-- A letter, a digit or a hyphen.
abbrev pub IsLabelByte : ℕ → Type 0
IsLabelByte c =
    ((b'a' ≤ c) × (c ≤ b'z'))
    ⊎ (((b'A' ≤ c) × (c ≤ b'Z')) ⊎ (((b'0' ≤ c) × (c ≤ b'9')) ⊎ (c ≡ b'-')))

-- From 1 to 63 letters, digits and hyphens, with no hyphen at either end.
pub record IsDnsLabel (label : Text) : Type 0 where
  pub nonempty : 0 < length label
  pub short : length label ≤ 63
  pub starts_well : front label ≢ b'-'
  pub ends_well : back label ≢ b'-'
  pub bytes : All IsLabelByte label

is_label_byte_iff : (c : ℕ) → (is_label_byte c ≡ true) ↔ IsLabelByte c
is_label_byte_iff c = (λ h. ground arith, λ h. ground arith)

all-is_label_byte : (label : Text) → (all is_label_byte label ≡ true) ↔ All IsLabelByte label
all-is_label_byte [] = (λ _. tt, λ _. refl)
all-is_label_byte (c ∷ cs) = (
  λ h. ((is_label_byte_iff c).0 (ground arith), (all-is_label_byte cs).0 (ground arith)),
  λ h. ground (arith, (is_label_byte_iff c).1 h.0, (all-is_label_byte cs).1 h.1),
)

nonempty_of : (label : Text) → is_empty label ≡ false → 0 < length label
nonempty_of [] h = cc
nonempty_of (c ∷ cs) h = omega arith

empty_of : (label : Text) → 0 < length label → is_empty label ≡ false
empty_of [] h = absurd (omega arith)
empty_of (c ∷ cs) h = refl

-- A ladder of refusals lets pass what fails every test.
ladder_passes :
    (a b c d : Bool) (w x y z : Text)
    → is_empty w ≡ false
    → is_empty x ≡ false
    → is_empty y ≡ false
    → is_empty z ≡ false
    → ((if a then w else if b then x else if c then y else if d then z else []) ≡ [])
      ↔ ((a ≡ false) × (b ≡ false) × (c ≡ false) × (d ≡ false))
ladder_passes a b c d w x y z hw hx hy hz = ground arith

-- A name has no error exactly when it is a DNS label.
pub validate_dns_label_iff : (label : Text) → (validate_dns_label label ≡ []) ↔ IsDnsLabel label
unfolding validate_dns_label
validate_dns_label_iff label =
    let ladder =
      ladder_passes (is_empty label) (ltb 63 (length label))
        ((front label == b'-') || (back label == b'-')) (not (all is_label_byte label)) _ _ _ _ refl
        refl refl refl in
    (
      λ h.
          let p = ladder.0 h in
          record {
            nonempty = nonempty_of label p.0;
            short = not_ltb→le 63 (length label) p.1;
            starts_well = ground arith;
            ends_well = ground arith;
            bytes = (all-is_label_byte label).0 (ground arith);
          },
      λ v. ladder.1 (
        empty_of label v.nonempty,
        le→not_ltb 63 (length label) v.short,
        ground arith,
        ground (arith, (all-is_label_byte label).1 v.bytes),
      ),
    )
