-- ===== src/Base/Dict.antt =====
-- std::map<std::string, V> as an association list, observed by lookup.
use mathlib.Core.Path.{◌≡◌, refl}
use mathlib.Core.List.{List, [], ◌∷◌}
use mathlib.Core.Option.{Option, none, some}
use native.Mathlib.Omega.{arith}
use appytizer_app_server.Base.Tests.{if◌then◌else◌}
use appytizer_app_server.Base.Texts.{Text, text_eq, text_eq_iff}

abbrev pub Dict {ℓ} : Type ℓ → Type ℓ
Dict V = List (Text × V)

module _ {ℓ} {V : Type ℓ} where
  -- `m[key] = value`
  unfoldable pub insert : Text → V → Dict V → Dict V
  insert key value [] = (key, value) ∷ []
  insert key value ((other, old) ∷ rest) =
      if text_eq other key then (other, value) ∷ rest else (other, old) ∷ insert key value rest

  -- `m.find(key)`
  unfoldable pub lookup : Text → Dict V → Option V
  lookup key [] = none
  lookup key ((other, value) ∷ rest) = if text_eq other key then some value else lookup key rest

  pub lookup-insert :
      (key asked : Text) (value : V) (m : Dict V)
      → lookup asked (insert key value m)
        ≡ (if text_eq key asked then some value else lookup asked m)
  unfolding insert lookup
  lookup-insert key asked value [] = refl
  lookup-insert key asked value ((other, old) ∷ rest) = ground (
    arith,
    lookup-insert key asked value rest,
    text_eq_iff other asked,
    text_eq_iff other key,
    text_eq_iff key asked,
  )
