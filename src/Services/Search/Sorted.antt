-- ===== src/Services/Search/Sorted.antt =====
-- The set of paths in engine/services/detection_utils.cpp: ascending, and with what was inserted.
use appytizer_app_server.Base.{
  ℕ, ◌≡◌, refl, inl, inr, true, false, ◌||◌, List, [], ◌∷◌, arith, Bool-cases, Text, text_eq,
  text_eq_iff, text_mem, All,
}
use appytizer_app_server.Services.Search.{rank, before, insert_path}

rank_inj : (x y : ℕ) → rank x ≡ rank y → x ≡ y
rank_inj x y h = ground arith

pub before_trans : (p q r : Text) → before p q ≡ true → before q r ≡ true → before p r ≡ true
before_trans [] [] r h k = absurd cc
before_trans [] (y ∷ q) [] h k = absurd cc
before_trans [] (y ∷ q) (z ∷ r) h k = refl
before_trans (x ∷ p) [] r h k = absurd cc
before_trans (x ∷ p) (y ∷ q) [] h k = absurd cc
before_trans (x ∷ p) (y ∷ q) (z ∷ r) h k = ground (arith, before_trans p q r)

before_total : (p q : Text) → before p q ≡ false → before q p ≡ false → p ≡ q
before_total [] [] h k = refl
before_total [] (y ∷ q) h k = absurd cc
before_total (x ∷ p) [] h k = absurd cc
before_total (x ∷ p) (y ∷ q) h k = ground (arith, rank_inj x y, before_total p q)

-- Each path is before all that are behind it.
unfoldable pub IsAscending : List Text → Type 0
IsAscending [] = Unit
IsAscending (path ∷ paths) = All (λ other. before path other ≡ true) paths × IsAscending paths

module _ {ℓ} (P : Text → Type ℓ) where
  pub insert_path-All :
      (path : Text) (paths : List Text) → P path → All P paths → All P (insert_path path paths)
  insert_path-All path [] h all = (h, tt)
  insert_path-All path (other ∷ others) h (first, rest) = elim (Bool-cases (before path other)) [
    | inl b ↦ rw b (h, (first, rest))
    | inr b ↦ elim (Bool-cases (before other path)) [
      | inl c ↦ rw (b, c) (first, insert_path-All path others h rest)
      | inr c ↦ rw (b, c) (first, rest)
    ]
  ]

before-All :
    (path other : Text) (paths : List Text)
    → before path other ≡ true
    → All (λ behind. before other behind ≡ true) paths
    → All (λ behind. before path behind ≡ true) paths
before-All path other [] h all = tt
before-All path other (p ∷ paths) h (first, rest) =
    (before_trans path other p h first, before-All path other paths h rest)

pub insert_path-IsAscending :
    (path : Text) (paths : List Text) → IsAscending paths → IsAscending (insert_path path paths)
unfolding IsAscending
insert_path-IsAscending path [] a = (tt, tt)
insert_path-IsAscending path (other ∷ others) (first, rest) =
    elim (Bool-cases (before path other)) [
      | inl b ↦ rw b ((b, before-All path other others b first), (first, rest))
      | inr b ↦ elim (Bool-cases (before other path)) [
        | inl c ↦
            rw (b, c)
              (
                insert_path-All (λ q. before other q ≡ true) path others c first,
                insert_path-IsAscending path others rest,
              )
        | inr c ↦ rw (b, c) (first, rest)
      ]
    ]

pub text_mem-insert_path :
    (asked path : Text) (paths : List Text)
    → text_mem asked (insert_path path paths) ≡ (text_mem asked paths || text_eq asked path)
text_mem-insert_path asked path [] = ground arith
text_mem-insert_path asked path (other ∷ others) = ground (
  arith,
  text_mem-insert_path asked path others,
  before_total path other,
  text_eq_iff asked path,
  text_eq_iff asked other,
)
