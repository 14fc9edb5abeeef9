-- ===== src/Dns/Bounds.antt =====
-- DnsServer::make_response on any packet, also a malformed one.
use appytizer_app_server.Base.{
  ℕ, suc, ◌+◌, ◌≤◌, ◌≡◌, refl, ◌⊎◌, inl, inr, Bool, true, false, List, [], ◌∷◌, ◌++◌, arith, Text,
  length, get_or, take, if◌then◌else◌, is_empty, ltb, ◌||◌, length-append, length-set, length-take,
  Bool-cases,
}
use appytizer_app_server.Dns.{decode_question_name, respond, make_response, answer_record}

-- No longer than the question and one answer, and under the query's id.
abbrev pub IsBounded : List ℕ → List ℕ → Type 0
IsBounded query r =
    (length r ≤ length query + 16)
    × (get_or r 0 0 ≡ get_or query 0 0)
    × (get_or r 1 0 ≡ get_or query 1 0)

IsBounded-if :
    (b : Bool) (x y : ℕ) (zs qs : List ℕ)
    → length zs ≤ length qs
    → IsBounded (x ∷ y ∷ qs) (if b then (x ∷ y ∷ zs) ++ answer_record else x ∷ y ∷ zs)
IsBounded-if true x y zs qs h = (omega (arith, length-append zs answer_record), refl, refl)
IsBounded-if false x y zs qs h = (omega arith, refl, refl)

respond-IsBounded :
    (query : List ℕ) (name : Text) (position : ℕ)
    → 2 ≤ length query
    → position + 4 ≤ length query
    → IsBounded query (respond query name position)
unfolding respond
respond-IsBounded [] name position h fits = absurd (omega arith)
respond-IsBounded (x ∷ []) name position h fits = absurd (omega arith)
respond-IsBounded (x ∷ y ∷ qs) name position h fits =
    let e : position + 4 ≡ suc (suc (position + 2)) = omega arith in
    let n : length (take (position + 2) qs) ≤ length qs =
      omega (arith, length-take (position + 2) qs (omega arith)) in
    rw (respond, e) (IsBounded-if _ x y _ qs (simp length-set n))

-- What make_response does with the decoded name.
IsBounded-cases :
    (query : List ℕ) (d : Text × ℕ) (count : Bool)
    → let r =
        if ltb (length query) 12 || count
        then []
        else if is_empty d.0 || ltb (length query) (d.1 + 4)
        then []
        else respond query d.0 d.1 in
      (r ≡ []) ⊎ IsBounded query r
IsBounded-cases query (name, position) count = elim (Bool-cases (ltb (length query) 12 || count)) [
  | inl short ↦ rw short (inl refl)
  | inr long ↦ elim (Bool-cases (is_empty name || ltb (length query) (position + 4))) [
    | inl bad ↦ rw (long, bad) (inl refl)
    | inr good ↦
        rw (long, good) (inr (respond-IsBounded query name position (ground arith) (ground arith)))
  ]
]

-- The reply to any packet is either none at all, or under the same id and at most 16 bytes longer
-- than the packet.
pub make_response-IsBounded :
    (query : List ℕ) → (make_response query ≡ []) ⊎ IsBounded query (make_response query)
unfolding make_response
make_response-IsBounded query = IsBounded-cases query (decode_question_name query 12) _
