-- ===== src/Dns/Replies.antt =====
-- DnsServer::make_response against the standard query that it is meant for.
use appytizer_app_server.Base.{
  ℕ, ◌+◌, ◌*◌, ◌<◌, bit_and, bit_or, ◌≡◌, refl, sym, ap, ap₂, ◌∙◌, Bool, false, ◌&&◌, List, [], ◌∷◌,
  ◌++◌, append_assoc, append-nil, arith, Text, length, get_or, take, is_empty, All, ◌==◌,
  if◌then◌else◌, length-append, take-append, get_or-append,
}
use appytizer_app_server.Dns.{
  read16, ends_with_ci, site_suffix, decode_question_name, respond, make_response, answer_record,
}
use appytizer_app_server.Dns.Names.{encode_labels, dotted, IsLabel, decode_question_name-encode}

dotted_full : (l : Text) (ls : List Text) → 0 < length l → is_empty (dotted (l ∷ ls)) ≡ false
dotted_full [] ls h = absurd (omega arith)
dotted_full (c ∷ l) ls h = refl

-- What a query packet with one question says, but for the name.
pub record Query : Type 0 where
  pub id_high : ℕ
  pub id_low : ℕ
  pub flags_high : ℕ
  pub flags_low : ℕ
  pub an_high : ℕ
  pub an_low : ℕ
  pub ns_high : ℕ
  pub ns_low : ℕ
  pub ar_high : ℕ
  pub ar_low : ℕ
  pub type_high : ℕ
  pub type_low : ℕ
  pub class_high : ℕ
  pub class_low : ℕ
  pub rest : List ℕ

-- Its name is `name`, in the wire form `enc` with a zero byte behind it.
module _ (q : Query) (enc : List ℕ) (name : Text) where
  open q use {
    id_high as i, id_low as j, flags_high as f, flags_low as g, an_high as a, an_low as b,
    ns_high as c, ns_low as d, ar_high as e, ar_low as k, type_high as t, type_low as u,
    class_high as x, class_low as y, rest,
  }

  abbrev header : List ℕ
  header = i ∷ j ∷ f ∷ g ∷ 0 ∷ 1 ∷ a ∷ b ∷ c ∷ d ∷ e ∷ k ∷ []

  abbrev pub query_bytes : List ℕ
  query_bytes = header ++ (enc ++ (0 ∷ t ∷ u ∷ x ∷ y ∷ rest))

  abbrev in_zone : Bool
  in_zone = ends_with_ci name site_suffix

  -- An address record is asked for.
  abbrev answered : Bool
  answered = in_zone && (t * 256 + u == 1)

  -- The same id and question; QR set, RD kept, RA set; NOERROR in the zone and NXDOMAIN elsewhere;
  -- one answer for an address in the zone, and no other record.
  abbrev pub reply_bytes : List ℕ
  reply_bytes =
      (i
        ∷ j
        ∷ bit_or 0x80 (bit_and f 0x01)
        ∷ (if in_zone then 0x80 else 0x83)
        ∷ 0
        ∷ 1
        ∷ 0
        ∷ (if answered then 1 else 0)
        ∷ 0
        ∷ 0
        ∷ 0
        ∷ 0
        ∷ (enc ++ (0 ∷ t ∷ u ∷ x ∷ y ∷ [])))
      ++ (if answered then answer_record else [])

  abbrev position : ℕ
  position = length header + length enc + 1

  length-query : length query_bytes ≡ 17 + length enc + length rest
  length-query = omega (arith, length-append enc (0 ∷ t ∷ u ∷ x ∷ y ∷ rest))

  taken : take (position + 4) query_bytes ≡ header ++ (enc ++ (0 ∷ t ∷ u ∷ x ∷ y ∷ []))
  taken =
      ap₂ take {y = length (header ++ (enc ++ (0 ∷ t ∷ u ∷ x ∷ y ∷ [])))}
        (omega (arith, length-append enc (0 ∷ t ∷ u ∷ x ∷ y ∷ [])))
        (sym (ap (◌++◌ header) (append_assoc enc (0 ∷ t ∷ u ∷ x ∷ y ∷ []) rest)))
      ∙ take-append (header ++ (enc ++ (0 ∷ t ∷ u ∷ x ∷ y ∷ []))) rest

  read_high : get_or query_bytes position 0 ≡ t
  read_high =
      let front : List ℕ = header ++ (enc ++ (0 ∷ [])) in
      let at : position ≡ length front = omega (arith, length-append enc (0 ∷ [])) in
      let p : query_bytes ≡ front ++ (t ∷ u ∷ x ∷ y ∷ rest) =
        sym (ap (◌++◌ header) (append_assoc enc (0 ∷ []) (t ∷ u ∷ x ∷ y ∷ rest))) in
      ap₂ (λ l n. get_or l n 0) p at ∙ get_or-append front t (u ∷ x ∷ y ∷ rest) 0

  read_low : get_or query_bytes (position + 1) 0 ≡ u
  read_low =
      let front : List ℕ = header ++ (enc ++ (0 ∷ t ∷ [])) in
      let at : position + 1 ≡ length front = omega (arith, length-append enc (0 ∷ t ∷ [])) in
      let p : query_bytes ≡ front ++ (u ∷ x ∷ y ∷ rest) =
        sym (ap (◌++◌ header) (append_assoc enc (0 ∷ t ∷ []) (u ∷ x ∷ y ∷ rest))) in
      ap₂ (λ l n. get_or l n 0) p at ∙ get_or-append front u (x ∷ y ∷ rest) 0

  read_type : t < 256 → u < 256 → read16 query_bytes position ≡ t * 256 + u
  unfolding read16
  read_type ht hu = ground (arith, length-query, read_high, read_low)

  read_count : read16 query_bytes 4 ≡ 1
  unfolding read16
  read_count = ground (arith, length-query)

  respond-query : t < 256 → u < 256 → respond query_bytes name position ≡ reply_bytes
  unfolding respond ends_with_ci read16
  respond-query ht hu =
      rw (respond, read_type ht hu, taken)
        (ground (arith, append-nil (enc ++ (0 ∷ t ∷ u ∷ x ∷ y ∷ []))))

  make_response-decoded :
      t < 256
      → u < 256
      → is_empty name ≡ false
      → decode_question_name query_bytes 12 ≡ (name, position)
      → make_response query_bytes ≡ reply_bytes
  unfolding make_response
  make_response-decoded ht hu full decoded =
      rw (make_response, decoded, read_count, full)
        (ground (arith, length-query, respond-query ht hu))

-- A query packet with one question, whose name is any nonempty sequence of labels, is answered
-- with exactly the reply of `reply_bytes`, whatever its other counts and the bytes behind the
-- question are: the same id and question, NOERROR for a name in the zone and NXDOMAIN for another,
-- and one answer, 127.0.0.1, for an address in the zone.
pub make_response-query :
    (q : Query) (l : Text) (ls : List Text)
    → All IsLabel (l ∷ ls)
    → q.type_high < 256
    → q.type_low < 256
    → make_response (query_bytes q (encode_labels (l ∷ ls)) (dotted (l ∷ ls)))
      ≡ reply_bytes q (encode_labels (l ∷ ls)) (dotted (l ∷ ls))
make_response-query q l ls v ht hu =
    let name = dotted (l ∷ ls) in
    let enc = encode_labels (l ∷ ls) in
    make_response-decoded q enc name ht hu (dotted_full l ls v.0.0) (
      decode_question_name-encode (l ∷ ls) (header q enc name)
        (q.type_high ∷ q.type_low ∷ q.class_high ∷ q.class_low ∷ q.rest) v)
