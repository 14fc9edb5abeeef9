-- ===== src/Dns/Names.antt =====
-- DnsServer::decode_question_name against the wire format of a name.
use appytizer_app_server.Base.{
  ℕ, zero, suc, ◌+◌, ◌≤◌, ◌<◌, ◌≡◌, refl, sym, ap, ◌∙◌, List, [], ◌∷◌, ◌++◌, append_assoc,
  append-nil, arith, Text, codes, length, get_or, take, drop, is_empty, All, if◌then◌else◌,
  length-append, ap₂, take-append, drop-append, get_or-append, bit_and-short_label,
}
use appytizer_app_server.Dns.{decode_loop, decode_question_name, extend_name}

-- The wire form of a sequence of labels: each behind its length.
abbrev pub encode_labels : List Text → List ℕ
encode_labels [] = []
encode_labels (l ∷ ls) = length l ∷ (l ++ encode_labels ls)

-- The text form: the labels with dots between them.
abbrev dot_rest : List Text → Text
dot_rest [] = []
dot_rest (l ∷ ls) = (codes "." ++ l) ++ dot_rest ls

abbrev pub dotted : List Text → Text
dotted [] = []
dotted (l ∷ ls) = l ++ dot_rest ls

-- A label has from 1 to 63 bytes.
abbrev pub IsLabel : Text → Type 0
IsLabel l = (0 < length l) × (length l < 64)

joined : Text → List Text → Text
joined name ls = if is_empty name then dotted ls else name ++ dot_rest ls

joined-extend :
    (name l : Text) (ls : List Text)
    → 0 < length l
    → joined ((if is_empty name then name else name ++ codes ".") ++ l) ls ≡ joined name (l ∷ ls)
unfolding joined
joined-extend name [] ls h = absurd (omega arith)
joined-extend [] (x ∷ l) ls h = refl
joined-extend (c ∷ name) (x ∷ l) ls h = rw (append_assoc, append_assoc)

drop-behind : (pre : List ℕ) (x : ℕ) (ys : List ℕ) → drop (length pre + 1) (pre ++ (x ∷ ys)) ≡ ys
drop-behind pre x ys =
    let e : length pre + 1 ≡ length (pre ++ (x ∷ [])) = omega (arith, length-append pre (x ∷ [])) in
    rw e (rw (← append_assoc pre (x ∷ []) ys) (drop-append (pre ++ (x ∷ [])) ys))

-- One round over a label that fits.
decode_loop-round :
    (fuel : ℕ) (p : List ℕ) (o len : ℕ) (name : Text)
    → get_or p o 0 ≡ len
    → 0 < len
    → len < 64
    → o + 1 + len ≤ length p
    → decode_loop (suc fuel) p o name
      ≡ decode_loop fuel p (o + 1 + len) (extend_name name p (o + 1) len)
unfolding decode_loop
decode_loop-round fuel p o len name got pos small fits =
    rw (got, decode_loop) (ground (arith, bit_and-short_label len))

decode_loop-end :
    (fuel : ℕ) (p : List ℕ) (o : ℕ) (name : Text)
    → get_or p o 0 ≡ 0
    → o < length p
    → decode_loop (suc fuel) p o name ≡ (name, o + 1)
unfolding decode_loop
decode_loop-end fuel p o name got fits = ground arith

joined-nil : (name : Text) → joined name [] ≡ name
unfolding joined
joined-nil [] = refl
joined-nil (c ∷ name) = append-nil (c ∷ name)

module _ (pre l more : List ℕ) where
  abbrev behind : List ℕ
  behind = pre ++ (length l ∷ l)

  regroup : pre ++ (length l ∷ (l ++ more)) ≡ behind ++ more
  regroup = sym (append_assoc pre (length l ∷ l) more)

  length-behind : length behind ≡ length pre + 1 + length l
  length-behind = omega (arith, length-append pre (length l ∷ l))

  label_at :
      (p : List ℕ)
      → p ≡ pre ++ (length l ∷ (l ++ more))
      → take (length l) (drop (length pre + 1) p) ≡ l
  label_at p e = rw e (rw (drop-behind pre (length l) (l ++ more)) (take-append l more))

length-labels : (ls : List Text) → length ls ≤ length (encode_labels ls)
length-labels [] = omega arith
length-labels (l ∷ ls) = omega (arith, length-labels ls, length-append l (encode_labels ls))

fuel_enough :
    (ls : List Text) (pre rest : List ℕ)
    → length ls < suc (length (pre ++ (encode_labels ls ++ (0 ∷ rest))))
fuel_enough ls pre rest = omega (
  arith,
  length-append pre (encode_labels ls ++ (0 ∷ rest)),
  length-append (encode_labels ls) (0 ∷ rest),
  length-labels ls,
)

decode_loop-encode :
    (ls : List Text) (fuel : ℕ) (p pre rest : List ℕ) (name : Text)
    → length ls < fuel
    → All IsLabel ls
    → p ≡ pre ++ (encode_labels ls ++ (0 ∷ rest))
    → decode_loop fuel p (length pre) name
      ≡ (joined name ls, length pre + length (encode_labels ls) + 1)
decode_loop-encode ls zero p pre rest name h v e = absurd (omega arith)
decode_loop-encode [] (suc fuel) p pre rest name h v e =
    let got : get_or p (length pre) 0 ≡ 0 = rw e (get_or-append pre 0 rest 0) in
    let len = ap length e ∙ length-append pre (0 ∷ rest) in
    rw (decode_loop-end fuel p (length pre) name got (omega arith), joined-nil name)
      (ap (λ n. (name, n)) (omega arith))
decode_loop-encode (l ∷ ls) (suc fuel) p pre rest name h v e =
    let more = encode_labels ls ++ (0 ∷ rest) in
    let e' : p ≡ pre ++ (length l ∷ (l ++ more)) =
      e ∙ ap (λ t. pre ++ (length l ∷ t)) (append_assoc l (encode_labels ls) (0 ∷ rest)) in
    let name' = (if is_empty name then name else name ++ codes ".") ++ l in
    let ih =
      decode_loop-encode ls fuel p (behind pre l more) rest name' (omega arith) v.1
        (e' ∙ regroup pre l more) in
    let len = ap length e' ∙ length-append pre (length l ∷ (l ++ more)) in
    let got : get_or p (length pre) 0 ≡ length l =
      rw e' (get_or-append pre (length l) (l ++ more) 0) in
    rw
      (
        decode_loop-round fuel p (length pre) (length l) name got v.0.0 v.0.1
            (omega (arith, len, length-append l more)),
        label_at pre l more p e',
        ← length-behind pre l more,
        ih,
      )
      (ap₂ (λ a b. (a, b)) (joined-extend name l ls v.0.0)
        (omega (arith, length-behind pre l more, length-append l (encode_labels ls))))

-- The wire form of any labels, wherever it stands in a packet, decodes to their dotted text, and
-- the offset ends behind the zero byte.
pub decode_question_name-encode :
    (ls : List Text) (pre rest : List ℕ)
    → All IsLabel ls
    → decode_question_name (pre ++ (encode_labels ls ++ (0 ∷ rest))) (length pre)
      ≡ (dotted ls, length pre + length (encode_labels ls) + 1)
unfolding decode_question_name joined
decode_question_name-encode ls pre rest v =
    decode_loop-encode ls _ _ pre rest [] (fuel_enough ls pre rest) v refl
