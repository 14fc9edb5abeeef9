-- ===== src/Tests/CodedJson.antt =====
-- A concrete JsonLib: a value is a tag and a body, in which parts stand behind their lengths.
use appytizer_app_server.Base.{
  ℕ, zero, suc, ◌≡◌, refl, ap, ap₂, ◌∙◌, true, false, Bool, List, [], ◌∷◌, ◌++◌, Option, none, some,
  Text, length, take, drop, take-append, drop-append, if◌then◌else◌, ◌==◌,
}
use appytizer_app_server.Base.Dict.{Dict, lookup}
use appytizer_app_server.Common.Json.{JsonLib, IsLawful}

abbrev pub Coded : Type 0
Coded = ℕ × List ℕ

abbrev encode : Dict Coded → List ℕ
encode [] = []
encode ((k, (tag, body)) ∷ fs) = length k ∷ (k ++ ((length body) ∷ (tag ∷ (body ++ encode fs))))

abbrev value_at : List ℕ → Coded
value_at (m ∷ tag ∷ rest) = (tag, take m rest)
value_at s = (0, [])

abbrev rest_at : List ℕ → List ℕ
rest_at (m ∷ tag ∷ rest) = drop m rest
rest_at s = []

-- The fuel is the number of fields at most.
abbrev decode : ℕ → List ℕ → Dict Coded
decode zero s = []
decode (suc fuel) [] = []
decode (suc fuel) (n ∷ s) = (take n s, value_at (drop n s)) ∷ decode fuel (rest_at (drop n s))

abbrev fields_of : Coded → Option (Dict Coded)
fields_of (tag, []) = none
fields_of (tag, n ∷ body) = if tag == 2 then some (decode n body) else none

abbrev string_of : Coded → Option Text
string_of (tag, body) = if tag == 0 then some body else none

abbrev boolean_of : Coded → Option Bool
boolean_of (tag, []) = none
boolean_of (tag, n ∷ body) = if tag == 1 then some (n == 1) else none

abbrev number_of : Coded → Option ℕ
number_of (tag, []) = none
number_of (tag, n ∷ body) = if tag == 3 then some n else none

abbrev dump_coded : Coded → Text
dump_coded (tag, body) = length body ∷ tag ∷ body

abbrev parse_coded : Text → Option Coded
parse_coded [] = none
parse_coded (n ∷ []) = none
parse_coded (n ∷ tag ∷ rest) = some (tag, take n rest)

abbrev field_of : Coded → Text → Option Coded
field_of j k = elim (fields_of j) [ none ↦ none | some fs ↦ lookup k fs ]

abbrev value_string_of : Coded → Text → Text → Option Text
value_string_of j k d = elim (fields_of j) [
  | none ↦ none
  | some fs ↦ elim (lookup k fs) [ none ↦ some d | some v ↦ string_of v ]
]

abbrev concat_coded : List Coded → List ℕ
concat_coded [] = []
concat_coded ((tag, body) ∷ js) = length body ∷ (tag ∷ (body ++ concat_coded js))

-- The fuel is the number of values at most.
abbrev values_in : ℕ → List ℕ → List Coded
values_in zero s = []
values_in (suc fuel) [] = []
values_in (suc fuel) (m ∷ s) = value_at (m ∷ s) ∷ values_in fuel (rest_at (m ∷ s))

abbrev elements_of : Coded → List Coded
elements_of (tag, []) = []
elements_of (tag, n ∷ body) = if tag == 4 then values_in n body else []

abbrev pub coded_json : JsonLib
coded_json = record {
  Json = Coded;
  parse = parse_coded;
  parse_stream = parse_coded;
  dump = dump_coded;
  can_dump = λ j. true;
  dump_indented = dump_coded;
  string = λ s. (0, s);
  boolean = λ b. (1, (if b then 1 else 0) ∷ []);
  number = λ n. (3, n ∷ []);
  array = λ js. (4, length js ∷ concat_coded js);
  object = λ fs. (2, length fs ∷ encode fs);
  as_string = string_of;
  as_boolean = boolean_of;
  as_object = fields_of;
  as_number = number_of;
  is_array = λ j. j.0 == 4;
  elements = elements_of;
  field = field_of;
  value_string = value_string_of;
}

decode-encode : (fs : Dict Coded) → decode (length fs) (encode fs) ≡ fs
decode-encode [] = refl
decode-encode ((k, (tag, body)) ∷ fs) =
    let tail : List ℕ = length body ∷ (tag ∷ (body ++ encode fs)) in
    let value : value_at (drop (length k) (k ++ tail)) ≡ (tag, body) =
      ap value_at (drop-append k tail) ∙ ap (λ b. (tag, b)) (take-append body (encode fs)) in
    let rest : rest_at (drop (length k) (k ++ tail)) ≡ encode fs =
      ap rest_at (drop-append k tail) ∙ drop-append body (encode fs) in
    ap₂ (λ f g. f ∷ g) (ap₂ (λ a b. (a, b)) (take-append k tail) value)
      (ap (decode (length fs)) rest ∙ decode-encode fs)

values_in-concat_coded : (js : List Coded) → values_in (length js) (concat_coded js) ≡ js
values_in-concat_coded [] = refl
values_in-concat_coded ((tag, body) ∷ js) =
    ap₂ (λ j rest. j ∷ rest) (ap (λ b. (tag, b)) (take-append body (concat_coded js)))
      (ap (values_in (length js)) (drop-append body (concat_coded js)) ∙ values_in-concat_coded js)

boolean_of-boolean : (b : Bool) → boolean_of (1, (if b then 1 else 0) ∷ []) ≡ some b
boolean_of-boolean true = refl
boolean_of-boolean false = refl

value_of-field :
    (d v : Text) (found : Option Coded)
    → found ≡ some (0, v)
    → elim found [ none ↦ some d | some w ↦ string_of w ] ≡ some v
value_of-field d v found h = rw h refl

parse_coded-dump_coded : (j : Coded) (rest : Text) → parse_coded (dump_coded j ++ rest) ≡ some j
parse_coded-dump_coded (tag, body) rest = ap (λ b. some (tag, b)) (take-append body rest)

take-length : (xs : List ℕ) → take (length xs) xs ≡ xs
take-length [] = refl
take-length (x ∷ xs) = ap (◌∷◌ x) (take-length xs)

pub coded_json-IsLawful : IsLawful coded_json
coded_json-IsLawful = record {
  parse_dump = λ j. ap (λ b. some (j.0, b)) (take-length j.1);
  parse_line = λ j. parse_coded-dump_coded j (10 ∷ []);
  parse_dump_indented = λ j. ap (λ b. some (j.0, b)) (take-length j.1);
  parse_stream_line = λ j. parse_coded-dump_coded j (10 ∷ []);
  as_string_string = λ s. refl;
  as_boolean_boolean = boolean_of-boolean;
  as_number_number = λ n. refl;
  is_array_array = λ js. refl;
  elements_array = values_in-concat_coded;
  as_object_object = λ fs. ap some (decode-encode fs);
  field_object = λ fs k. ap (lookup k) (decode-encode fs);
  value_string_object = λ fs k d v h.
      value_of-field d v (lookup k (decode (length fs) (encode fs)))
        (ap (lookup k) (decode-encode fs) ∙ h);
}
