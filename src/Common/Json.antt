-- ===== src/Common/Json.antt =====
-- What the program uses of nlohmann::json, over unknown values. `none` is an exception.
use appytizer_app_server.Base.{ℕ, ◌≡◌, Bool, true, List, [], ◌∷◌, ◌++◌, Option, some, Text}
use appytizer_app_server.Base.Dict.{Dict, lookup}

pub record JsonLib : Type 1 where
  pub Json : Type 0
  pub parse : Text → Option Json
  -- operator>> of a stream: the value in front, whatever stands behind it.
  pub parse_stream : Text → Option Json
  -- dump(), and dump(2). They throw where can_dump is false: at text that is not UTF-8. The Engine's
  -- replies and events may be such; what else is written is taken to be UTF-8.
  pub can_dump : Json → Bool
  pub dump : Json → Text
  pub dump_indented : Json → Text
  pub string : Text → Json
  pub boolean : Bool → Json
  pub number : ℕ → Json
  pub array : List Json → Json
  pub object : Dict Json → Json
  -- get<std::string>() where is_string(), get<bool>() where is_boolean(), items() where is_object().
  pub as_string : Json → Option Text
  pub as_boolean : Json → Option Bool
  pub as_object : Json → Option (Dict Json)
  -- get<int>(), and is_array().
  pub as_number : Json → Option ℕ
  pub is_array : Json → Bool
  -- What a loop over the value meets: the values of an array or an object; nothing for null; the value
  -- itself otherwise. The value is empty() where the loop meets nothing.
  pub elements : Json → List Json
  -- find(key), contains(key) and at(key): `none` where there is no such field.
  pub field : Json → Text → Option Json
  -- value(key, default) at a string: it throws on what is no object and on a field of another type.
  pub value_string : Json → Text → Text → Option Text

-- The documented behaviour of the accessors on what the constructors build, and of reading back
-- what was written.
pub record IsLawful (J : JsonLib) : Type 0 where
  pub parse_dump : (j : J.Json) → J.parse (J.dump j) ≡ some j
  pub parse_line : (j : J.Json) → J.parse (J.dump j ++ (10 ∷ [])) ≡ some j
  pub parse_dump_indented : (j : J.Json) → J.parse (J.dump_indented j) ≡ some j
  pub parse_stream_line : (j : J.Json) → J.parse_stream (J.dump_indented j ++ (10 ∷ [])) ≡ some j
  pub as_string_string : (s : Text) → J.as_string (J.string s) ≡ some s
  pub as_boolean_boolean : (b : Bool) → J.as_boolean (J.boolean b) ≡ some b
  pub as_number_number : (n : ℕ) → J.as_number (J.number n) ≡ some n
  pub is_array_array : (js : List J.Json) → J.is_array (J.array js) ≡ true
  pub elements_array : (js : List J.Json) → J.elements (J.array js) ≡ js
  pub as_object_object : (fs : Dict J.Json) → J.as_object (J.object fs) ≡ some fs
  pub field_object : (fs : Dict J.Json) (k : Text) → J.field (J.object fs) k ≡ lookup k fs
  pub value_string_object :
      (fs : Dict J.Json) (k d v : Text)
      → lookup k fs ≡ some (J.string v)
      → J.value_string (J.object fs) k d ≡ some v
