-- ===== src/Ui/Values.antt =====
-- The accessors of nlohmann::json in appytizer-ui/main.cpp: `document.value(key, default)`.
use appytizer_app_server.Base.{ℕ, Bool, Option, none, some, Text}
use appytizer_app_server.Common.Json.{JsonLib}

-- A missing field gives the default, and one of another type throws.
abbrev pub field_or : {J V : Type 0} → (J → Option V) → V → Option J → Option V
field_or convert default none = some default
field_or convert default (some v) = convert v

-- On what is no object, it throws.
abbrev pub of_object : {F V : Type 0} → Option F → Option V → Option V
of_object none v = none
of_object (some fields) v = v

module _ (J : JsonLib) where
  abbrev pub value_with : {V : Type 0} → (J.Json → Option V) → J.Json → Text → V → Option V
  value_with convert j key default =
      of_object (J.as_object j) (field_or convert default (J.field j key))

  abbrev pub value_text : J.Json → Text → Text → Option Text
  value_text = value_with J.as_string

  abbrev pub value_boolean : J.Json → Text → Bool → Option Bool
  value_boolean = value_with J.as_boolean

  abbrev pub value_number : J.Json → Text → ℕ → Option ℕ
  value_number = value_with J.as_number

  abbrev pub value_json : J.Json → Text → J.Json → Option J.Json
  value_json = value_with some
