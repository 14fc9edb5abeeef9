-- ===== src/Common/Config.antt =====
-- common/config.cpp: the settings, as JSON and in their file. A path is its UTF-8 text; the JSON
-- library is taken to store the u8string of a path as a string.
use appytizer_app_server.Base.{
  ℕ, Bool, true, false, not, List, [], ◌∷◌, ◌++◌, map, Option, none, some, Text, codes,
  if◌then◌else◌,
}
use appytizer_app_server.Base.Dict.{Dict, insert}
use appytizer_app_server.Common.Json.{JsonLib}
pub mod RoundTrip
pub mod Saved

pub record AppConfig : Type 0 where
  pub root_folder : Text
  pub https_enabled : Bool
  pub run_minimized : Bool
  pub autostart : Bool
  pub active_versions : Dict Text
  pub service_roots : Dict Text

abbrev pub default_config : AppConfig
default_config = record {
  root_folder = [];
  https_enabled = true;
  run_minimized = false;
  autostart = false;
  active_versions = [];
  service_roots = [];
}

abbrev pub and_then : {A B : Type 0} → (A → Option B) → Option A → Option B
and_then f none = none
and_then f (some v) = f v

abbrev pub or_default : {A : Type 0} → A → Option A → A
or_default default none = default
or_default default (some v) = v

module _ (J : JsonLib) where
  abbrev pub texts_to_json : Dict Text → J.Json
  texts_to_json d = J.object (map (λ e. (e.0, J.string e.1)) d)

  unfoldable pub config_fields : AppConfig → Dict J.Json
  config_fields c =
      (codes "root_folder", J.string c.root_folder)
      ∷ (codes "https_enabled", J.boolean c.https_enabled)
      ∷ (codes "run_minimized", J.boolean c.run_minimized)
      ∷ (codes "autostart", J.boolean c.autostart)
      ∷ (codes "active_versions", texts_to_json c.active_versions)
      ∷ (codes "service_roots", texts_to_json c.service_roots)
      ∷ []

  unfoldable pub config_to_json : AppConfig → J.Json
  unfolding config_fields
  config_to_json c = J.object (config_fields c)

  -- `if (const auto it = j.find(key); it != j.end() && it->is_string())`, and so on: `none` leaves
  -- the default.
  abbrev pub read_text : J.Json → Text → Text → Text
  read_text j key default = or_default default (and_then J.as_string (J.field j key))

  abbrev pub read_boolean : J.Json → Text → Bool → Bool
  read_boolean j key default = or_default default (and_then J.as_boolean (J.field j key))

  abbrev pub add_text : Text → Option Text → Dict Text → Dict Text
  add_text id none d = d
  add_text id (some value) d = insert id value d

  -- The loop over items(): each value that is a string.
  abbrev pub add_texts : Dict J.Json → Dict Text → Dict Text
  add_texts [] d = d
  add_texts ((id, value) ∷ items) d = add_texts items (add_text id (J.as_string value) d)

  abbrev pub all_texts : Option (Dict J.Json) → Dict Text
  all_texts none = []
  all_texts (some items) = add_texts items []

  abbrev pub read_texts : J.Json → Text → Dict Text
  read_texts j key = all_texts (and_then J.as_object (J.field j key))

  unfoldable pub config_parse : J.Json → AppConfig
  config_parse j = record {
    root_folder = read_text j (codes "root_folder") [];
    https_enabled = read_boolean j (codes "https_enabled") true;
    run_minimized = read_boolean j (codes "run_minimized") false;
    autostart = read_boolean j (codes "autostart") false;
    active_versions = read_texts j (codes "active_versions");
    service_roots = read_texts j (codes "service_roots");
  }

  -- The files of the settings: the store's own, and the one of older versions, if they open.
  pub record Stored : Type 0 where
    pub own : Option Text
    pub legacy : Option Text
    pub temporary : Option Text
    -- The store stands at its default path, and no environment variable overrides that.
    pub is_default : Bool

  -- Text that is no JSON is caught.
  abbrev pub parsed_or_default : Option J.Json → AppConfig
  unfolding config_parse
  parsed_or_default none = default_config
  parsed_or_default (some j) = config_parse j

  abbrev pub opened : Option Text → Option Text → Option Text
  opened none legacy = legacy
  opened (some text) legacy = some text

  unfoldable pub load : Stored → AppConfig
  unfolding parsed_or_default
  load s =
      parsed_or_default
        (and_then J.parse_stream (opened s.own (if s.is_default then s.legacy else none)))

-- Which calls of save fail: opening the temporary file, a write to it or its close, with what that
-- leaves, the two renames, and the removal between.
pub record SaveFaults : Type 0 where
  pub opening : Bool
  pub writing : Bool
  pub left : Text → Text
  pub renaming : Bool
  pub removing : Bool
  pub renaming_again : Bool

module _ (J : JsonLib) where
  retry_rename : SaveFaults → Stored J → Stored J × Bool
  retry_rename faults s =
      let s' : Stored J = if faults.removing then s else record s { own = none } in
      if faults.renaming_again
      then (s', false)
      else (record s' { own = s'.temporary; temporary = none }, true)

  -- What is written is the text and a line feed; a write that fails is not looked at, and the file that
  -- it leaves is renamed.
  unfoldable pub save : SaveFaults → AppConfig → Stored J → Stored J × Bool
  unfolding retry_rename config_to_json
  save faults c s =
      let whole = J.dump_indented (config_to_json J c) ++ (10 ∷ []) in
      let text = if faults.writing then faults.left whole else whole in
      let s' : Stored J = record s { temporary = some text } in
      if faults.opening
      then (s, false)
      else if not faults.renaming
      then (record s' { own = s'.temporary; temporary = none }, true)
      else retry_rename faults s'
