-- ===== src/Ui/Rows.antt =====
-- The classes ServiceRow and SiteRow in appytizer-ui/main.cpp.
use appytizer_app_server.Base.{
  ℕ, suc, Bool, false, not, ◌||◌, List, [], ◌∷◌, ◌++◌, Option, none, some, Text, codes, text_eq,
  is_empty, get_or, if◌then◌else◌,
}
use appytizer_app_server.Common.Json.{JsonLib}
use appytizer_app_server.Ui.Images.{Icon}
use appytizer_app_server.Ui.Widgets.{Label, label, Choice, ready, fault, bullet}
use appytizer_app_server.Ui.Actions.{Action, pure, modify, get, ◌>>=◌, ◌>>◌, or_throw}
use appytizer_app_server.Ui.Values.{value_text, value_boolean, value_json}

pub record ServiceRow : Type 0 where
  pub id : Text
  pub y : ℕ
  pub name : Text
  pub icon : Option Icon
  pub running : Bool
  pub is_available : Bool
  pub status : Label
  -- One of the two: the text of a fixed version, or a menu.
  pub version_label : Option Text
  pub versions : Option Choice
  pub installation : Text
  pub action_label : Text
  pub action_active : Bool

abbrev status_label : Bool → Bool → Label
status_label running is_available =
    label
      (bullet
        ++ (if running
            then codes "Running"
            else if is_available
            then codes "Stopped"
            else codes "Not detected"))
      (if running then ready else fault)

abbrev action_text : Bool → Text
action_text running = if running then codes "Stop" else codes "Start"

-- The position of the label, in a list that starts at that position.
abbrev position_of : Text → ℕ → List Text → Option ℕ
position_of version index [] = none
position_of version index (item ∷ items) =
    if text_eq version item then some index else position_of version (suc index) items

abbrev or_position : ℕ → Option ℕ → ℕ
or_position default none = default
or_position default (some index) = index

abbrev set_active : Bool → Option Choice → Option Choice
set_active active none = none
set_active active (some choice) = some (record choice { active = active })

abbrev select_version : Text → Option Choice → Option Choice
select_version version none = none
select_version version (some choice) =
    some (record choice { value = or_position choice.value (position_of version 0 choice.items) })

abbrev set_text : Text → Option Text → Option Text
set_text text none = none
set_text text (some old) = some text

abbrev pub has_menu : Text → Bool
has_menu id = not (text_eq id (codes "dns") || text_eq id (codes "nginx"))

-- The one that was found, or else the first.
abbrev pub selected_installation : {A : Type 0} → Option A → List A → Option A
selected_installation (some found) installations = some found
selected_installation none [] = none
selected_installation none (first ∷ installations) = some first

-- `what` is the text of an exception of the JSON library.
module _ (J : JsonLib) (what : Text) {S : Type 0} where
  abbrev pub text_in : J.Json → Text → Text → Action S Text
  text_in j key default = or_throw what (value_text J j key default)

  abbrev pub boolean_in : J.Json → Text → Bool → Action S Bool
  boolean_in j key default = or_throw what (value_boolean J j key default)

  abbrev pub json_in : J.Json → Text → J.Json → Action S J.Json
  json_in j key default = or_throw what (value_json J j key default)

  unfoldable pub find_installation : Text → List J.Json → Action S (Option J.Json)
  find_installation active_version [] = pure none
  find_installation active_version (installation ∷ installations) = do
    version ← text_in installation (codes "version") []
    if text_eq version active_version
        then pure (some installation)
        else find_installation active_version installations

  unfoldable pub location_of : Option J.Json → Action S Text
  location_of none = pure (codes "No installation detected")
  location_of (some selected) = do
    windows_service ← boolean_in selected (codes "windows_service") false
    if windows_service
        then (do
          service_name ← text_in selected (codes "service_name") []
          pure (codes "Windows service: " ++ service_name))
        else text_in selected (codes "path") []

  -- The text that update_installation shows.
  unfoldable pub installation_text : Text → J.Json → Text → Action S Text
  unfolding find_installation location_of
  installation_text id installations active_version =
      if text_eq id (codes "dns")
      then pure (codes "Built in" ++ (0x20 ∷ 0xc2 ∷ 0xb7 ∷ codes " loopback port 53"))
      else do
        found ← find_installation active_version (J.elements installations)
        location_of (selected_installation found (J.elements installations))

  unfoldable pub texts_in : List J.Json → Action S (List Text)
  texts_in [] = pure []
  texts_in (j ∷ js) = do
    text ← or_throw what (J.as_string j)
    texts ← texts_in js
    pure (text ∷ texts)

  unfoldable pub new_menu : Text → Bool → J.Json → Action S Choice
  unfolding texts_in
  new_menu active_version is_available service = do
    available ← json_in service (codes "available_versions") (J.array [])
    items ← texts_in (J.elements available)
    pure (record {
      items = items;
      value = or_position 0 (position_of active_version 0 items);
      active = is_available;
    })

  unfoldable pub new_service_row : ℕ → Option Icon → J.Json → Action S ServiceRow
  unfolding new_menu installation_text
  new_service_row y icon service = do
    id ← text_in service (codes "id") []
    running ← boolean_in service (codes "running") false
    installations ← json_in service (codes "installations") (J.array [])
    let is_available = text_eq id (codes "dns") || not (is_empty (J.elements installations))
    active_version ← text_in service (codes "version") []
    name ← text_in service (codes "name") id
    versions ←
        (if has_menu id
          then (do menu ← new_menu active_version is_available service; pure (some menu))
          else pure none)
    installation ← installation_text id installations active_version
    pure (record {
      id = id;
      y = y;
      name = name;
      icon = icon;
      running = running;
      is_available = is_available;
      status = status_label running is_available;
      version_label = if has_menu id then none else some active_version;
      versions = versions;
      installation = installation;
      action_label = action_text running;
      action_active = is_available;
    })

-- ServiceRow::update and set_disconnected.
module _ (J : JsonLib) (what : Text) where
  unfoldable pub update : J.Json → Action ServiceRow Unit
  unfolding installation_text
  update service = do
    running ← boolean_in J what service (codes "running") false
    modify (λ r. record r { running = running })
    installations ← json_in J what service (codes "installations") (J.array [])
    row ← get
    let is_available = text_eq row.id (codes "dns") || not (is_empty (J.elements installations))
    modify (λ r. record r {
      is_available = is_available;
      status = status_label running is_available;
      action_label = action_text running;
      action_active = is_available;
    })
    active_version ← text_in J what service (codes "version") []
    modify (λ r. record r {
      versions = select_version active_version (set_active is_available r.versions);
      version_label = set_text active_version r.version_label;
    })
    installation ← installation_text J what row.id installations active_version
    modify (λ r. record r { installation = installation })

abbrev pub set_disconnected : ServiceRow → ServiceRow
set_disconnected row = record row {
  running = false;
  status = label (bullet ++ codes "Engine offline") fault;
  action_active = false;
  versions = set_active false row.versions;
}

abbrev pub chosen : Option Choice → Text
chosen none = []
chosen (some choice) = get_or choice.items choice.value []
