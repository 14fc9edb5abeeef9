-- ===== src/Ui/SiteRows.antt =====
-- The class SiteRow in appytizer-ui/main.cpp.
use appytizer_app_server.Base.{
  ℕ, Bool, true, false, not, [], ◌++◌, Option, none, some, Text, codes, text_eq, if◌then◌else◌,
}
use appytizer_app_server.Common.Json.{JsonLib}
use appytizer_app_server.Ui.Images.{Icon}
use appytizer_app_server.Ui.Widgets.{
  Label, label, ready, fault, muted, attention, cross, tick, warning, arrow, struck_arrow,
}
use appytizer_app_server.Ui.Actions.{Action, pure, ◌>>=◌}
use appytizer_app_server.Ui.Rows.{text_in, boolean_in}

-- What stands behind the name: a link with an icon and its tooltip, or what is wrong with the name.
pub data SiteBody : Type 0 where
  link_to : Option (Icon × Text) → SiteBody
  rename : Text → SiteBody

pub record SiteRow : Type 0 where
  pub y : ℕ
  pub height : ℕ
  pub url : Text
  pub mark : Label
  pub tooltip : Text
  pub name : Text
  pub pointer : Label
  pub body : SiteBody

abbrev pub row_height : Bool → ℕ
row_height valid = if valid then 44 else 56

abbrev mark_of : Bool → Bool → Label
mark_of valid has_index =
    if not valid
    then label cross fault
    else if has_index
    then label tick ready
    else label warning attention

module _ (J : JsonLib) (what : Text) {S : Type 0} where
  unfoldable pub tooltip_of : Bool → Bool → J.Json → Action S Text
  tooltip_of valid has_index site =
      if not valid
      then text_in J what site (codes "error") (codes "Invalid site name")
      else if not has_index
      then pure (codes "No index: this folder does not contain index.php or index.html.")
      else pure (codes "Site is ready.")

  unfoldable pub body_of : Bool → Option Icon → J.Json → Action S SiteBody
  body_of false type_icon site = do
    error ← text_in J what site (codes "error") (codes "Invalid DNS label")
    pure (rename error)
  body_of true none site = pure (link_to none)
  body_of true (some icon) site = do
    type ← text_in J what site (codes "type") []
    pure (
        link_to
          (some (icon, if text_eq type (codes "php") then codes "PHP site" else codes "HTML site")))

  unfoldable pub new_site_row : ℕ → Bool → Option Icon → J.Json → Action S SiteRow
  unfolding tooltip_of body_of
  new_site_row y https_enabled type_icon site = do
    valid ← boolean_in J what site (codes "valid") false
    hostname ← text_in J what site (codes "hostname") []
    has_index ← boolean_in J what site (codes "has_index") false
    tooltip ← tooltip_of valid has_index site
    name ← text_in J what site (codes "name") []
    body ← body_of valid type_icon site
    pure (record {
      y = y;
      height = row_height valid;
      url = (if https_enabled then codes "https://" else codes "http://") ++ hostname;
      mark = mark_of valid has_index;
      tooltip = tooltip;
      name = name;
      pointer = if valid then label arrow muted else label struck_arrow fault;
      body = body;
    })
