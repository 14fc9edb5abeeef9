-- ===== src/Engine/Settings/Converted.antt =====
-- Parameters of config.set that convert.
use appytizer_app_server.Base.{◌≡◌, refl, ap, ◌∙◌, Bool, true, [], ◌∷◌, some, Text, codes}
use appytizer_app_server.Base.Dict.{Dict, lookup}
use appytizer_app_server.Common.Json.{JsonLib, IsLawful}
use appytizer_app_server.Common.Config.{AppConfig}
use appytizer_app_server.Engine.Settings.{
  assign, then_assign, assign_root, assign_https, assign_minimized, assign_autostart, assign_all,
}
use appytizer_app_server.Engine.Settings.Restored.{assign-store}

module _ (J : JsonLib) where
  abbrev pub four_settings : Text → Bool → Bool → Bool → Dict J.Json
  four_settings root https minimized autostart =
      (codes "root_folder", J.string root)
      ∷ (codes "https_enabled", J.boolean https)
      ∷ (codes "run_minimized", J.boolean minimized)
      ∷ (codes "autostart", J.boolean autostart)
      ∷ []

abbrev pub with_settings : Text → Bool → Bool → Bool → AppConfig → AppConfig
with_settings root https minimized autostart c = record c {
  root_folder = root;
  https_enabled = https;
  run_minimized = minimized;
  autostart = autostart;
}

module _ (J : JsonLib) (laws : IsLawful J) where
  assign_text :
      (fs : Dict J.Json) (key v : Text) (change : Text → AppConfig → AppConfig) (c : AppConfig)
      → lookup key fs ≡ some (J.string v)
      → assign J.as_string change (J.field (J.object fs) key) c ≡ (change v c, true)
  assign_text fs key v change c found =
      assign-store J.as_string change (J.field (J.object fs) key) (J.string v) (some v) c
        (laws.field_object fs key ∙ found) (laws.as_string_string v)

  assign_switch :
      (fs : Dict J.Json) (key : Text) (v : Bool) (change : Bool → AppConfig → AppConfig)
      (c : AppConfig)
      → lookup key fs ≡ some (J.boolean v)
      → assign J.as_boolean change (J.field (J.object fs) key) c ≡ (change v c, true)
  assign_switch fs key v change c found =
      assign-store J.as_boolean change (J.field (J.object fs) key) (J.boolean v) (some v) c
        (laws.field_object fs key ∙ found) (laws.as_boolean_boolean v)

  pub assign_all-four_settings :
      (root : Text) (https minimized autostart : Bool) (c : AppConfig)
      → assign_all J (J.object (four_settings J root https minimized autostart)) c
        ≡ (with_settings root https minimized autostart c, true)
  unfolding assign_all assign_root assign_https assign_minimized assign_autostart lookup
  assign_all-four_settings root https minimized autostart c =
      let fs = four_settings J root https minimized autostart in
      let params = J.object fs in
      let last = then_assign (assign_autostart J params) in
      let third = then_assign (assign_minimized J params) in
      let second = then_assign (assign_https J params) in
      let c1 : AppConfig = record c { root_folder = root } in
      let c2 : AppConfig = record c1 { https_enabled = https } in
      let c3 : AppConfig = record c2 { run_minimized = minimized } in
      ap (λ r. last (third (second r)))
        (assign_text fs (codes "root_folder") root (λ v c. record c { root_folder = v }) c refl)
      ∙ (ap (λ r. last (third r))
            (assign_switch fs (codes "https_enabled") https (λ v c. record c { https_enabled = v })
              c1 refl)
          ∙ (ap last (
                assign_switch fs (codes "run_minimized") minimized
                  (λ v c. record c { run_minimized = v }) c2 refl)
              ∙ assign_switch fs (codes "autostart") autostart (λ v c. record c { autostart = v })
                  c3 refl))
