-- ===== src/Ui/Displayed.antt =====
-- The settings from the Engine's answer to config.get to the widgets of appytizer-ui/main.cpp.
use appytizer_app_server.Base.{
  ◌≡◌, refl, ap, ap₂, ◌∙◌, Bool, true, false, not, ◌||◌, [], ◌∷◌, Option, some, Text, codes,
  if◌then◌else◌, if_both,
}
use appytizer_app_server.Base.Dict.{Dict, lookup}
use appytizer_app_server.Common.Json.{JsonLib, IsLawful}
use appytizer_app_server.Common.Config.{AppConfig}
use appytizer_app_server.Common.Protocol.{response_ok}
use appytizer_app_server.Engine.Messages.{config_json}
use appytizer_app_server.Ui.Actions.{Effect}
use appytizer_app_server.Ui.Values.{value_with, field_or, of_object}
use appytizer_app_server.Ui.Triples.{
  Triple, get_lem, ask_lem, modify_lem, catch_lem, bind_lem, if_lem, if_when, pure_from,
  or_throw_when, argument_when, weaken_lem,
}
use appytizer_app_server.Ui.Invariant.{returned_only}
use appytizer_app_server.Ui.App
use appytizer_app_server.Ui.App.{App, Ui}
use appytizer_app_server.Ui.Views.{Narrow}
use appytizer_app_server.Ui.Settings
use appytizer_app_server.Ui.Settings.{config_answered}

abbrev Anything : Effect → Type 0
Anything effect = Unit

module _ (J : JsonLib) (laws : IsLawful J) where
  value_with-known :
      {V : Type 0} (convert : J.Json → Option V) (fs : Dict J.Json) (key : Text) (default v : V)
      (j : J.Json)
      → lookup key fs ≡ some j
      → convert j ≡ some v
      → value_with J convert (J.object fs) key default ≡ some v
  value_with-known convert fs key default v j found converted =
      ap₂ (λ o f. of_object o (field_or convert default f)) (laws.as_object_object fs)
        (laws.field_object fs key ∙ found)
      ∙ converted

-- The configuration, the path and the text of its folder are what the window shows.
abbrev pub IsDisplayed : AppConfig → Text → Text → App → Type 0
IsDisplayed c path root a =
    (a.config ≡ record {
      root_folder = path;
      https_enabled = c.https_enabled;
      run_minimized = c.run_minimized;
      autostart = c.autostart;
    })
    × (a.root_input ≡ root)
    × (a.https ≡ c.https_enabled)
    × (a.minimized ≡ c.run_minimized)
    × (a.autostart ≡ c.autostart)

-- The settings that were taken over so far.
abbrev Taken1 : AppConfig → Text → App → Type 0
Taken1 c path a = a.config.root_folder ≡ path

abbrev Taken2 : AppConfig → Text → App → Type 0
Taken2 c path a = (a.config.https_enabled ≡ c.https_enabled) × (a.config.root_folder ≡ path)

abbrev Taken3 : AppConfig → Text → App → Type 0
Taken3 c path a = (a.config.run_minimized ≡ c.run_minimized) × Taken2 c path a

abbrev Taken4 : AppConfig → Text → App → Type 0
Taken4 c path a = (a.config.autostart ≡ c.autostart) × Taken3 c path a

displayed :
    (c : AppConfig) (path root shown : Text) (a : App)
    → shown ≡ root
    → Taken4 c path a
    → IsDisplayed c path root (Settings.show_config shown a)
unfolding Settings.show_config
displayed c path root shown a same (start, (minimized, (https, folder))) = (
  ap₂
      (λ (p : Text × Bool) (q : Bool × Bool). record {
        root_folder = p.0;
        https_enabled = p.1;
        run_minimized = q.0;
        autostart = q.1;
      })
      (ap₂ (λ x y. (x, y)) folder https) (ap₂ (λ x y. (x, y)) minimized start),
  same,
  https,
  minimized,
  start,
)

first_visibility-IsDisplayed :
    (c : AppConfig) (path root : Text) (a : App)
    → IsDisplayed c path root a
    → IsDisplayed c path root (Settings.first_visibility a)
unfolding Settings.first_visibility
first_visibility-IsDisplayed c path root a p =
    let applied : App = record a { initial_visibility_applied = true } in
    let decision =
      if a.force_show || not a.config.run_minimized then App.show applied else applied in
    if_both (IsDisplayed c path root) a.initial_visibility_applied a decision p (
      if_both (IsDisplayed c path root) (a.force_show || not a.config.run_minimized)
        (App.show applied) applied p p)

module _ (J : JsonLib) (laws : IsLawful J) (N : Narrow) (what : Text) where
  -- From the second switch on.
  switches_lem :
      (c : AppConfig) (path root p : Text) (R : App → Type 0)
      → N.from_path path ≡ some root
      → Triple Anything
          (λ a. (p ≡ path) × Taken2 c path a)
          (Settings.read_switches J N what p (config_json J c))
          (λ u. IsDisplayed c path root)
          R
  unfolding Settings.read_switches lookup
  switches_lem c path root p R from =
      bind_lem
        (or_throw_when what _ c.run_minimized (λ s q.
          value_with-known J laws J.as_boolean _ (codes "run_minimized") false _ _ refl
            (laws.as_boolean_boolean c.run_minimized)))
        (λ minimized.
          bind_lem
            (modify_lem {Q = λ u a. (p ≡ path) × Taken3 c path a} _ (λ a q. (q.1.0, (q.0, q.1.1))))
            (λ u.
              bind_lem
                (or_throw_when what _ c.autostart (λ s q.
                  value_with-known J laws J.as_boolean _ (codes "autostart") false _ _ refl
                    (laws.as_boolean_boolean c.autostart)))
                (λ start.
                  bind_lem
                    (modify_lem {Q = λ u a. (p ≡ path) × Taken4 c path a} _
                      (λ a q. (q.1.0, (q.0, q.1.1))))
                    (λ u.
                      bind_lem
                        (or_throw_when what (N.from_path p) root (λ s q. ap N.from_path q.0 ∙ from))
                        (λ shown.
                          modify_lem (Settings.show_config shown)
                            (λ a q. displayed c path root shown a q.0 q.1.1))))))

  read_config_lem :
      (c : AppConfig) (path root : Text) (R : App → Type 0)
      → N.to_path c.root_folder ≡ some path
      → N.from_path path ≡ some root
      → Triple Anything
          (λ a. Unit)
          (Settings.read_config J N what (config_json J c))
          (λ u. IsDisplayed c path root)
          R
  unfolding Settings.read_config lookup
  read_config_lem c path root R to from =
      bind_lem
        (or_throw_when what _ c.root_folder (λ s p.
          value_with-known J laws J.as_string _ (codes "root_folder") [] _ _ refl
            (laws.as_string_string c.root_folder)))
        (λ r. bind_lem (or_throw_when what (N.to_path r) path (λ s p. ap N.to_path p.0 ∙ to)) (λ p.
          bind_lem (modify_lem {Q = λ u a. (p ≡ path) × Taken1 c path a} _ (λ a q. (q.0, q.0)))
            (λ u.
              bind_lem
                (or_throw_when what _ c.https_enabled (λ s q.
                  value_with-known J laws J.as_boolean _ (codes "https_enabled") true _ _ refl
                    (laws.as_boolean_boolean c.https_enabled)))
                (λ https.
                  bind_lem
                    (modify_lem {Q = λ u a. (p ≡ path) × Taken2 c path a} _
                      (λ a q. (q.1.0, (q.0, q.1.1))))
                    (λ u. switches_lem c path root p R from)))))

  answer : Text → AppConfig → Dict J.Json
  answer id c =
      (codes "id", J.string id)
      ∷ (codes "ok", J.boolean true)
      ∷ (codes "result", config_json J c)
      ∷ []

  config_answered_lem :
      (c : AppConfig) (path root id : Text)
      → N.to_path c.root_folder ≡ some path
      → N.from_path path ≡ some root
      → Triple Anything
          (λ a. Unit)
          (config_answered J N what (response_ok J id (config_json J c)))
          (λ u. IsDisplayed c path root)
          (λ a. ⊥)
  unfolding config_answered response_ok answer lookup App.refresh_tls App.https_disabled
  config_answered_lem c path root id to from =
      let document = J.object (answer id c) in
      catch_lem {R = λ a. ⊥}
        (bind_lem (or_throw_when what _ document (λ s p. laws.parse_line document)) (λ d.
          bind_lem
            (bind_lem
              (or_throw_when what _ true (λ s p.
                ap (λ j. value_with J J.as_boolean j (codes "ok") false) p.0
                ∙ value_with-known J laws J.as_boolean (answer id c) (codes "ok") false _ _ refl
                    (laws.as_boolean_boolean true)))
              (λ ok. if_when _ ok (λ s p. p.0) (pure_from tt (λ s p. p.1.0))))
            (λ u.
              bind_lem
                (or_throw_when what _ (config_json J c) (λ s p.
                  ap (λ j. J.field j (codes "result")) p
                  ∙ laws.field_object (answer id c) (codes "result")))
                (λ result.
                  bind_lem
                    (argument_when (Settings.read_config J N what) result (config_json J c)
                      (λ s p. p.0)
                      (weaken_lem (read_config_lem c path root (λ a. ⊥) to from) (λ s p. tt)
                        (λ u s q. q) (λ s r. r)))
                    (λ u.
                      bind_lem
                        (bind_lem get_lem (λ a.
                          if_lem (not a.config.https_enabled)
                            (modify_lem App.https_disabled (λ s p. p.1))
                            (weaken_lem (ask_lem _ tt) (λ s p. p.1) (λ u s q. q) (λ s r. r))))
                        (λ u. bind_lem (ask_lem _ tt) (λ u.
                          modify_lem Settings.first_visibility
                            (λ a p. first_visibility-IsDisplayed c path root a p))))))))
        (λ error. record { holds = λ s p. absurd p })

  -- When the Engine answers config.get, the tray application takes over and shows the Engine's settings:
  -- the folder, https, the minimized start and the autostart, whatever it showed before. The folder is
  -- one that the system's code page holds.
  pub config_answered-IsDisplayed :
      (c : AppConfig) (path root id : Text) (a : App)
      → N.to_path c.root_folder ≡ some path
      → N.from_path path ≡ some root
      → IsDisplayed c path root (config_answered J N what (response_ok J id (config_json J c)) a).0
  config_answered-IsDisplayed c path root id a to from =
      let answered = config_answered J N what (response_ok J id (config_json J c)) a in
      let (effects, after) = (config_answered_lem c path root id to from).holds a tt in
      returned_only (IsDisplayed c path root) answered.2 answered.0 after
