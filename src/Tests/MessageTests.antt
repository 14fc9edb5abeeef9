-- ===== src/Tests/MessageTests.antt =====
-- The Engine's messages at concrete inputs.
use appytizer_app_server.Base.{◌≡◌, refl, true, false, [], ◌∷◌, Text, codes}
use appytizer_app_server.Base.Dict.{lookup}
use appytizer_app_server.Common.Config.{default_config}
use appytizer_app_server.Common.Protocol.{response_error}
use appytizer_app_server.Engine.Settings.{EngineState, assign_all, config_set}
use appytizer_app_server.Engine.Settings.Restored.{
  SetOrRestored, config_set-SetOrRestored, config_set_partial,
}
use appytizer_app_server.Tests.CodedJson.{Coded, coded_json}
use appytizer_app_server.Tests.ToyParts.{ToyState, toy_parts}

abbrev toy_state : ToyState
toy_state = record { active = 1; staged = 1; events = [] }

abbrev engine : EngineState toy_parts
engine = record { config = default_config; running = true; parts = toy_state }

abbrev what : Text
what = codes "type must be boolean, but is string"

abbrev good_params : Coded
good_params = coded_json.object (
    (codes "root_folder", coded_json.string (codes "D:\\www"))
    ∷ (codes "https_enabled", coded_json.boolean false)
    ∷ [])

config_set-SetOrRestored_example :
    SetOrRestored coded_json toy_parts what
      (codes "1")
      (assign_all coded_json good_params default_config).0
      engine
      (config_set coded_json toy_parts what (codes "1") good_params engine)
unfolding assign_all lookup
config_set-SetOrRestored_example =
    config_set-SetOrRestored coded_json toy_parts what (codes "1") good_params engine refl

abbrev bad_params : Coded
bad_params = coded_json.object (
    (codes "root_folder", coded_json.string (codes "D:\\www"))
    ∷ (codes "https_enabled", coded_json.string (codes "yes"))
    ∷ [])

config_set_partial_example :
    let (after, reply) = config_set coded_json toy_parts what (codes "1") bad_params engine in
    (after.config.root_folder ≡ codes "D:\\www")
    × (after.parts ≡ toy_state)
    × (reply ≡ response_error coded_json (codes "1") what)
unfolding lookup
config_set_partial_example =
    config_set_partial coded_json toy_parts what (codes "1") (codes "D:\\www") bad_params
      (coded_json.string (codes "D:\\www")) (coded_json.string (codes "yes")) engine refl refl refl
      refl
