-- ===== src/Tests/UiTests.antt =====
-- The tray application at concrete inputs.
use appytizer_app_server.Base.{
  ℕ, ◌≡◌, refl, Bool, true, false, List, [], ◌∷◌, map, some, Text, codes, arith,
}
use appytizer_app_server.Base.Dict.{lookup}
use appytizer_app_server.Common.Config.{default_config}
use appytizer_app_server.Common.Protocol.{IpcRequest, parse_request, response_ok}
use appytizer_app_server.Engine.Messages.{config_json}
use appytizer_app_server.Engine.Settings.{EngineState, assign_all}
use appytizer_app_server.Engine.Settings.Converted.{with_settings}
use appytizer_app_server.Ipc.Request.{request_line}
use appytizer_app_server.Ui.Images.{copy_scaled, target_size}
use appytizer_app_server.Ui.Images.Scaled.{Fits, copy_scaled-Fits}
use appytizer_app_server.Ui.Actions.{
  request, after_save, after_services, ◌>>=◌, get, pure, throw, modify, ask, catch,
}
use appytizer_app_server.Ui.Rows.{ServiceRow}
use appytizer_app_server.Ui.App.{App}
use appytizer_app_server.Ui.Views.{Narrow}
use appytizer_app_server.Ui.Settings.{save_settings, config_answered}
use appytizer_app_server.Ui.Program.{Input, new_app, main}
use appytizer_app_server.Ui.Layout.{InPlace}
use appytizer_app_server.Ui.Layout.Runs.{main-InPlace}
use appytizer_app_server.Ui.Served.{Answered, is_asked, main-served}
use appytizer_app_server.Ui.Saved.{entered, save_settings-assign_all}
use appytizer_app_server.Ui.Displayed.{IsDisplayed, config_answered-IsDisplayed}
use appytizer_app_server.Tests.CodedJson.{Coded, coded_json, coded_json-IsLawful}
use appytizer_app_server.Tests.ToyParts.{toy_parts}

scaled : copy_scaled (300, 200) 24 ≡ some (some (24, 16))
unfolding copy_scaled
scaled = refl

copy_scaled-Fits_example :
    (copy_scaled (300, 200) 24 ≡ some (some (target_size (300, 200) 24)))
    × Fits 24 (target_size (300, 200) 24)
copy_scaled-Fits_example = copy_scaled-Fits 300 200 24 (omega arith) (omega arith) (omega arith)

abbrev narrow : Narrow
narrow = record { to_path = λ text. some text; from_path = λ path. some path }

abbrev what : Text
what = codes "type error"

abbrev service : Text → Bool → Coded
service id running = coded_json.object (
    (codes "id", coded_json.string id)
    ∷ (codes "running", coded_json.boolean running)
    ∷ (codes "version", coded_json.string (codes "1.27"))
    ∷ [])

-- nginx before dns, and nginx twice.
abbrev services_answer : Text
unfolding response_ok
services_answer = response_ok coded_json (codes "1") (
    coded_json.array (
      service (codes "nginx") true
      ∷ service (codes "dns") false
      ∷ service (codes "nginx") false
      ∷ []))

abbrev inputs : List Input
unfolding services_answer
inputs = Input.answer (after_services true) services_answer ∷ Input.exit_chosen ∷ []

rows_of_run :
    map {B = Text × ℕ}
      (λ (row : ServiceRow). (row.id, row.y))
      (main coded_json narrow what true inputs).0.service_rows
    ≡ (codes "dns", 176) ∷ (codes "nginx", 222) ∷ []
unfolding main ◌>>=◌ get pure throw modify ask catch lookup inputs
rows_of_run = refl

main-InPlace_example : InPlace (main coded_json narrow what true inputs).0.service_rows
main-InPlace_example = main-InPlace coded_json narrow what true inputs

abbrev list_request : IpcRequest coded_json
list_request = record {
  id = codes "1";
  command = codes "service.list";
  params = coded_json.object [];
}

abbrev engine : EngineState toy_parts
engine = record {
  config = default_config;
  running = true;
  parts = record { active = 1; staged = 1; events = [] };
}

main-served_example : Answered coded_json toy_parts what list_request engine
unfolding main is_asked ◌>>=◌ get pure modify ask
main-served_example = main-served coded_json toy_parts what narrow true [] list_request engine refl

abbrev edited : App
edited = record (new_app true) { root_input = codes "D:\\www"; https = false }

save_settings-assign_all_example :
    (params : Coded) × ((save_settings coded_json narrow what edited).1
      ≡ request
          (codes "config.set")
          (coded_json.dump params)
          (after_save (entered (codes "D:\\www") edited))
        ∷ [])
    × (parse_request coded_json
          (request_line coded_json (codes "7") (codes "config.set") (coded_json.dump params))
        ≡ some (record { id = codes "7"; command = codes "config.set"; params = params }))
    × (assign_all coded_json params default_config
        ≡ (with_settings (codes "D:\\www") false false false default_config, true))
save_settings-assign_all_example =
    save_settings-assign_all coded_json coded_json-IsLawful narrow what edited (codes "D:\\www")
      (codes "D:\\www") (codes "7") default_config refl refl

config_answered-IsDisplayed_example :
    IsDisplayed default_config [] []
      (config_answered coded_json narrow what
        (response_ok coded_json (codes "7") (config_json coded_json default_config))
        edited).0
config_answered-IsDisplayed_example =
    config_answered-IsDisplayed coded_json coded_json-IsLawful narrow what default_config [] []
      (codes "7") edited refl refl
