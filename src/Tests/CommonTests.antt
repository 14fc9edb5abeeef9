-- ===== src/Tests/CommonTests.antt =====
-- Settings and requests at concrete inputs.
use appytizer_app_server.Base.{◌≡◌, refl, true, false, [], ◌∷◌, none, codes}
use appytizer_app_server.Common.Config.{AppConfig, Stored, SaveFaults, load, save}
use appytizer_app_server.Common.Config.Saved.{load-save}
use appytizer_app_server.Tests.CodedJson.{coded_json, coded_json-IsLawful}

abbrev settings : AppConfig
settings = record {
  root_folder = codes "C:\\sites";
  https_enabled = false;
  run_minimized = true;
  autostart = true;
  active_versions = (codes "php", codes "8.4.7") ∷ (codes "nginx", codes "1.27") ∷ [];
  service_roots = (codes "nginx", codes "C:\\nginx") ∷ [];
}

abbrev pub no_files : Stored coded_json
no_files = record { own = none; legacy = none; temporary = none; is_default = true }

-- The first rename fails, as over a file that is open.
abbrev pub renamed_again : SaveFaults
renamed_again = record {
  opening = false;
  writing = false;
  left = λ text. text;
  renaming = true;
  removing = false;
  renaming_again = false;
}

load-save_example : load coded_json (save coded_json renamed_again settings no_files).0 ≡ settings
unfolding save
load-save_example =
    load-save coded_json coded_json-IsLawful renamed_again settings no_files refl refl refl refl

abbrev never_renamed : SaveFaults
never_renamed = record {
  opening = false;
  writing = false;
  left = λ text. text;
  renaming = true;
  removing = false;
  renaming_again = true;
}
