-- ===== src/Tests/ServiceTests.antt =====
-- Providers at concrete inputs.
use appytizer_app_server.Base.{◌≡◌, refl, true, false, List, [], ◌∷◌, none, some, Text, codes}
use appytizer_app_server.Services.Version.{parse_version}
use appytizer_app_server.Services.Provider.{
  InstalledVersion, Windows, Provider, no_status, start, stop,
}
use appytizer_app_server.Services.Provider.Owned.{
  done, then_step, started, stopped, IsTracked, Steps-IsTracked,
}

parsed_version : parse_version (codes "postgresql-x64-16.4.1.2.3") ≡ codes "16.4.1.2"
unfolding parse_version
parsed_version = refl

abbrev pub windows : Windows
windows = record {
  canonical = λ path. some path;
  relative = λ path root. codes "..";
  narrow = λ name. name;
  scm_entries = none;
  version_of = λ path. codes "1.27";
  working_set = λ process_id. 4096;
  terminates = true;
  exits = true;
  spawn_answer = record { job = true; created = some 7; assigned = true; exits_at_once = false };
  scm_answer =
      λ name. record { opens = false; changed = false; error = 0; state = 0; process_id = 0 };
}

abbrev nginx_version : InstalledVersion
nginx_version = record {
  version_label = codes "1.27";
  executable_path = codes "nginx.exe";
  is_windows_service = false;
  windows_service_name = [];
}

abbrev pub nginx : Provider
nginx = record {
  id = codes "nginx";
  display_name = codes "nginx";
  active = [];
  executable_names = codes "nginx.exe" ∷ [];
  search_roots = [];
  registry_tokens = [];
  service_tokens = [];
  arguments = [];
  preferred_root = [];
  preferred_arguments = [];
  versions = nginx_version ∷ [];
  process = none;
  status = no_status;
}

abbrev started_nginx : Provider
started_nginx = (start windows (codes "1.27") nginx).0

Steps-IsTracked_example : IsTracked (stop windows started_nginx).0
Steps-IsTracked_example =
    Steps-IsTracked
      (then_step (then_step (done nginx) (started windows (codes "1.27") nginx))
        (stopped windows started_nginx))
      (refl, refl)

abbrev executables : List Text
executables = codes "a\\nginx.exe" ∷ codes "b\\nginx.exe" ∷ []
