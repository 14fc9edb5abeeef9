-- ===== src/Tests/ToyParts.antt =====
-- A concrete engine's parts: one nginx, one site, and numbered configurations.
use appytizer_app_server.Base.{ℕ, ◌+◌, refl, true, false, Bool, List, [], ◌∷◌, Text, codes}
use appytizer_app_server.Services.Provider.{no_status}
use appytizer_app_server.Tls.Disk.{succeeded}
use appytizer_app_server.Engine.Subsystems.{Subsystems, KeepsActive}

pub record ToyState : Type 0 where
  pub active : ℕ
  pub staged : ℕ
  pub events : List Text

abbrev unchanged : ToyState → ToyState × Bool
unchanged s = (s, true)

abbrev pub toy_parts : Subsystems
toy_parts = record {
  State = ToyState;
  rescan = λ root s. (s, succeeded);
  list = λ s.
      record {
        name = codes "shop";
        hostname = codes "shop.test";
        path = codes "C:\\sites\\shop";
        type = codes "php";
        has_index = true;
        valid = true;
        error = [];
      }
      ∷ [];
  write_nginx_configs = λ https executable s. (record s { staged = s.staged + 1 }, true);
  write_nginx_root_config = λ https executable. unchanged;
  all = λ s. codes "nginx" ∷ [];
  display_name = λ id s. id;
  versions = λ id s.
      record {
        version_label = codes "1.27";
        executable_path = codes "nginx.exe";
        is_windows_service = false;
        windows_service_name = [];
      }
      ∷ [];
  service_status = λ id s. no_status;
  start_service = λ id version. unchanged;
  stop_service = λ id. unchanged;
  restart_service = λ id version. unchanged;
  set_launch_arguments = λ id arguments s. s;
  detect_all = λ s. s;
  tls_status = λ s. record {
    ready = true;
    trusted = true;
    site_certificate_count = 1;
    earliest_expiry = [];
    error = [];
  };
  ensure_site_certificate = λ hostname s. (s, succeeded);
  remove_unused_site_certificates = λ hostnames. unchanged;
  data_directory = codes "C:\\ProgramData\\Appytizer";
  active_config_exists = λ s. true;
  remove_staging = λ s. s;
  run_nginx_validation = λ executable s. true;
  activate_staged_configuration = λ s. (record s { active = s.staged }, true);
  sync_hosts = λ sites. unchanged;
  dns_start = unchanged;
  dns_stop = λ s. s;
  dns_running = λ s. true;
  ipc_start = λ s. s;
  ipc_stop = λ s. s;
  broadcast = λ event s. record s { events = event ∷ s.events };
  watch = λ root s. s;
  watcher_stop = λ s. s;
  save = λ config. unchanged;
}

abbrev pub toy_active : ToyState → ℕ
toy_active s = s.active

pub toy_parts-KeepsActive : KeepsActive toy_parts toy_active
toy_parts-KeepsActive = record {
  rescan_keeps = λ root s. refl;
  write_configs_keeps = λ https executable s. refl;
  write_root_keeps = λ https executable s. refl;
  arguments_keeps = λ id arguments s. refl;
  certificate_keeps = λ hostname s. refl;
  unused_keeps = λ hostnames s. refl;
  staging_keeps = λ s. refl;
  activate_keeps = λ s h. absurd (cc);
}
