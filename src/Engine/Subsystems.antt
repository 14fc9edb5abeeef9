-- ===== src/Engine/Subsystems.antt =====
-- What the Engine calls of its parts: their operations over a state that they share. The parts'
-- own modules define what each operation does.
use appytizer_app_server.Base.{◌≡◌, Bool, false, List, Text}
use appytizer_app_server.Sites.Registry.{Site}
use appytizer_app_server.Services.Provider.{InstalledVersion, ServiceStatus}
use appytizer_app_server.Tls.Disk.{Reply, succeeded, failed, thrown, reply_of}
use appytizer_app_server.Tls.Status.{TlsStatus}
use appytizer_app_server.Common.Config.{AppConfig}

-- What is done behind a call that succeeds.
abbrev pub on_success : {S : Type 0} → (S → S × Reply) → S × Reply → S × Reply
on_success next (s, succeeded) = next s
on_success next (s, failed) = (s, failed)
on_success next (s, thrown) = (s, thrown)

abbrev pub with_reply : {S : Type 0} → S × Bool → S × Reply
with_reply (s, ok) = (s, reply_of ok)

-- One of three by the reply: where it succeeds, where it fails, and where it throws.
abbrev pub by_reply : {A : Type 0} → Reply → A → A → A → A
by_reply succeeded a b c = a
by_reply failed a b c = b
by_reply thrown a b c = c

pub record Subsystems : Type 1 where
  pub State : Type 0
  -- SiteRegistry.
  pub rescan : Text → State → State × Reply
  pub list : State → List Site
  pub write_nginx_configs : Bool → Text → State → State × Bool
  pub write_nginx_root_config : Bool → Text → State → State × Bool
  -- ServiceRegistry and its providers, by their identifiers.
  pub all : State → List Text
  pub display_name : Text → State → Text
  pub versions : Text → State → List InstalledVersion
  pub service_status : Text → State → ServiceStatus
  pub start_service : Text → Text → State → State × Bool
  pub stop_service : Text → State → State × Bool
  pub restart_service : Text → Text → State → State × Bool
  pub set_launch_arguments : Text → Text → State → State
  pub detect_all : State → State
  -- CertificateManager.
  pub tls_status : State → TlsStatus
  pub ensure_site_certificate : Text → State → State × Reply
  pub remove_unused_site_certificates : List Text → State → State × Bool
  -- The nginx folder, `nginx -t`, and the hosts file.
  pub data_directory : Text
  pub active_config_exists : State → Bool
  pub remove_staging : State → State
  pub run_nginx_validation : Text → State → Bool
  pub activate_staged_configuration : State → State × Bool
  pub sync_hosts : List Site → State → State × Bool
  -- DnsServer, PipeServer, FolderWatcher, ConfigStore.
  pub dns_start : State → State × Bool
  pub dns_stop : State → State
  pub dns_running : State → Bool
  pub ipc_start : State → State
  pub ipc_stop : State → State
  pub broadcast : Text → State → State
  pub watch : Text → State → State
  pub watcher_stop : State → State
  pub save : AppConfig → State → State × Bool

-- What only activate_staged_configuration changes: the configuration that nginx is started with.
-- One that fails leaves it as it was.
pub record KeepsActive (P : Subsystems) {A : Type 0} (active : P.State → A) : Type 0 where
  pub rescan_keeps : (root : Text) (s : P.State) → active (P.rescan root s).0 ≡ active s
  pub write_configs_keeps :
      (https : Bool) (executable : Text) (s : P.State)
      → active (P.write_nginx_configs https executable s).0 ≡ active s
  pub write_root_keeps :
      (https : Bool) (executable : Text) (s : P.State)
      → active (P.write_nginx_root_config https executable s).0 ≡ active s
  pub arguments_keeps :
      (id arguments : Text) (s : P.State)
      → active (P.set_launch_arguments id arguments s) ≡ active s
  pub certificate_keeps :
      (hostname : Text) (s : P.State) → active (P.ensure_site_certificate hostname s).0 ≡ active s
  pub unused_keeps :
      (hostnames : List Text) (s : P.State)
      → active (P.remove_unused_site_certificates hostnames s).0 ≡ active s
  pub staging_keeps : (s : P.State) → active (P.remove_staging s) ≡ active s
  pub activate_keeps :
      (s : P.State)
      → (P.activate_staged_configuration s).1 ≡ false
      → active (P.activate_staged_configuration s).0 ≡ active s
