-- ===== src/Engine/Nginx.antt =====
-- Engine::configure_nginx and Engine::rescan_sites_and_refresh_nginx in engine/engine.cpp.
use appytizer_app_server.Base.{
  ℕ, Bool, true, false, not, ◌||◌, ◌&&◌, List, [], ◌∷◌, ◌++◌, map, Option, none, some, Text, codes,
  text_eq, text_mem, is_empty, if◌then◌else◌, keep,
}
use appytizer_app_server.Sites.Registry.{Site}
use appytizer_app_server.Services.Provider.{InstalledVersion, ServiceStatus}
use appytizer_app_server.Common.Config.{AppConfig}
use appytizer_app_server.Engine.Subsystems.{Subsystems, on_success, with_reply}
use appytizer_app_server.Tls.Disk.{Reply, succeeded, failed}
pub mod Retained

abbrev pub active_hostnames : List Site → List Text
active_hostnames sites = map (λ (s : Site). s.hostname) (keep (λ (s : Site). s.valid) sites)

abbrev pub front_executable : List InstalledVersion → Text
front_executable [] = []
front_executable (v ∷ vs) = v.executable_path

abbrev pub nginx_id : Text
nginx_id = codes "nginx"

-- The arguments that start nginx on the active configuration.
abbrev pub nginx_arguments : Text → Text
nginx_arguments data_directory =
    let runtime = data_directory ++ codes "\\nginx\\active\\runtime" in
    codes "-p \"" ++ (runtime ++ (codes "\" -c \"" ++ (runtime ++ codes "\\conf\\nginx.conf\"")))

module _ (P : Subsystems) where
  -- services_.get_by_id(id) is not null.
  abbrev pub has_service : Text → P.State → Bool
  has_service id s = text_mem id (P.all s)

  -- The path of the first nginx; empty if there is none.
  abbrev pub nginx_executable : P.State → Text
  nginx_executable s =
      if has_service nginx_id s then front_executable (P.versions nginx_id s) else []

  abbrev pub use_active : P.State → P.State
  use_active s = P.set_launch_arguments nginx_id (nginx_arguments P.data_directory) s

  use_existing : P.State → P.State
  use_existing s =
      if not (is_empty (nginx_executable s)) && P.active_config_exists s then use_active s else s

  -- The loop over the hostnames: it stops at the first certificate that is not issued.
  unfoldable pub ensure_certificates : List Text → P.State → P.State × Reply
  ensure_certificates [] s = (s, succeeded)
  ensure_certificates (hostname ∷ hostnames) s =
      on_success (ensure_certificates hostnames) (P.ensure_site_certificate hostname s)

  prepare_https : Bool → List Text → P.State → P.State × Reply
  unfolding ensure_certificates
  prepare_https https hostnames s =
      if not https
      then (s, succeeded)
      else if not (P.tls_status s).ready
      then (s, failed)
      else ensure_certificates hostnames s

  -- Both files, the second if the first succeeds.
  write_staged : Bool → Text → P.State → P.State × Bool
  write_staged https executable s =
      let (s', written) = P.write_nginx_configs https executable s in
      if written then P.write_nginx_root_config https executable s' else (s', false)

  activate_and_clean : List Text → P.State → P.State × Bool
  activate_and_clean hostnames s =
      let (s', activated) = P.activate_staged_configuration s in
      if not activated
      then (s', false)
      else ((P.remove_unused_site_certificates hostnames (use_active s')).0, true)

  -- The part behind the certificates.
  stage_and_activate : Bool → Text → List Text → P.State → P.State × Bool
  unfolding write_staged activate_and_clean
  stage_and_activate https executable hostnames s =
      let (s', written) = write_staged https executable (P.remove_staging s) in
      if not written || not (P.run_nginx_validation executable s')
      then (P.remove_staging s', false)
      else activate_and_clean hostnames s'

  -- Without nginx, the site state waits for it.
  publish : Bool → Text → List Text → P.State → P.State × Reply
  unfolding stage_and_activate
  publish https executable hostnames s =
      if is_empty executable
      then (s, succeeded)
      else with_reply (stage_and_activate https executable hostnames s)

  unfoldable pub configure_nginx : Bool → P.State → P.State × Reply
  unfolding use_existing prepare_https publish
  configure_nginx https s =
      let hostnames = active_hostnames (P.list s) in
      on_success (publish https (nginx_executable s) hostnames)
        (prepare_https https hostnames (use_existing s))

  -- nginx's status before the configuration; with no nginx, one that does not run.
  abbrev pub nginx_running : P.State → Bool
  nginx_running s = has_service nginx_id s && (P.service_status nginx_id s).running

  restart_if : Bool → Text → P.State → P.State × Bool
  restart_if was_running version s =
      if was_running then P.restart_service nginx_id version s else (s, true)

  -- The hosts file, and then nginx, if it was running.
  sync_and_restart : Bool → Text → P.State → P.State × Bool
  unfolding restart_if
  sync_and_restart was_running version s =
      let (synced, written) = P.sync_hosts (P.list s) s in
      if not written then (synced, false) else restart_if was_running version synced

  refresh_nginx : Bool → P.State → P.State × Reply
  unfolding configure_nginx sync_and_restart
  refresh_nginx https s =
      let version = (P.service_status nginx_id s).active_version in
      on_success (λ configured. with_reply (sync_and_restart (nginx_running s) version configured))
        (configure_nginx https s)

  -- An exception of the scan or of a certificate ends it at once.
  unfoldable pub rescan_sites_and_refresh_nginx : AppConfig → P.State → P.State × Reply
  unfolding refresh_nginx
  rescan_sites_and_refresh_nginx config s =
      on_success (refresh_nginx config.https_enabled) (P.rescan config.root_folder s)
