-- ===== src/Ui/Settings.antt =====
-- The settings of the class App in appytizer-ui/main.cpp, the user's commands, and which answer goes
-- to which callback.
use appytizer_app_server.Base.{
  ℕ, Bool, true, false, not, ◌||◌, [], ◌∷◌, ◌++◌, Option, none, some, Text, codes, text_eq,
  is_empty, if◌then◌else◌, ◌==◌,
}
use appytizer_app_server.Common.Json.{JsonLib}
use appytizer_app_server.Ui.Widgets.{Label, label, ready, fault, link, bullet, ellipsis}
use appytizer_app_server.Ui.Actions.{
  UiConfig, Continuation, apply_command, after_rescan, after_config, after_tls, after_sites,
  after_repair, after_stop, after_services, after_save, request, autostart_entry, pure, ◌>>=◌, ◌>>◌,
  get, modify, ask, catch, or_throw,
}
use appytizer_app_server.Ui.Rows.{ServiceRow, text_in, boolean_in, chosen}
use appytizer_app_server.Ui.App.{
  App, Ui, show, quit, send, refresh_services, refresh_sites, refresh_tls, refresh_all, require_ok,
  parsed, at, apply_command_state,
}
use appytizer_app_server.Ui.Views.{
  Narrow, services_answered, sites_answered, tls_answered, engine_unavailable,
}

-- What repair_tls meets: whether its own path is told, whether the Engine's process starts, and what
-- it exits with.
pub record Repair : Type 0 where
  pub located : Bool
  pub started : Bool
  pub exit_code : ℕ

abbrev no_projects_folder : Text
no_projects_folder = codes "No projects folder configured"

unfoldable pub show_config : Text → App → App
show_config root a = record a {
  root_input = root;
  root_summary = if is_empty a.config.root_folder then no_projects_folder else root;
  https = a.config.https_enabled;
  minimized = a.config.run_minimized;
  autostart = a.config.autostart;
}

-- The first answer to config.get decides whether the window is shown.
unfoldable pub first_visibility : App → App
first_visibility a =
    let applied : App = record a { initial_visibility_applied = true } in
    if a.initial_visibility_applied
    then a
    else if a.force_show || not a.config.run_minimized
    then show applied
    else applied

unfoldable pub shown_at_failure : App → App
shown_at_failure a =
    if a.initial_visibility_applied
    then a
    else show (record a { initial_visibility_applied = true })

unfoldable pub show_settings : Label → App → App
show_settings result a = record a { settings_result = result }

unfoldable pub show_tls_status : Label → App → App
show_tls_status status a = record a { tls_status = status }

abbrev pub set_config : (UiConfig → UiConfig) → App → App
set_config change a = record a { config = change a.config }

module _ (J : JsonLib) (N : Narrow) (what : Text) where
  unfoldable pub read_switches : Text → J.Json → Ui
  unfolding show_config
  read_switches path result = do
    minimized ← boolean_in J what result (codes "run_minimized") false
    modify (set_config (λ c. record c { run_minimized = minimized }))
    autostart ← boolean_in J what result (codes "autostart") false
    modify (set_config (λ c. record c { autostart = autostart }))
    shown_root ← or_throw what (N.from_path path)
    modify (show_config shown_root)

  unfoldable pub read_config : J.Json → Ui
  unfolding read_switches
  read_config result = do
    root ← text_in J what result (codes "root_folder") []
    path ← or_throw what (N.to_path root)
    modify (set_config (λ c. record c { root_folder = path }))
    https ← boolean_in J what result (codes "https_enabled") true
    modify (set_config (λ c. record c { https_enabled = https }))
    read_switches path result

  unfoldable pub config_answered : Text → Ui
  unfolding read_config show_config first_visibility shown_at_failure refresh_tls
  config_answered response =
      catch
        (do
          document ← parsed J what response
          require_ok J what document engine_unavailable
          result ← at J what document (codes "result")
          read_config result
          refresh_tls
          refresh_sites
          modify first_visibility)
        (λ error. modify shown_at_failure)

  abbrev pub settings_params : Text → UiConfig → J.Json
  settings_params root c = J.object (
      (codes "root_folder", J.string root)
      ∷ (codes "https_enabled", J.boolean c.https_enabled)
      ∷ (codes "run_minimized", J.boolean c.run_minimized)
      ∷ (codes "autostart", J.boolean c.autostart)
      ∷ [])

  unfoldable pub save_settings : Ui
  unfolding show_settings
  save_settings = do
    a ← get
    path ← or_throw what (N.to_path a.root_input)
    root ← or_throw what (N.from_path path)
    let updated : UiConfig = record {
      root_folder = path;
      https_enabled = a.https;
      run_minimized = a.minimized;
      autostart = a.autostart;
    }
    modify (show_settings (label (bullet ++ (codes "Applying settings" ++ ellipsis)) link))
    ask (request (codes "config.set") (J.dump (settings_params root updated)) (after_save updated))

  unfoldable pub save_answered : UiConfig → Text → Ui
  unfolding show_settings refresh_all
  save_answered updated response =
      catch
        (do
          document ← parsed J what response
          require_ok J what document (codes "Settings could not be applied")
          modify (λ a. record a { config = updated })
          ask (autostart_entry updated.autostart)
          modify (show_settings (label (bullet ++ codes "Settings applied") ready))
          refresh_all)
        (λ error.
          modify
            (show_settings (label (bullet ++ (codes "Settings not applied: " ++ error)) fault)))

  unfoldable pub repair_tls : Repair → Ui
  unfolding show_tls_status
  repair_tls r = if not r.located then pure tt else do
    modify
        (show_tls_status (label (bullet ++ (codes "Repairing certificate trust" ++ ellipsis)) link))
    if not r.started
        then modify (
            show_tls_status (
              label (bullet ++ codes "Certificate repair was cancelled or could not start.") fault))
        else if not (r.exit_code == 0)
        then modify (
            show_tls_status (
              label (bullet ++ codes "Certificate repair failed. See the Engine log for details.")
                fault))
        else send (codes "sites.rescan") after_repair

  -- The folder that was chosen, if one was.
  unfoldable pub browse : Option Text → Ui
  browse none = pure tt
  browse (some path) = do
    root ← or_throw what (N.from_path path)
    modify (λ a. record a { root_input = root })

  unfoldable pub rescan : Ui
  rescan = do
    modify (λ a. record a { rescan_label = codes "Scanning" ++ ellipsis; rescan_active = false })
    send (codes "service.rescan") after_rescan

  unfoldable pub rescan_answered : Ui
  rescan_answered = do
    modify (λ a. record a { rescan_label = codes "Rescan installations"; rescan_active = true })
    refresh_services true

  abbrev pub service_command : Text → Bool → Text
  service_command id running =
      if text_eq id (codes "dns")
      then (if running then codes "dns.stop" else codes "dns.start")
      else if running
      then codes "service.stop"
      else codes "service.start"

  abbrev pub service_params : Text → Text → J.Json
  service_params id version =
      J.object ((codes "service", J.string id) ∷ (codes "version", J.string version) ∷ [])

  unfoldable pub service_action : Text → Bool → Text → Ui
  service_action id running version =
      let params = if text_eq id (codes "dns") then J.object [] else service_params id version in
      ask (request (service_command id running) (J.dump params) apply_command)

  unfoldable pub select_version : Text → Text → Ui
  select_version id version =
      ask (request (codes "service.set_version") (J.dump (service_params id version)) apply_command)

  -- ServiceRow::action_callback.
  unfoldable pub row_action : ServiceRow → Ui
  unfolding service_action
  row_action row = service_action row.id row.running (chosen row.versions)

  unfoldable pub stop_and_exit : Ui
  stop_and_exit = send (codes "stop_all") after_stop

  -- The callback of a request, with the answer.
  unfoldable pub answered : Continuation → Text → Ui
  unfolding apply_command_state services_answered config_answered tls_answered sites_answered
      save_answered rescan_answered refresh_tls
  answered apply_command response = apply_command_state J what response
  answered after_rescan response = rescan_answered
  answered after_config response = config_answered response
  answered after_tls response = tls_answered J what response
  answered after_sites response = sites_answered J what response
  answered after_repair response = do refresh_tls; refresh_sites
  answered after_stop response = modify quit
  answered (after_services rebuild_services) response =
      services_answered J what rebuild_services response
  answered (after_save updated) response = save_answered updated response
