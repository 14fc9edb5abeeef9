-- ===== src/Ui/Program.antt =====
-- The program of appytizer-ui/main.cpp: what reaches the class App, one input at a time.
use appytizer_app_server.Base.{
  ℕ, Bool, true, false, List, [], ◌∷◌, ◌++◌, Option, Text, codes, if◌then◌else◌,
}
use appytizer_app_server.Common.Json.{JsonLib}
use appytizer_app_server.Ui.Widgets.{label, muted, bullet, hollow, ellipsis}
use appytizer_app_server.Ui.Actions.{UiConfig, Continuation, Effect, modify}
use appytizer_app_server.Ui.Rows.{ServiceRow, chosen}
use appytizer_app_server.Ui.App.{App, Ui, show, quit, show_view, refresh_all}
use appytizer_app_server.Ui.Views.{Narrow, handle_event}
use appytizer_app_server.Ui.Settings.{
  Repair, save_settings, repair_tls, browse, rescan, select_version, row_action, stop_and_exit,
  answered,
}

-- An answer or an event of the Engine, or what the user does: with a tab, a button, a row of the
-- services, or the menu of the tray icon. The settings are typed in and ticked before they are saved.
pub data Input : Type 0 where
  answer : Continuation → Text → Input
  event : Text → Input
  tab : ℕ → Input
  rescan_clicked save_clicked : Input
  repair_clicked : Repair → Input
  browsed : Option Text → Input
  action_clicked version_chosen : ServiceRow → Input
  typed : Text → Bool → Bool → Bool → Input
  display_chosen stop_exit_chosen exit_chosen : Input

abbrev default_ui_config : UiConfig
default_ui_config = record {
  root_folder = [];
  https_enabled = true;
  run_minimized = false;
  autostart = false;
}

-- The widgets as build_ui leaves them.
abbrev pub new_app : Bool → App
new_app force_show = record {
  config = default_ui_config;
  service_rows = [];
  site_rows = [];
  sites_empty = false;
  engine_status = label (bullet ++ codes "Connecting to Engine") muted;
  dns_status = label (hollow ++ codes "Routing unavailable") muted;
  nginx_status = label (hollow ++ codes "nginx unavailable") muted;
  tls_summary = label (hollow ++ codes "Checking HTTPS trust") muted;
  tls_status = label (codes "Checking certificate health" ++ ellipsis) muted;
  root_summary = codes "No projects folder configured";
  settings_result = label [] muted;
  rescan_label = codes "Rescan installations";
  rescan_active = true;
  root_input = [];
  https = true;
  minimized = false;
  autostart = false;
  quitting = false;
  force_show = force_show;
  initial_visibility_applied = false;
  active_view = 0;
  shown = false;
}

module _ (J : JsonLib) (N : Narrow) (what : Text) where
  unfoldable pub react : Input → Ui
  unfolding answered handle_event show_view save_settings repair_tls browse rescan select_version
      row_action stop_and_exit
  react (answer continuation response) = answered J N what continuation response
  react (event text) = handle_event J what text
  react (tab index) = show_view index
  react rescan_clicked = rescan J N what
  react save_clicked = save_settings J N what
  react (repair_clicked r) = repair_tls J N what r
  react (browsed path) = browse J N what path
  react (action_clicked row) = row_action J N what row
  react (version_chosen row) = select_version J N what row.id (chosen row.versions)
  react (typed root https minimized autostart) = modify (λ a. record a {
    root_input = root;
    https = https;
    minimized = minimized;
    autostart = autostart;
  })
  react display_chosen = modify show
  react stop_exit_chosen = stop_and_exit J N what
  react exit_chosen = modify quit

  -- What one input makes of the window, and what it asks for; an exception ends the callback.
  unfoldable pub step : Input → App → App × List Effect
  unfolding react
  step input a = let (a', effects, outcome) = react input a in (a', effects)

  -- `while (app.running()) Fl::wait(0.25);`
  unfoldable pub run : List Input → App → App × List Effect
  unfolding step
  run [] a = (a, [])
  run (input ∷ inputs) a =
      let (a', effects) = step input a in
      let (a'', later) = run inputs a' in if a.quitting then (a, []) else (a'', effects ++ later)

  -- The constructor of App, and then the loop.
  unfoldable pub main : Bool → List Input → App × List Effect
  unfolding run refresh_all
  main force_show inputs =
      let (a, effects, outcome) = refresh_all (new_app force_show) in
      let (a', later) = run inputs a in (a', effects ++ later)
