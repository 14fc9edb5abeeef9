-- ===== src/Ui/Layout/Runs.antt =====
-- Whatever reaches the tray application of appytizer-ui/main.cpp, and in whatever order.
use appytizer_app_server.Base.{
  ◌≡◌, refl, Bool, true, not, List, [], ◌∷◌, ◌++◌, Option, none, some, arith, Text, codes, text_eq,
  text_mem, All, if◌then◌else◌, if_both, ◌==◌,
}
use appytizer_app_server.Common.Json.{JsonLib}
use appytizer_app_server.Ui.Actions.{
  UiConfig, Continuation, apply_command, after_rescan, after_config, after_tls, after_sites,
  after_repair, after_stop, after_services, after_save, Effect,
}
use appytizer_app_server.Ui.Triples.{All-append, if_lem}
use appytizer_app_server.Ui.Invariant.{
  bind-Keeps, pure-Keeps, get-Keeps, or_throw-Keeps, modify-Keeps, ask-Keeps, catch-Keeps,
  after_keeps,
}
use appytizer_app_server.Ui.App.{App, show, quit, refresh_all}
use appytizer_app_server.Ui.Views.{Narrow}
use appytizer_app_server.Ui.Settings
use appytizer_app_server.Ui.Settings.{Repair, service_command}
use appytizer_app_server.Ui.Program
use appytizer_app_server.Ui.Program.{Input, new_app}
use appytizer_app_server.Ui.Layout.{InPlace, IsServed, is_served, served_commands, IsLaidOut}
use appytizer_app_server.Ui.Layout.Kept.{
  RowsInPlace, Good, refresh_tls-Good, refresh_all-Good, show_view-Good, apply_command_state-Good,
  services_answered-Good, require_ok-Good, result-Good,
}
use appytizer_app_server.Ui.Layout.Viewed.{
  sites_answered-Good, tls_answered-Good, handle_event-Good,
}

none-InPlace : InPlace []
unfolding InPlace IsLaidOut
none-InPlace = (150, omega arith, refl)

first_visibility-rows : (a : App) → (Settings.first_visibility a).service_rows ≡ a.service_rows
unfolding Settings.first_visibility
first_visibility-rows a = ground arith

shown_at_failure-rows : (a : App) → (Settings.shown_at_failure a).service_rows ≡ a.service_rows
unfolding Settings.shown_at_failure
shown_at_failure-rows a = ground arith

module _ (J : JsonLib) (N : Narrow) (what : Text) where
  read_config-Good : (result : J.Json) → Good (Settings.read_config J N what result)
  unfolding Settings.read_config Settings.read_switches Settings.show_config
  read_config-Good result = bind-Keeps (or_throw-Keeps what _) (λ root.
      bind-Keeps (or_throw-Keeps what _) (λ path. bind-Keeps (modify-Keeps _ (λ a p. p)) (λ u.
        bind-Keeps (or_throw-Keeps what _) (λ https. bind-Keeps (modify-Keeps _ (λ a p. p)) (λ u.
          bind-Keeps (or_throw-Keeps what _) (λ minimized.
            bind-Keeps (modify-Keeps _ (λ a p. p)) (λ u.
              bind-Keeps (or_throw-Keeps what _) (λ autostart.
                bind-Keeps (modify-Keeps _ (λ a p. p)) (λ u.
                  bind-Keeps (or_throw-Keeps what _) (λ root. modify-Keeps _ (λ a p. p)))))))))))

  config_answered-Good : (response : Text) → Good (Settings.config_answered J N what response)
  unfolding Settings.config_answered is_served
  config_answered-Good response =
      catch-Keeps
        (result-Good J what response _ (λ result. bind-Keeps (read_config-Good result) (λ u.
          bind-Keeps refresh_tls-Good (λ u. bind-Keeps (ask-Keeps _ refl) (λ u.
            modify-Keeps Settings.first_visibility (λ a p. rw (first_visibility-rows a) p))))))
        (λ error. modify-Keeps Settings.shown_at_failure (λ a p. rw (shown_at_failure-rows a) p))

  save_settings-Good : Good (Settings.save_settings J N what)
  unfolding Settings.save_settings Settings.show_settings is_served
  save_settings-Good = bind-Keeps get-Keeps (λ a. bind-Keeps (or_throw-Keeps what _) (λ path.
      bind-Keeps (or_throw-Keeps what _)
        (λ root. bind-Keeps (modify-Keeps _ (λ a p. p)) (λ u. ask-Keeps _ refl))))

  save_answered-Good :
      (updated : UiConfig) (response : Text)
      → Good (Settings.save_answered J N what updated response)
  unfolding Settings.save_answered Settings.show_settings is_served
  save_answered-Good updated response =
      catch-Keeps
        (bind-Keeps (or_throw-Keeps what _) (λ document.
          bind-Keeps (require_ok-Good J what document _) (λ u.
            bind-Keeps (modify-Keeps _ (λ a p. p)) (λ u.
              bind-Keeps (ask-Keeps _ refl)
                (λ u. bind-Keeps (modify-Keeps _ (λ a p. p)) (λ u. refresh_all-Good))))))
        (λ error. modify-Keeps _ (λ a p. p))

  repair_tls-Good : (r : Repair) → Good (Settings.repair_tls J N what r)
  unfolding Settings.repair_tls Settings.show_tls_status is_served
  repair_tls-Good r = if_lem (not r.located) (pure-Keeps tt) (
      bind-Keeps (modify-Keeps _ (λ a p. p)) (λ u.
        if_lem (not r.started) (modify-Keeps _ (λ a p. p))
          (if_lem (not (r.exit_code == 0)) (modify-Keeps _ (λ a p. p)) (ask-Keeps _ refl))))

  browse-Good : (path : Option Text) → Good (Settings.browse J N what path)
  unfolding Settings.browse
  browse-Good none = pure-Keeps tt
  browse-Good (some path) = bind-Keeps (or_throw-Keeps what _) (λ root. modify-Keeps _ (λ a p. p))

  service_command-served :
      (id : Text) (running : Bool)
      → text_mem (service_command J N what id running) served_commands ≡ true
  service_command-served id running =
      if_both (λ c. text_mem c served_commands ≡ true) (text_eq id (codes "dns"))
        (if running then codes "dns.stop" else codes "dns.start")
        (if running then codes "service.stop" else codes "service.start")
        (if_both (λ c. text_mem c served_commands ≡ true) running (codes "dns.stop")
          (codes "dns.start") refl refl)
        (if_both (λ c. text_mem c served_commands ≡ true) running (codes "service.stop")
          (codes "service.start") refl refl)

  answered-Good :
      (continuation : Continuation) (response : Text)
      → Good (Settings.answered J N what continuation response)
  unfolding Settings.answered Settings.rescan_answered is_served
  answered-Good apply_command response = apply_command_state-Good J what response
  answered-Good after_rescan response =
      bind-Keeps (modify-Keeps _ (λ a p. p)) (λ u. ask-Keeps _ refl)
  answered-Good after_config response = config_answered-Good response
  answered-Good after_tls response = tls_answered-Good J what response
  answered-Good after_sites response = sites_answered-Good J what response
  answered-Good after_repair response = bind-Keeps refresh_tls-Good (λ u. ask-Keeps _ refl)
  answered-Good after_stop response = modify-Keeps quit (λ a p. p)
  answered-Good (after_services rebuild) response = services_answered-Good J what rebuild response
  answered-Good (after_save updated) response = save_answered-Good updated response

  pub react-Good : (input : Input) → Good (Program.react J N what input)
  unfolding Program.react Settings.rescan Settings.select_version Settings.row_action
      Settings.service_action Settings.stop_and_exit is_served
  react-Good (Input.answer continuation response) = answered-Good continuation response
  react-Good (Input.event text) = handle_event-Good J what text
  react-Good (Input.tab index) = show_view-Good index
  react-Good Input.rescan_clicked = bind-Keeps (modify-Keeps _ (λ a p. p)) (λ u. ask-Keeps _ refl)
  react-Good Input.save_clicked = save_settings-Good
  react-Good (Input.repair_clicked r) = repair_tls-Good r
  react-Good (Input.browsed path) = browse-Good path
  react-Good (Input.action_clicked row) = ask-Keeps _ (service_command-served row.id row.running)
  react-Good (Input.version_chosen row) = ask-Keeps _ refl
  react-Good (Input.typed root https minimized autostart) = modify-Keeps _ (λ a p. p)
  react-Good Input.display_chosen = modify-Keeps show (λ a p. p)
  react-Good Input.stop_exit_chosen = ask-Keeps _ refl
  react-Good Input.exit_chosen = modify-Keeps quit (λ a p. p)

  run-Good :
      (inputs : List Input) (a : App)
      → RowsInPlace a
      → RowsInPlace (Program.run J N what inputs a).0
        × All IsServed (Program.run J N what inputs a).1
  unfolding Program.run Program.step
  run-Good [] a p = (p, tt)
  run-Good (input ∷ inputs) a p =
      let (a', effects) = Program.step J N what input a in
      let (served, after) = (react-Good input).holds a p in
      let outcome = (Program.react J N what input a).2 in
      let (placed, later) = run-Good inputs a' (after_keeps RowsInPlace outcome a' after) in
      if_both (λ (r : App × List Effect). RowsInPlace r.0 × All IsServed r.1) a.quitting (a, [])
        ((Program.run J N what inputs a').0, effects ++ (Program.run J N what inputs a').1) (p, tt)
        (placed, All-append IsServed effects (Program.run J N what inputs a').1 served later)

  main-Good :
      (force_show : Bool) (inputs : List Input)
      → RowsInPlace (Program.main J N what force_show inputs).0
        × All IsServed (Program.main J N what force_show inputs).1
  unfolding Program.main
  main-Good force_show inputs =
      let (a, effects, outcome) = refresh_all (new_app force_show) in
      let (served, after) = refresh_all-Good.holds (new_app force_show) none-InPlace in
      let (placed, later) = run-Good inputs a (after_keeps RowsInPlace outcome a after) in
      (placed, All-append IsServed effects (Program.run J N what inputs a).1 served later)

  -- After every run of the tray application, whatever answers, events and clicks it was given, the
  -- rows of the services stand below one another without overlapping, in the order of the view, and
  -- each service has at most one.
  pub main-InPlace :
      (force_show : Bool) (inputs : List Input)
      → InPlace (Program.main J N what force_show inputs).0.service_rows
  main-InPlace force_show inputs = (main-Good force_show inputs).0

  pub main-IsServed :
      (force_show : Bool) (inputs : List Input)
      → All IsServed (Program.main J N what force_show inputs).1
  main-IsServed force_show inputs = (main-Good force_show inputs).1
