-- ===== src/Ui/App.antt =====
-- The class App in appytizer-ui/main.cpp: its state, and the handlers of answers and events.
use appytizer_app_server.Base.{
  ℕ, Bool, true, false, not, List, [], ◌∷◌, ◌++◌, Option, none, some, Text, codes, text_eq, map,
  if◌then◌else◌, ◌==◌,
}
use appytizer_app_server.Common.Json.{JsonLib}
use appytizer_app_server.Ui.Widgets.{Label, label, ready, fault, muted, bullet, hollow}
use appytizer_app_server.Ui.Actions.{
  UiConfig, Continuation, after_config, after_tls, after_sites, after_services, request, Outcome,
  thrown, returned, Action, pure, throw, ◌>>=◌, ◌>>◌, get, modify, ask, catch, when, for_each,
  or_throw,
}
use appytizer_app_server.Ui.Rows.{ServiceRow, text_in, boolean_in, update, set_disconnected}
use appytizer_app_server.Ui.SiteRows.{SiteRow}

pub record App : Type 0 where
  pub config : UiConfig
  pub service_rows : List ServiceRow
  pub site_rows : List SiteRow
  pub sites_empty : Bool
  pub engine_status : Label
  pub dns_status : Label
  pub nginx_status : Label
  pub tls_summary : Label
  pub tls_status : Label
  pub root_summary : Text
  pub settings_result : Label
  pub rescan_label : Text
  pub rescan_active : Bool
  -- The input and the check buttons of the settings.
  pub root_input : Text
  pub https : Bool
  pub minimized : Bool
  pub autostart : Bool
  pub quitting : Bool
  pub force_show : Bool
  pub initial_visibility_applied : Bool
  pub active_view : ℕ
  pub shown : Bool

abbrev pub Ui : Type 0
Ui = Action App Unit

-- show and quit.
abbrev pub show : App → App
show a = record a { shown = true }

abbrev pub quit : App → App
quit a = record a { quitting = true; shown = false }

-- `client_.request(command, "{}", continuation)`
abbrev pub send : Text → Continuation → Ui
send command continuation = ask (request command (codes "{}") continuation)

abbrev pub refresh_services : Bool → Ui
refresh_services rebuild_services = send (codes "service.list") (after_services rebuild_services)

abbrev pub refresh_config : Ui
refresh_config = send (codes "config.get") after_config

abbrev pub refresh_sites : Ui
refresh_sites = send (codes "sites.list") after_sites

unfoldable pub https_disabled : App → App
https_disabled a = record a {
  tls_status =
      label (hollow ++ codes "HTTPS is disabled. Existing certificates are retained.") muted;
  tls_summary = label (hollow ++ codes "HTTPS disabled") muted;
}

unfoldable pub refresh_tls : Ui
unfolding https_disabled
refresh_tls = do
  a ← get
  if not a.config.https_enabled then modify https_disabled else send (codes "tls.status") after_tls

unfoldable pub refresh_all : Ui
unfolding refresh_tls
refresh_all = do refresh_services true; refresh_config; refresh_tls

unfoldable pub show_view : ℕ → Ui
unfolding refresh_tls
show_view index = do
  modify (λ a. record a { active_view = index })
  if index == 0
      then refresh_sites
      else if index == 1
      then refresh_services true
      else if index == 2
      then (do refresh_config; refresh_tls)
      else pure tt

-- The row that was run, before the others: those behind it are left alone where it threw.
abbrev pub with_row :
    Outcome Unit
    → ServiceRow
    → List ServiceRow
    → List ServiceRow × Outcome Unit
    → List ServiceRow × Outcome Unit
with_row (thrown what) row rows rest = (row ∷ rows, thrown what)
with_row (returned u) row rows (rows', outcome) = (row ∷ rows', outcome)

-- A row's own action, run on each row with the identifier, up to one that throws.
unfoldable pub on_rows :
    Text → Action ServiceRow Unit → List ServiceRow → List ServiceRow × Outcome Unit
on_rows id action [] = ([], returned tt)
on_rows id action (row ∷ rows) =
    let rest = on_rows id action rows in
    if text_eq row.id id
    then with_row (action row).2 (action row).0 rows rest
    else with_row (returned tt) row rows rest

unfoldable pub update_rows : Text → Action ServiceRow Unit → Ui
unfolding on_rows
update_rows id action a =
    let (rows, outcome) = on_rows id action a.service_rows in
    (record a { service_rows = rows }, [], outcome)

abbrev pub disconnect_rows : App → App
disconnect_rows a = record a { service_rows = map set_disconnected a.service_rows }

abbrev running_label : Text → Bool → Label
running_label name running =
    if running
    then label (bullet ++ (name ++ codes " running")) ready
    else label (bullet ++ (name ++ codes " stopped")) fault

unfoldable pub set_engine_text : Text → App → App
set_engine_text text a = record a { engine_status = label text a.engine_status.color }

unfoldable pub set_engine_color : App → App
set_engine_color a = record a { engine_status = label a.engine_status.text ready }

unfoldable pub show_running : Text → Bool → App → App
show_running id running a =
    if text_eq id (codes "dns")
    then record a { dns_status = running_label (codes "Routing") running }
    else if text_eq id (codes "nginx")
    then record a { nginx_status = running_label (codes "nginx") running }
    else a

unfoldable pub engine_disconnected : App → App
engine_disconnected a = disconnect_rows (record a {
  engine_status = label (bullet ++ codes "Engine disconnected") fault;
  dns_status = label (bullet ++ codes "Routing unavailable") fault;
  nginx_status = label (bullet ++ codes "nginx unavailable") fault;
  tls_summary = label (hollow ++ codes "HTTPS status unavailable") muted;
})

unfoldable pub services_failed : App → App
services_failed a =
    disconnect_rows
      (record a { engine_status = label (bullet ++ codes "Engine disconnected") fault })

-- `what` is the text of an exception of the JSON library.
module _ (J : JsonLib) (what : Text) where
  unfoldable pub apply_service : J.Json → Ui
  unfolding update update_rows show_running
  apply_service service = do
    id ← text_in J what service (codes "id") []
    running ← boolean_in J what service (codes "running") false
    modify (show_running id running)
    update_rows id (update J what service)

  unfoldable pub apply_service_status : J.Json → Ui
  unfolding apply_service set_engine_text set_engine_color
  apply_service_status services = do
    modify (set_engine_text (bullet ++ codes "Engine connected"))
    for_each (J.elements services) apply_service
    modify set_engine_color

  -- `if (!document.value("ok", false)) throw std::runtime_error(document.value("error", default));`
  abbrev pub require_ok : J.Json → Text → Ui
  require_ok document default = do
    ok ← boolean_in J what document (codes "ok") false
    if ok
        then pure tt
        else (do error ← text_in J what document (codes "error") default; throw error)

  abbrev pub parsed : Text → Action App J.Json
  parsed text = or_throw what (J.parse text)

  abbrev pub at : J.Json → Text → Action App J.Json
  at document key = or_throw what (J.field document key)

  -- `document.contains("result") && document["result"].is_array()`
  abbrev pub apply_result : Option J.Json → Ui
  apply_result none = pure tt
  apply_result (some result) = when (J.is_array result) (apply_service_status result)

  unfoldable pub apply_command_state : Text → Ui
  unfolding apply_service_status
  apply_command_state response =
      catch
        (do
          document ← parsed response
          ok ← boolean_in J what document (codes "ok") false
          when ok (apply_result (J.field document (codes "result"))))
        (λ error. pure tt)
