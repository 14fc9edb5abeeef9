-- ===== src/Engine/Messages.antt =====
-- Engine::handle_message in engine/engine.cpp.
use appytizer_app_server.Base.{
  Bool, true, false, not, ◌||◌, List, [], ◌∷◌, Option, none, some, Text, codes, text_eq,
  starts_with, if◌then◌else◌,
}
use appytizer_app_server.Common.Json.{JsonLib}
use appytizer_app_server.Common.Config.{AppConfig}
use appytizer_app_server.Common.Protocol.{IpcRequest, parse_request, response_ok, response_error}
use appytizer_app_server.Engine.Subsystems.{Subsystems, by_reply}
use appytizer_app_server.Engine.Nginx.{has_service, rescan_sites_and_refresh_nginx}
use appytizer_app_server.Engine.Reports.{
  sites_json, tls_status_json, service_list, publish_status, publish_sites_changed,
}
use appytizer_app_server.Engine.Settings.{EngineState, config_set}

module _ (J : JsonLib) where
  abbrev pub config_json : AppConfig → J.Json
  config_json c = J.object (
      (codes "root_folder", J.string c.root_folder)
      ∷ (codes "https_enabled", J.boolean c.https_enabled)
      ∷ (codes "run_minimized", J.boolean c.run_minimized)
      ∷ (codes "autostart", J.boolean c.autostart)
      ∷ [])

module _ (P : Subsystems) where
  -- The loop over the providers; what a stop returns is not looked at.
  unfoldable pub stop_services : List Text → P.State → P.State
  stop_services [] s = s
  stop_services (id ∷ ids) s = stop_services ids (P.stop_service id s).0

-- `what` is the text of the exception that is thrown.
module _ (J : JsonLib) (P : Subsystems) (what : Text) where
  -- A reply with a result that may not be written.
  abbrev pub reply_with : Text → J.Json → P.State → P.State × Text
  reply_with id result s =
      (s, if J.can_dump result then response_ok J id result else response_error J id what)

  -- The end of a command that changed the parts: on success the services are published and listed.
  abbrev pub published : Text → Text → P.State × Bool → P.State × Text
  published id message (s, true) =
      let (told, reply) = publish_status J P s in
      let listed = reply_with id (service_list J P told) told in
      by_reply reply listed listed (told, response_error J id what)
  published id message (s, false) = (s, response_error J id message)

  sites_rescan : Text → AppConfig → P.State → P.State × Text
  unfolding rescan_sites_and_refresh_nginx response_ok response_error
  sites_rescan id config s =
      let (s', reply) = rescan_sites_and_refresh_nginx P config s in
      let (told, sent) = publish_sites_changed J P s' in
      let listed = reply_with id (sites_json J (P.list told)) told in
      by_reply reply (by_reply sent listed listed (told, response_error J id what))
        (
          s',
          response_error J id (
              codes
                "Could not activate the site configuration; check TLS status and nginx diagnostics"),
        )
        (s', response_error J id what)

  pub service_rescan : Text → AppConfig → P.State → P.State × Text
  unfolding rescan_sites_and_refresh_nginx response_ok response_error
  service_rescan id config s =
      let (s', reply) = rescan_sites_and_refresh_nginx P config (P.detect_all s) in
      let message = codes "Detected services, but the nginx configuration was not activated" in
      by_reply reply (published id message (s', true)) (published id message (s', false))
        (s', response_error J id what)

  stop_all : P.State → P.State
  unfolding stop_services
  stop_all s = let s' = P.dns_stop s in stop_services P (P.all s') s'

  abbrev pub service_operation : Text → Text → Text → P.State → P.State × Bool
  service_operation command service version s =
      if text_eq command (codes "service.start")
      then P.start_service service version s
      else if text_eq command (codes "service.stop")
      then P.stop_service service s
      else if text_eq command (codes "service.restart")
          || text_eq command (codes "service.set_version")
      then P.restart_service service version s
      else (s, false)

  -- `params.value("service", "")`, and then the version, may throw.
  unfoldable pub service_command : IpcRequest J → P.State → P.State × Text
  unfolding response_ok response_error
  service_command r s = elim (J.value_string r.params (codes "service") []) [
    | none ↦ (s, response_error J r.id what)
    | some service ↦
        if not (has_service P service s)
        then (s, response_error J r.id (codes "unknown service"))
        else elim (J.value_string r.params (codes "version") []) [
          | none ↦ (s, response_error J r.id what)
          | some version ↦
              published r.id (codes "service operation failed")
                (service_operation r.command service version s)
        ]
  ]

  -- The commands that leave the Engine's own state alone; `none` for the others.
  unfoldable pub parts_command : IpcRequest J → EngineState P → Option (P.State × Text)
  unfolding sites_rescan service_rescan stop_all service_command response_ok response_error
  parts_command r e =
      let s = e.parts in
      if text_eq r.command (codes "events.subscribe")
      then some (s, response_ok J r.id (J.object []))
      else if text_eq r.command (codes "service.list")
      then some (reply_with r.id (service_list J P s) s)
      else if text_eq r.command (codes "sites.list")
      then some (reply_with r.id (sites_json J (P.list s)) s)
      else if text_eq r.command (codes "tls.status")
      then some (reply_with r.id (tls_status_json J (P.tls_status s)) s)
      else if text_eq r.command (codes "config.get")
      then some (reply_with r.id (config_json J e.config) s)
      else if text_eq r.command (codes "sites.rescan")
      then some (sites_rescan r.id e.config s)
      else if text_eq r.command (codes "service.rescan")
      then some (service_rescan r.id e.config s)
      else if text_eq r.command (codes "dns.start")
      then some (published r.id (codes "DNS start failed") (P.dns_start s))
      else if text_eq r.command (codes "dns.stop")
      then some (published r.id [] (P.dns_stop s, true))
      else if text_eq r.command (codes "dns.restart")
      then some (published r.id (codes "DNS restart failed") (P.dns_start (P.dns_stop s)))
      else if text_eq r.command (codes "stop_all")
      then some (published r.id [] (stop_all s, true))
      else if starts_with (codes "service.") r.command
      then some (service_command r s)
      else none

  serve : IpcRequest J → EngineState P → EngineState P × Text
  unfolding parts_command config_set response_error
  serve r e = elim (parts_command r e) [
    | some (s, reply) ↦ (record e { parts = s }, reply)
    | none ↦
        if text_eq r.command (codes "config.set")
        then config_set J P what r.id r.params e
        else (e, response_error J r.id (codes "unknown command"))
  ]

  unfoldable pub handle_message : Text → EngineState P → EngineState P × Text
  unfolding parse_request serve response_error
  handle_message line e = elim (parse_request J line) [
    | none ↦ (e, response_error J [] (codes "invalid request"))
    | some r ↦ serve r e
  ]
