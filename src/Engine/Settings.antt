-- ===== src/Engine/Settings.antt =====
-- The command config.set of Engine::handle_message in engine/engine.cpp.
use appytizer_app_server.Base.{
  Bool, true, false, not, List, [], ◌∷◌, Option, none, some, Text, codes, if◌then◌else◌,
}
use appytizer_app_server.Common.Json.{JsonLib}
use appytizer_app_server.Common.Config.{AppConfig}
use appytizer_app_server.Common.Protocol.{response_ok, response_error}
use appytizer_app_server.Engine.Subsystems.{Subsystems, by_reply, on_success}
use appytizer_app_server.Tls.Disk.{Reply, succeeded, failed, thrown}
use appytizer_app_server.Engine.Nginx.{rescan_sites_and_refresh_nginx}
use appytizer_app_server.Engine.Reports.{publish_status, publish_sites_changed}
pub mod Restored
pub mod Converted

-- The Engine's own state, over that of its parts.
pub record EngineState (P : Subsystems) : Type 0 where
  pub config : AppConfig
  pub running : Bool
  pub parts : P.State

abbrev pub store :
    {V : Type 0} → (V → AppConfig → AppConfig) → Option V → AppConfig → AppConfig × Bool
store change none c = (c, false)
store change (some v) c = (change v c, true)

-- `params.at(key).get<T>()` where there is the key: `some` where it converts.
abbrev pub assign :
    {J V : Type 0}
    → (J → Option V)
    → (V → AppConfig → AppConfig)
    → Option J
    → AppConfig
    → AppConfig × Bool
assign convert change none c = (c, true)
assign convert change (some j) c = store change (convert j) c

-- The next assignment, unless an exception was thrown.
abbrev pub then_assign : (AppConfig → AppConfig × Bool) → AppConfig × Bool → AppConfig × Bool
then_assign next (c, true) = next c
then_assign next (c, false) = (c, false)

module _ (J : JsonLib) where
  assign_root : J.Json → AppConfig → AppConfig × Bool
  assign_root params =
      assign J.as_string (λ v c. record c { root_folder = v })
        (J.field params (codes "root_folder"))

  assign_https : J.Json → AppConfig → AppConfig × Bool
  assign_https params =
      assign J.as_boolean (λ v c. record c { https_enabled = v })
        (J.field params (codes "https_enabled"))

  assign_minimized : J.Json → AppConfig → AppConfig × Bool
  assign_minimized params =
      assign J.as_boolean (λ v c. record c { run_minimized = v })
        (J.field params (codes "run_minimized"))

  assign_autostart : J.Json → AppConfig → AppConfig × Bool
  assign_autostart params =
      assign J.as_boolean (λ v c. record c { autostart = v }) (J.field params (codes "autostart"))

  -- The four fields in order, up to one that does not convert.
  unfoldable pub assign_all : J.Json → AppConfig → AppConfig × Bool
  unfolding assign_root assign_https assign_minimized assign_autostart
  assign_all params c = then_assign (assign_autostart params) (
      then_assign (assign_minimized params)
        (then_assign (assign_https params) (assign_root params c)))

-- `if (!active) return a; if (!saved) return b; return c;`, and d where an exception is caught.
abbrev pub settle : {A : Type 0} → Reply → Bool → A → A → A → A → A
settle failed saved a b c d = a
settle succeeded false a b c d = b
settle succeeded true a b c d = c
settle thrown saved a b c d = d

-- `what` is the text of the exception that is thrown.
module _ (J : JsonLib) (P : Subsystems) (what : Text) where
  -- The previous settings, and a refresh with them.
  restore : AppConfig → EngineState P → EngineState P × Reply
  unfolding rescan_sites_and_refresh_nginx
  restore previous e =
      let (parts, reply) = rescan_sites_and_refresh_nginx P previous e.parts in
      (record e { config = previous; parts = parts }, reply)

  -- A failure of that refresh is only logged; an exception takes the place of the message.
  abbrev pub restored : Text → Text → EngineState P × Reply → EngineState P × Text
  restored id message (e, reply) =
      let told = response_error J id message in
      (e, by_reply reply told told (response_error J id what))

  announce : EngineState P → EngineState P × Reply
  announce e =
      let watched = P.watch e.config.root_folder e.parts in
      let (parts, reply) = on_success (publish_sites_changed J P) (publish_status J P watched) in
      (record e { parts = parts }, reply)

  -- The events are sent, or one of them throws.
  abbrev pub announced : Text → EngineState P × Reply → EngineState P × Text
  announced id (e, reply) =
      let told = response_ok J id (J.object []) in
      (e, by_reply reply told told (response_error J id what))

  -- The part behind the assignments. An exception of the refresh ends in the handler of
  -- handle_message, which restores nothing.
  activate_settings : Text → AppConfig → EngineState P → EngineState P × Text
  unfolding restore announce response_ok response_error
  activate_settings id previous e =
      let (refreshed, active) = rescan_sites_and_refresh_nginx P e.config e.parts in
      let (stored, saved) = P.save e.config refreshed in
      settle active saved
        (restored id (codes "Could not activate settings; check TLS status and nginx diagnostics")
          (restore previous (record e { parts = refreshed })))
        (restored id (codes "Could not save Appytizer configuration")
          (restore previous (record e { parts = stored })))
        (announced id (announce (record e { parts = stored })))
        (record e { parts = refreshed }, response_error J id what)

  -- An exception of an assignment ends in the handler of handle_message, which restores nothing.
  after_assignments : Text → EngineState P → AppConfig × Bool → EngineState P × Text
  unfolding activate_settings
  after_assignments id e (config, false) = (record e { config = config }, response_error J id what)
  after_assignments id e (config, true) =
      activate_settings id e.config (record e { config = config })

  unfoldable pub config_set : Text → J.Json → EngineState P → EngineState P × Text
  unfolding assign_all after_assignments
  config_set id params e = after_assignments id e (assign_all J params e.config)
