-- ===== src/Engine/Lifecycle.antt =====
-- Engine::start, Engine::stop and start_default_services in engine/engine.cpp.
use appytizer_app_server.Base.{
  Bool, true, false, not, ◌||◌, List, [], ◌∷◌, Option, none, some, Text, codes, is_empty,
  if◌then◌else◌,
}
use appytizer_app_server.Common.Json.{JsonLib}
use appytizer_app_server.Common.Config.{AppConfig}
use appytizer_app_server.Engine.Subsystems.{Subsystems, by_reply}
use appytizer_app_server.Tls.Disk.{Reply, succeeded, thrown}
use appytizer_app_server.Engine.Nginx.{has_service, rescan_sites_and_refresh_nginx}
use appytizer_app_server.Engine.Reports.{publish_status, publish_sites_changed}
use appytizer_app_server.Engine.Settings.{EngineState}
use appytizer_app_server.Engine.Messages.{stop_services}
pub mod Runs

-- PHP listens before nginx serves.
abbrev pub default_services : List Text
default_services = codes "php" ∷ codes "nginx" ∷ []

module _ (J : JsonLib) (P : Subsystems) where
  start_default_service : Text → P.State → P.State
  start_default_service id s =
      if not (has_service P id s) || is_empty (P.versions id s)
      then s
      else if (P.service_status id s).running
      then s
      else (P.start_service id [] s).0

  start_default_services : List Text → P.State → P.State
  unfolding start_default_service
  start_default_services [] s = s
  start_default_services (id ∷ ids) s = start_default_services ids (start_default_service id s)

  -- What start does before the Engine runs, and whether an exception ends it; failures are logged only.
  bring_up : AppConfig → P.State → P.State × Bool
  unfolding start_default_services rescan_sites_and_refresh_nginx
  bring_up config s =
      let (refreshed, reply) = rescan_sites_and_refresh_nginx P config (P.detect_all s) in
      let up = P.ipc_start (P.dns_start (start_default_services default_services refreshed)).0 in
      by_reply reply (up, false) (up, false) (refreshed, true)

  -- An exception leaves the call.
  unfoldable pub start : EngineState P → EngineState P × Reply
  unfolding bring_up
  start e =
      let (up, throws) = bring_up e.config e.parts in
      let (told, sent) = publish_status J P (P.watch e.config.root_folder up) in
      if e.running
      then (e, succeeded)
      else if throws
      then (record e { parts = up }, thrown)
      else (record e { running = true; parts = told }, sent)

  unfoldable pub stop : EngineState P → EngineState P
  unfolding stop_services
  stop e =
      let down = P.dns_stop (P.ipc_stop (P.watcher_stop e.parts)) in
      if not e.running
      then e
      else record e { running = false; parts = stop_services P (P.all down) down }

  -- The callback that the watcher is given. An exception leaves its thread, and with that the program
  -- ends: `none`.
  unfoldable pub folder_changed : EngineState P → Option (EngineState P)
  unfolding rescan_sites_and_refresh_nginx
  folder_changed e =
      let (s, reply) = rescan_sites_and_refresh_nginx P e.config e.parts in
      let (told, sent) = publish_sites_changed J P s in
      let after : Option (EngineState P) = some (record e { parts = told }) in
      if not e.running
      then some e
      else by_reply reply (by_reply sent after after none) (some (record e { parts = s })) none
