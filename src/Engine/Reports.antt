-- ===== src/Engine/Reports.antt =====
-- The JSON that the Engine reports, and its two events: engine/engine.cpp, and to_json of
-- engine/tls/certificate_manager.cpp.
use appytizer_app_server.Base.{◌*◌, ◌/◌, List, [], ◌∷◌, map, Text, codes, if◌then◌else◌}
use appytizer_app_server.Common.Json.{JsonLib}
use appytizer_app_server.Dns.{site_suffix}
use appytizer_app_server.Sites.Registry.{Site}
use appytizer_app_server.Services.Provider.{InstalledVersion, ServiceStatus}
use appytizer_app_server.Tls.Disk.{Reply, succeeded, thrown}
use appytizer_app_server.Tls.Status.{TlsStatus}
use appytizer_app_server.Engine.Subsystems.{Subsystems}

module _ (J : JsonLib) where
  abbrev pub site_json : Site → J.Json
  site_json site = J.object (
      (codes "name", J.string site.name)
      ∷ (codes "hostname", J.string site.hostname)
      ∷ (codes "path", J.string site.path)
      ∷ (codes "type", J.string site.type)
      ∷ (codes "has_index", J.boolean site.has_index)
      ∷ (codes "valid", J.boolean site.valid)
      ∷ (codes "error", J.string site.error)
      ∷ [])

  abbrev pub sites_json : List Site → J.Json
  sites_json sites = J.array (map site_json sites)

  abbrev pub tls_status_json : TlsStatus → J.Json
  tls_status_json status = J.object (
      (codes "ready", J.boolean status.ready)
      ∷ (codes "trusted", J.boolean status.trusted)
      ∷ (codes "site_certificate_count", J.number status.site_certificate_count)
      ∷ (codes "earliest_expiry", J.string status.earliest_expiry)
      ∷ (codes "error", J.string status.error)
      ∷ [])

  abbrev installation_json : InstalledVersion → J.Json
  installation_json version = J.object (
      (codes "version", J.string version.version_label)
      ∷ (codes "path", J.string version.executable_path)
      ∷ (codes "windows_service", J.boolean version.is_windows_service)
      ∷ (codes "service_name", J.string version.windows_service_name)
      ∷ [])

  abbrev service_json : Text → Text → ServiceStatus → List InstalledVersion → J.Json
  service_json id name status versions = J.object (
      (codes "id", J.string id)
      ∷ (codes "name", J.string name)
      ∷ (codes "running", J.boolean status.running)
      ∷ (codes "version", J.string status.active_version)
      ∷ (codes "ram_mb", J.number (status.working_set_bytes / (1024 * 1024)))
      ∷ (
        codes "available_versions",
        J.array (map (λ (v : InstalledVersion). J.string v.version_label) versions),
      )
      ∷ (codes "installations", J.array (map installation_json versions))
      ∷ [])

module _ (J : JsonLib) (P : Subsystems) where
  abbrev engine_status : P.State → ServiceStatus
  engine_status s = record {
    running = P.dns_running s;
    active_version = site_suffix;
    process_ids = [];
    working_set_bytes = 0;
  }

  -- The Engine itself, and then each provider.
  abbrev pub service_list : P.State → J.Json
  service_list s = J.array (
      service_json J (codes "dns") (codes "Appytizer Engine") (engine_status s) []
      ∷ map
          (λ id. service_json J id (P.display_name id s) (P.service_status id s) (P.versions id s))
          (P.all s))

  -- Nothing is sent where the event cannot be written.
  abbrev pub send_event : J.Json → P.State → P.State × Reply
  send_event event s =
      if J.can_dump event then (P.broadcast (J.dump event) s, succeeded) else (s, thrown)

  abbrev pub publish_status : P.State → P.State × Reply
  publish_status s =
      send_event
        (J.object (
          (codes "event", J.string (codes "status.update"))
          ∷ (codes "services", service_list s)
          ∷ []))
        s

  abbrev pub publish_sites_changed : P.State → P.State × Reply
  publish_sites_changed s =
      send_event
        (J.object (
          (codes "event", J.string (codes "sites.changed"))
          ∷ (codes "sites", sites_json J (P.list s))
          ∷ []))
        s
