-- ===== src/Ui/Views.antt =====
-- The views of the class App in appytizer-ui/main.cpp: what is done with the Engine's answers.
use appytizer_app_server.Base.{
  ℕ, ◌+◌, Bool, true, false, not, ◌||◌, ◌&&◌, List, [], ◌∷◌, ◌++◌, Option, none, some, Text, codes,
  text_eq, is_empty, if◌then◌else◌, ◌==◌,
}
use appytizer_app_server.Common.Json.{JsonLib}
use appytizer_app_server.Services.Fixed.{decimal}
use appytizer_app_server.Ui.Images.{service_icon, site_icon}
use appytizer_app_server.Ui.Widgets.{label, ready, fault, bullet, dot}
use appytizer_app_server.Ui.Values.{value_number}
use appytizer_app_server.Ui.Actions.{Action, pure, ◌>>=◌, ◌>>◌, get, modify, catch, when, or_throw}
use appytizer_app_server.Ui.Rows.{text_in, boolean_in, new_service_row}
use appytizer_app_server.Ui.SiteRows.{new_site_row, row_height}
use appytizer_app_server.Ui.App.{
  App, Ui, refresh_all, engine_disconnected, services_failed, apply_service_status, require_ok,
  parsed, at,
}

-- A path from a narrow text, and back, in the system's code page: `none` is an exception.
pub record Narrow : Type 0 where
  pub to_path : Text → Option Text
  pub from_path : Text → Option Text

abbrev pub engine_unavailable : Text
engine_unavailable = codes "Engine unavailable"

module _ (J : JsonLib) (what : Text) where
  unfoldable pub find_service : Text → List J.Json → Action App (Option J.Json)
  find_service id [] = pure none
  find_service id (service ∷ services) = do
    found ← text_in J what service (codes "id") []
    if text_eq found id then pure (some service) else find_service id services

  -- The next position, behind the row if there is one.
  unfoldable pub add_row : Text → ℕ → Option J.Json → Action App ℕ
  unfolding new_service_row
  add_row id y none = pure y
  add_row id y (some service) = do
    row ← new_service_row J what y (service_icon id) service
    modify (λ a. record a { service_rows = a.service_rows ++ (row ∷ []) })
    pure (y + 46)

  unfoldable pub add_rows : List J.Json → List Text → ℕ → Action App ℕ
  unfolding find_service add_row
  add_rows services [] y = pure y
  add_rows services (id ∷ ids) y = do
    service ← find_service id services
    next ← add_row id y service
    add_rows services ids next

  -- A title, its rows, and a gap.
  unfoldable pub add_group : List J.Json → List Text → ℕ → Action App ℕ
  unfolding add_rows
  add_group services ids y = do next ← add_rows services ids (y + 26); pure (next + 8)

  unfoldable pub populate_services : J.Json → Ui
  unfolding add_group
  populate_services services = do
    modify (λ a. record a { service_rows = [] })
    routing ← add_group (J.elements services) (codes "dns" ∷ codes "nginx" ∷ []) 150
    runtime ← add_group (J.elements services) (codes "php" ∷ []) routing
    databases ← add_group (J.elements services) (codes "mysql" ∷ codes "postgres" ∷ []) runtime
    pure tt

  unfoldable pub services_answered : Bool → Text → Ui
  unfolding apply_service_status populate_services services_failed
  services_answered rebuild_services response =
      catch
        (do
          document ← parsed J what response
          require_ok J what document engine_unavailable
          services ← at J what document (codes "result")
          apply_service_status J what services
          when rebuild_services (populate_services services))
        (λ error. modify services_failed)

  unfoldable pub add_site : Bool → ℕ → J.Json → Action App ℕ
  unfolding new_site_row
  add_site valid y site = do
    is_valid ← boolean_in J what site (codes "valid") false
    if not is_valid && valid || is_valid && not valid then pure y else (do
      type ← text_in J what site (codes "type") []
      a ← get
      row ← new_site_row J what y a.config.https_enabled (site_icon type) site
      modify (λ b. record b { site_rows = b.site_rows ++ (row ∷ []) })
      pure (y + row_height valid))

  unfoldable pub add_sites : Bool → List J.Json → ℕ → Action App ℕ
  unfolding add_site
  add_sites valid [] y = pure y
  add_sites valid (site ∷ sites) y = do next ← add_site valid y site; add_sites valid sites next

  -- First the sites with an invalid name.
  unfoldable pub populate_sites : J.Json → Ui
  unfolding add_sites
  populate_sites sites = do
    modify (λ a. record a { site_rows = []; sites_empty = is_empty (J.elements sites) })
    if is_empty (J.elements sites) then pure tt else (do
      below ← add_sites false (J.elements sites) 150
      end ← add_sites true (J.elements sites) below
      pure tt)

  unfoldable pub sites_answered : Text → Ui
  unfolding populate_sites
  sites_answered response =
      catch
        (do
          document ← parsed J what response
          ok ← boolean_in J what document (codes "ok") false
          when ok (do sites ← at J what document (codes "result"); populate_sites sites))
        (λ error. pure tt)

  unfoldable pub number_in : J.Json → Text → Action App ℕ
  number_in j key = or_throw what (value_number J j key 0)

  unfoldable pub show_tls : Bool → Text → Text → App → App
  show_tls ready_now text summary a = record a {
    tls_status = label text (if ready_now then ready else fault);
    tls_summary = label summary (if ready_now then ready else fault);
  }

  abbrev expiry_suffix : Text → Text
  expiry_suffix expiry = if is_empty expiry then [] else dot ++ (codes "earliest expiry " ++ expiry)

  unfoldable pub ready_text : J.Json → Action App Text
  unfolding number_in
  ready_text status = do
    count ← number_in status (codes "site_certificate_count")
    expiry ← text_in J what status (codes "earliest_expiry") []
    pure (
        bullet
        ++ (codes "Trusted"
            ++ (dot
                ++ (decimal 10 count ++ (codes " site certificate(s)" ++ expiry_suffix expiry)))))

  unfoldable pub attention_text : J.Json → Action App Text
  attention_text status = do
    error ← text_in J what status (codes "error") (codes "HTTPS trust needs attention")
    pure (bullet ++ error)

  unfoldable pub summary_text : Bool → J.Json → Action App Text
  unfolding number_in
  summary_text false status = pure (bullet ++ codes "HTTPS trust needs attention")
  summary_text true status = do
    count ← number_in status (codes "site_certificate_count")
    pure (bullet ++ (codes "HTTPS trusted" ++ (dot ++ (decimal 10 count ++ codes " certificates"))))

  unfoldable pub tls_failed : Text → App → App
  tls_failed error a = record a {
    tls_status = label (bullet ++ (codes "Certificate status unavailable: " ++ error)) fault;
    tls_summary = label (bullet ++ codes "HTTPS status unavailable") fault;
  }

  unfoldable pub tls_answered : Text → Ui
  unfolding show_tls ready_text attention_text summary_text tls_failed
  tls_answered response =
      catch
        (do
          document ← parsed J what response
          require_ok J what document engine_unavailable
          status ← at J what document (codes "result")
          is_ready ← boolean_in J what status (codes "ready") false
          text ← (if is_ready then ready_text status else attention_text status)
          summary ← summary_text is_ready status
          modify (show_tls is_ready text summary))
        (λ error. modify (tls_failed error))

  unfoldable pub handle_event : Text → Ui
  unfolding refresh_all engine_disconnected apply_service_status populate_sites
  handle_event event =
      catch
        (do
          document ← parsed J what event
          type ← text_in J what document (codes "event") []
          a ← get
          if text_eq type (codes "engine.connected")
              then refresh_all
              else if text_eq type (codes "engine.disconnected")
              then modify engine_disconnected
              else if text_eq type (codes "status.update")
              then (do
                services ← at J what document (codes "services")
                apply_service_status J what services)
              else if text_eq type (codes "sites.changed") && (a.active_view == 0)
              then (do sites ← at J what document (codes "sites"); populate_sites sites)
              else pure tt)
        (λ error. pure tt)
