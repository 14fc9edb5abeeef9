-- ===== src/Ui/Layout/Viewed.antt =====
-- The callbacks of appytizer-ui/main.cpp that show sites, certificates and events keep the rows of the services in their places, and asks the
-- Engine only for what it serves.
use appytizer_app_server.Base.{
  ℕ, Bool, true, false, not, ◌||◌, ◌&&◌, List, [], ◌∷◌, Option, none, some, Text, codes, text_eq,
  is_empty, ◌==◌,
}
use appytizer_app_server.Common.Json.{JsonLib}
use appytizer_app_server.Ui.Images.{Icon, site_icon}
use appytizer_app_server.Ui.Triples.{if_lem}
use appytizer_app_server.Ui.Invariant.{
  bind-Keeps, pure-Keeps, get-Keeps, or_throw-Keeps, modify-Keeps, catch-Keeps, when-Keeps,
}
use appytizer_app_server.Ui.SiteRows.{new_site_row, tooltip_of, body_of}
use appytizer_app_server.Ui.App
use appytizer_app_server.Ui.App.{App, Ui}
use appytizer_app_server.Ui.Views.{
  add_site, add_sites, populate_sites, sites_answered, number_in, ready_text, attention_text,
  summary_text, tls_answered, show_tls, tls_failed, handle_event,
}
use appytizer_app_server.Ui.Layout.Kept.{
  Good, refresh_all-Good, disconnect_rows-InPlace, apply_service_status-Good, result-Good,
}

module _ (J : JsonLib) (what : Text) where
  body_of-Good :
      (valid : Bool) (icon : Option Icon) (site : J.Json) → Good (body_of J what valid icon site)
  unfolding body_of
  body_of-Good false icon site = bind-Keeps (or_throw-Keeps what _) (λ error. pure-Keeps _)
  body_of-Good true none site = pure-Keeps _
  body_of-Good true (some icon) site = bind-Keeps (or_throw-Keeps what _) (λ type. pure-Keeps _)

  summary_text-Good : (ready : Bool) (status : J.Json) → Good (summary_text J what ready status)
  unfolding summary_text number_in
  summary_text-Good false status = pure-Keeps _
  summary_text-Good true status = bind-Keeps (or_throw-Keeps what _) (λ count. pure-Keeps _)

  new_site_row-Good :
      (y : ℕ) (https : Bool) (icon : Option Icon) (site : J.Json)
      → Good (new_site_row J what y https icon site)
  unfolding new_site_row tooltip_of body_of
  new_site_row-Good y https icon site = bind-Keeps (or_throw-Keeps what _) (λ valid.
      bind-Keeps (or_throw-Keeps what _) (λ hostname.
        bind-Keeps (or_throw-Keeps what _) (λ has_index.
          bind-Keeps
            (if_lem (not valid) (or_throw-Keeps what _)
              (if_lem (not has_index) (pure-Keeps _) (pure-Keeps _)))
            (λ tooltip.
              bind-Keeps (or_throw-Keeps what _)
                (λ name. bind-Keeps (body_of-Good valid icon site) (λ body. pure-Keeps _))))))

  add_sites-Good :
      (valid : Bool) (sites : List J.Json) (y : ℕ) → Good (add_sites J what valid sites y)
  unfolding add_sites add_site
  add_sites-Good valid [] y = pure-Keeps y
  add_sites-Good valid (site ∷ sites) y =
      bind-Keeps
        (bind-Keeps (or_throw-Keeps what _) (λ is_valid.
          if_lem (not is_valid && valid || is_valid && not valid) (pure-Keeps y) (
            bind-Keeps (or_throw-Keeps what _) (λ type. bind-Keeps get-Keeps (λ a.
              bind-Keeps (new_site_row-Good y a.config.https_enabled (site_icon type) site)
                (λ row. bind-Keeps (modify-Keeps _ (λ b p. p)) (λ u. pure-Keeps _)))))))
        (λ next. add_sites-Good valid sites next)

  populate_sites-Good : (sites : J.Json) → Good (populate_sites J what sites)
  unfolding populate_sites
  populate_sites-Good sites = bind-Keeps (modify-Keeps _ (λ a p. p)) (λ u.
      if_lem (is_empty (J.elements sites)) (pure-Keeps tt) (
        bind-Keeps (add_sites-Good false (J.elements sites) 150) (λ below.
          bind-Keeps (add_sites-Good true (J.elements sites) below) (λ end. pure-Keeps tt))))

  pub sites_answered-Good : (response : Text) → Good (sites_answered J what response)
  unfolding sites_answered
  sites_answered-Good response =
      catch-Keeps
        (bind-Keeps (or_throw-Keeps what _) (λ document.
          bind-Keeps (or_throw-Keeps what _)
            (λ ok. when-Keeps ok (bind-Keeps (or_throw-Keeps what _) populate_sites-Good))))
        (λ error. pure-Keeps tt)

  pub tls_answered-Good : (response : Text) → Good (tls_answered J what response)
  unfolding tls_answered show_tls tls_failed ready_text attention_text number_in
  tls_answered-Good response =
      catch-Keeps
        (result-Good J what response _ (λ status. bind-Keeps (or_throw-Keeps what _) (λ is_ready.
          bind-Keeps
            (if_lem is_ready
              (bind-Keeps (or_throw-Keeps what _)
                (λ count. bind-Keeps (or_throw-Keeps what _) (λ expiry. pure-Keeps _)))
              (bind-Keeps (or_throw-Keeps what _) (λ error. pure-Keeps _)))
            (λ text.
              bind-Keeps (summary_text-Good is_ready status)
                (λ summary. modify-Keeps (show_tls J what is_ready text summary) (λ a p. p))))))
        (λ error. modify-Keeps (tls_failed J what error) (λ a p. p))

  pub handle_event-Good : (event : Text) → Good (handle_event J what event)
  unfolding handle_event App.engine_disconnected
  handle_event-Good event =
      catch-Keeps
        (bind-Keeps (or_throw-Keeps what _) (λ document. bind-Keeps (or_throw-Keeps what _) (λ type.
          bind-Keeps get-Keeps (λ a.
            if_lem (text_eq type (codes "engine.connected")) refresh_all-Good (
              if_lem (text_eq type (codes "engine.disconnected"))
                (modify-Keeps App.engine_disconnected (λ a p. disconnect_rows-InPlace a p))
                (if_lem (text_eq type (codes "status.update"))
                  (bind-Keeps (or_throw-Keeps what _) (apply_service_status-Good J what))
                  (if_lem (text_eq type (codes "sites.changed") && (a.active_view == 0))
                    (bind-Keeps (or_throw-Keeps what _) populate_sites-Good) (pure-Keeps tt))))))))
        (λ error. pure-Keeps tt)
