-- ===== src/Ui/Layout/Kept.antt =====
-- Every callback of appytizer-ui/main.cpp keeps the rows of the services in their places, and asks the
-- Engine only for what it serves.
use appytizer_app_server.Base.{
  ℕ, ◌≡◌, refl, sym, subst, Bool, true, not, List, map, Option, none, some, arith, Text, codes,
  ◌==◌,
}
use appytizer_app_server.Common.Json.{JsonLib}
use appytizer_app_server.Ui.Actions.{Continuation, request, Action, ◌>>=◌, ◌>>◌}
use appytizer_app_server.Ui.Triples.{if_lem}
use appytizer_app_server.Ui.Invariant.{
  Keeps, bind-Keeps, pure-Keeps, get-Keeps, throw-Keeps, or_throw-Keeps, modify-Keeps, ask-Keeps,
  catch-Keeps, when-Keeps, for_each-Keeps, After-from,
}
use appytizer_app_server.Ui.Rows.{ServiceRow, update, set_disconnected}
use appytizer_app_server.Ui.App
use appytizer_app_server.Ui.App.{App, Ui}
use appytizer_app_server.Ui.Views.{services_answered}
use appytizer_app_server.Ui.Layout.{
  frame, ids, IsLaidOut, is_sublist, service_order, InPlace, IsServed, is_served,
}
use appytizer_app_server.Ui.Layout.Rows.{frame-on_rows, frame-disconnected}
use appytizer_app_server.Ui.Layout.Populated.{populate_services_lem}

abbrev pub RowsInPlace : App → Type 0
RowsInPlace a = InPlace a.service_rows

abbrev pub Good : {A : Type 0} → Action App A → Type 0
Good action = Keeps IsServed RowsInPlace action

pub send-Good :
    (command : Text) (continuation : Continuation)
    → is_served (request command (codes "{}") continuation) ≡ true
    → Good (App.send command continuation)
send-Good command continuation served = ask-Keeps _ served

pub refresh_tls-Good : Good App.refresh_tls
unfolding App.refresh_tls App.https_disabled is_served
refresh_tls-Good = bind-Keeps get-Keeps (λ a.
    if_lem (not a.config.https_enabled) (modify-Keeps App.https_disabled (λ b p. p))
      (ask-Keeps _ refl))

pub refresh_all-Good : Good App.refresh_all
unfolding App.refresh_all is_served
refresh_all-Good =
    bind-Keeps (ask-Keeps _ refl) (λ u. bind-Keeps (ask-Keeps _ refl) (λ u. refresh_tls-Good))

pub show_view-Good : (index : ℕ) → Good (App.show_view index)
unfolding App.show_view is_served
show_view-Good index = bind-Keeps (modify-Keeps _ (λ a p. p)) (λ u.
    if_lem (index == 0) (ask-Keeps _ refl) (
      if_lem (index == 1) (ask-Keeps _ refl) (
        if_lem (index == 2) (bind-Keeps (ask-Keeps _ refl) (λ u. refresh_tls-Good))
          (pure-Keeps tt))))

-- The rows may change as long as their frame does not.
InPlace-frame :
    (rows rows' : List ServiceRow) → frame rows' ≡ frame rows → InPlace rows → InPlace rows'
unfolding InPlace
InPlace-frame rows rows' same (bottom, laid, listed) = (
  bottom,
  subst (λ f. IsLaidOut 150 f bottom) (sym same) laid,
  subst (λ f. is_sublist (ids f) service_order ≡ true) (sym same) listed,
)

pub disconnect_rows-InPlace : (a : App) → RowsInPlace a → RowsInPlace (App.disconnect_rows a)
disconnect_rows-InPlace a p =
    InPlace-frame a.service_rows (map set_disconnected a.service_rows)
      (frame-disconnected a.service_rows) p

show_running-rows :
    (id : Text) (running : Bool) (a : App)
    → (App.show_running id running a).service_rows ≡ a.service_rows
unfolding App.show_running
show_running-rows id running a = ground arith

module _ (J : JsonLib) (what : Text) where
  update_rows-Good :
      (id : Text) (service : J.Json) → Good (App.update_rows id (update J what service))
  unfolding App.update_rows
  update_rows-Good id service = record {
    holds = λ a p.
        let updated = App.on_rows id (update J what service) a.service_rows in
        let same = frame-on_rows J what id service a.service_rows in
        (
          tt,
          After-from RowsInPlace updated.1 (record a { service_rows = updated.0 })
              (InPlace-frame a.service_rows updated.0 same p),
        );
  }

  apply_service-Good : (service : J.Json) → Good (App.apply_service J what service)
  unfolding App.apply_service
  apply_service-Good service = bind-Keeps (or_throw-Keeps what _) (λ id.
      bind-Keeps (or_throw-Keeps what _) (λ running.
        bind-Keeps
          (modify-Keeps (App.show_running id running)
            (λ a p. rw (show_running-rows id running a) p))
          (λ u. update_rows-Good id service)))

  pub apply_service_status-Good :
      (services : J.Json) → Good (App.apply_service_status J what services)
  unfolding App.apply_service_status App.set_engine_text App.set_engine_color
  apply_service_status-Good services = bind-Keeps (modify-Keeps _ (λ a p. p)) (λ u.
      bind-Keeps (for_each-Keeps (J.elements services) apply_service-Good)
        (λ u. modify-Keeps _ (λ a p. p)))

  apply_result-Good : (result : Option J.Json) → Good (App.apply_result J what result)
  apply_result-Good none = pure-Keeps tt
  apply_result-Good (some result) =
      when-Keeps (J.is_array result) (apply_service_status-Good result)

  pub require_ok-Good :
      (document : J.Json) (default : Text) → Good (App.require_ok J what document default)
  require_ok-Good document default = bind-Keeps (or_throw-Keeps what _) (λ ok.
      if_lem ok (pure-Keeps tt) (bind-Keeps (or_throw-Keeps what _) (λ error. throw-Keeps error)))

  -- `try { document = parse(response); require ok; result = at("result"); body } catch ...`
  pub result-Good :
      (response default : Text) {body : J.Json → Ui}
      → ((result : J.Json) → Good (body result))
      → Good (
          ◌>>=◌ (App.parsed J what response) (λ document.
            ◌>>◌
              (App.require_ok J what document default)
              (◌>>=◌ (App.at J what document (codes "result")) body)))
  result-Good response default t = bind-Keeps (or_throw-Keeps what _) (λ document.
      bind-Keeps (require_ok-Good document default) (λ u. bind-Keeps (or_throw-Keeps what _) t))

  pub apply_command_state-Good : (response : Text) → Good (App.apply_command_state J what response)
  unfolding App.apply_command_state
  apply_command_state-Good response =
      catch-Keeps
        (bind-Keeps (or_throw-Keeps what _) (λ document.
          bind-Keeps (or_throw-Keeps what _)
            (λ ok. when-Keeps ok (apply_result-Good (J.field document (codes "result"))))))
        (λ error. pure-Keeps tt)

  pub services_answered-Good :
      (rebuild : Bool) (response : Text) → Good (services_answered J what rebuild response)
  unfolding services_answered App.services_failed
  services_answered-Good rebuild response =
      catch-Keeps
        (result-Good response _ (λ services.
          bind-Keeps (apply_service_status-Good services)
            (λ u. when-Keeps rebuild (populate_services_lem J what services))))
        (λ error. modify-Keeps _ disconnect_rows-InPlace)
