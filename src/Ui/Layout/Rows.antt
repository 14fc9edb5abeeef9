-- ===== src/Ui/Layout/Rows.antt =====
-- What the rows of appytizer-ui/main.cpp keep: an update leaves a row's identifier and position alone.
use appytizer_app_server.Base.{
  ℕ, ◌≡◌, refl, ap, ap₂, ◌∙◌, Bool, List, [], ◌∷◌, map, Option, none, some, Text, codes, text_eq,
  if_both,
}
use appytizer_app_server.Common.Json.{JsonLib}
use appytizer_app_server.Ui.Images.{Icon}
use appytizer_app_server.Ui.Actions.{Effect, Outcome, thrown, returned}
use appytizer_app_server.Ui.Values.{value_text}
use appytizer_app_server.Ui.Triples.{Triple, if_lem, bind_lem, or_throw_lem, pure_from, weaken_lem}
use appytizer_app_server.Ui.Invariant.{
  Keeps, after_keeps, bind-Keeps, pure-Keeps, get-Keeps, or_throw-Keeps, modify-Keeps,
}
use appytizer_app_server.Ui.Rows.{
  ServiceRow, find_installation, location_of, selected_installation, installation_text, texts_in,
  new_menu, has_menu, new_service_row, update, set_disconnected,
}
use appytizer_app_server.Ui.App.{with_row, on_rows}
use appytizer_app_server.Ui.Layout.{frame}

module _ {E : Effect → Type 0} (J : JsonLib) (what : Text) {S : Type 0} {I : S → Type 0} where
  find_installation-Keeps :
      (version : Text) (js : List J.Json) → Keeps E I (find_installation J what {S = S} version js)
  unfolding find_installation
  find_installation-Keeps version [] = pure-Keeps none
  find_installation-Keeps version (j ∷ js) =
      bind-Keeps (or_throw-Keeps what _)
        (λ v. if_lem (text_eq v version) (pure-Keeps (some j)) (find_installation-Keeps version js))

  location_of-Keeps : (o : Option J.Json) → Keeps E I (location_of J what {S = S} o)
  unfolding location_of
  location_of-Keeps none = pure-Keeps _
  location_of-Keeps (some selected) = bind-Keeps (or_throw-Keeps what _) (λ windows_service.
      if_lem windows_service (bind-Keeps (or_throw-Keeps what _) (λ name. pure-Keeps _))
        (or_throw-Keeps what _))

  installation_text-Keeps :
      (id : Text) (installations : J.Json) (version : Text)
      → Keeps E I (installation_text J what {S = S} id installations version)
  unfolding installation_text
  installation_text-Keeps id installations version =
      if_lem (text_eq id (codes "dns")) (pure-Keeps _) (
        bind-Keeps (find_installation-Keeps version (J.elements installations))
          (λ found. location_of-Keeps (selected_installation found (J.elements installations))))

  texts_in-Keeps : (js : List J.Json) → Keeps E I (texts_in J what {S = S} js)
  unfolding texts_in
  texts_in-Keeps [] = pure-Keeps []
  texts_in-Keeps (j ∷ js) =
      bind-Keeps (or_throw-Keeps what _)
        (λ text. bind-Keeps (texts_in-Keeps js) (λ texts. pure-Keeps _))

  new_menu-Keeps :
      (version : Text) (available : Bool) (service : J.Json)
      → Keeps E I (new_menu J what {S = S} version available service)
  unfolding new_menu
  new_menu-Keeps version available service =
      bind-Keeps (or_throw-Keeps what _)
        (λ j. bind-Keeps (texts_in-Keeps (J.elements j)) (λ items. pure-Keeps _))

-- The service whose identifier that is.
abbrev pub IsOf : (J : JsonLib) → Text → J.Json → Type 0
IsOf J id service = value_text J service (codes "id") [] ≡ some id

module _ {E : Effect → Type 0} (J : JsonLib) (what : Text) {S : Type 0} {I : S → Type 0} where
  -- A new row has the identifier of its service, and the position that is given.
  pub new_service_row_lem :
      (y : ℕ) (icon : Option Icon) (service : J.Json)
      → Triple E I
          (new_service_row J what {S = S} y icon service)
          (λ row s. (IsOf J row.id service × (row.y ≡ y)) × I s)
          I
  unfolding new_service_row
  new_service_row_lem y icon service =
      bind_lem (or_throw_lem what (value_text J service (codes "id") [])) (λ id.
        weaken_lem
          (bind_lem (or_throw-Keeps what _) (λ running.
            bind_lem (or_throw-Keeps what _) (λ installations.
              bind_lem (or_throw-Keeps what _) (λ active_version.
                bind_lem (or_throw-Keeps what _) (λ name.
                  bind_lem
                    (if_lem (has_menu id)
                      (bind-Keeps (new_menu-Keeps J what active_version _ service)
                        (λ menu. pure-Keeps _))
                      (pure-Keeps none))
                    (λ versions.
                      bind_lem (installation_text-Keeps J what id installations active_version)
                        (λ installation. pure_from _ (λ s p. ((p.0, refl), p.1)))))))))
          (λ s p. p) (λ row s q. q) (λ s p. p.1))

module _ {E : Effect → Type 0} (J : JsonLib) (what : Text) where
  pub update-Keeps :
      (service : J.Json) (id : Text) (y : ℕ)
      → Keeps E (λ (row : ServiceRow). (row.id ≡ id) × (row.y ≡ y)) (update J what service)
  unfolding update
  update-Keeps service id y = bind-Keeps (or_throw-Keeps what _) (λ running.
      bind-Keeps (modify-Keeps _ (λ s p. p)) (λ u.
        bind-Keeps (or_throw-Keeps what _) (λ installations. bind-Keeps get-Keeps (λ row.
          bind-Keeps (modify-Keeps _ (λ s p. p)) (λ u.
            bind-Keeps (or_throw-Keeps what _) (λ active_version.
              bind-Keeps (modify-Keeps _ (λ s p. p)) (λ u.
                bind-Keeps (installation_text-Keeps J what row.id installations active_version)
                  (λ installation. modify-Keeps _ (λ s p. p)))))))))

frame-with_row :
    (outcome : Outcome Unit) (row : ServiceRow) (rows : List ServiceRow)
    (rest : List ServiceRow × Outcome Unit)
    → frame rest.0 ≡ frame rows
    → frame (with_row outcome row rows rest).0 ≡ (row.id, row.y) ∷ frame rows
frame-with_row (thrown what) row rows rest h = refl
frame-with_row (returned u) row rows rest h = ap (◌∷◌ (row.id, row.y)) h

update-same :
    (J : JsonLib) (what : Text) (service : J.Json) (row : ServiceRow)
    → ((update J what service row).0.id ≡ row.id) × ((update J what service row).0.y ≡ row.y)
update-same J what service row =
    after_keeps (λ (r : ServiceRow). (r.id ≡ row.id) × (r.y ≡ row.y)) (update J what service row).2
      (update J what service row).0
      ((update-Keeps {E = λ effect. Unit} J what service row.id row.y).holds row (refl, refl)).1

-- The rows are updated where they are.
pub frame-on_rows :
    (J : JsonLib) (what asked : Text) (service : J.Json) (rows : List ServiceRow)
    → frame (on_rows asked (update J what service) rows).0 ≡ frame rows
unfolding on_rows
frame-on_rows J what asked service [] = refl
frame-on_rows J what asked service (row ∷ rows) =
    let rest = on_rows asked (update J what service) rows in
    let same = frame-on_rows J what asked service rows in
    let outcome = (update J what service row).2 in
    let updated = (update J what service row).0 in
    let (same_id, same_y) = update-same J what service row in
    if_both (λ (r : List ServiceRow × Outcome Unit). frame r.0 ≡ (row.id, row.y) ∷ frame rows)
      (text_eq row.id asked) (with_row outcome updated rows rest)
      (with_row (returned tt) row rows rest)
      (frame-with_row outcome updated rows rest same
        ∙ ap₂ (λ i y. (i, y) ∷ frame rows) same_id same_y)
      (frame-with_row (returned tt) row rows rest same)

pub frame-disconnected : (rows : List ServiceRow) → frame (map set_disconnected rows) ≡ frame rows
frame-disconnected [] = refl
frame-disconnected (row ∷ rows) = ap (◌∷◌ (row.id, row.y)) (frame-disconnected rows)
