-- ===== src/Ui/Layout/Populated.antt =====
-- populate_services in appytizer-ui/main.cpp puts the rows in their places.
use appytizer_app_server.Base.{
  ℕ, ◌+◌, ◌≤◌, ◌≡◌, refl, sym, ap, ap₂, subst, ◌∙◌, inl, inr, true, List, [], ◌∷◌, ◌++◌,
  append_assoc, Option, none, some, arith, Bool-cases, Text, codes, text_eq, text_eq_iff,
}
use appytizer_app_server.Common.Json.{JsonLib}
use appytizer_app_server.Ui.Images.{service_icon}
use appytizer_app_server.Ui.Actions.{Effect}
use appytizer_app_server.Ui.Values.{value_text}
use appytizer_app_server.Ui.Triples.{
  Triple, modify_lem, bind_lem, or_throw_lem, pure_from, weaken_lem,
}
use appytizer_app_server.Ui.Rows.{ServiceRow}
use appytizer_app_server.Ui.App.{App}
use appytizer_app_server.Ui.Views.{find_service, add_row, add_rows, add_group, populate_services}
use appytizer_app_server.Ui.Layout.{
  frame, ids, IsLaidOut, IsLaidOut-append, IsLaidOut-below, is_sublist, is_sublist-append,
  is_sublist-append_both, service_order, InPlace,
}
use appytizer_app_server.Ui.Layout.Rows.{IsOf, new_service_row_lem}

-- The rows end at the position, and the services are among those that are done.
unfoldable pub Reached : List Text → ℕ → App → Type 0
unfolding IsLaidOut
Reached finished y a =
    IsLaidOut 150 (frame a.service_rows) y
    × (is_sublist (ids (frame a.service_rows)) finished ≡ true)

frame-append :
    (rows : List ServiceRow) (row : ServiceRow)
    → frame (rows ++ (row ∷ [])) ≡ frame rows ++ ((row.id, row.y) ∷ [])
frame-append [] row = refl
frame-append (first ∷ rows) row = ap (◌∷◌ (first.id, first.y)) (frame-append rows row)

ids-append :
    (rows : List (Text × ℕ)) (id : Text) (y : ℕ)
    → ids (rows ++ ((id, y) ∷ [])) ≡ ids rows ++ (id ∷ [])
ids-append [] id y = refl
ids-append ((first, at) ∷ rows) id y = ap (◌∷◌ first) (ids-append rows id y)

-- A row for the next service, at the position reached.
Reached-row :
    (finished : List Text) (id : Text) (y : ℕ) (a : App) (row : ServiceRow)
    → row.id ≡ id
    → row.y ≡ y
    → Reached finished y a
    → Reached
        (finished ++ (id ∷ []))
        (y + 46)
        (record a { service_rows = a.service_rows ++ (row ∷ []) })
unfolding Reached
Reached-row finished id y a row same_id same_y (laid, listed) =
    let rows = frame a.service_rows in
    let added : frame (a.service_rows ++ (row ∷ [])) ≡ rows ++ ((id, y) ∷ []) =
      frame-append a.service_rows row ∙ ap₂ (λ i z. rows ++ ((i, z) ∷ [])) same_id same_y in
    (
      subst (λ r. IsLaidOut 150 r (y + 46)) (sym added) (IsLaidOut-append rows id 150 y laid),
      subst (λ r. is_sublist (ids r) (finished ++ (id ∷ [])) ≡ true) (sym added)
          (subst (λ r. is_sublist r (finished ++ (id ∷ [])) ≡ true) (sym (ids-append rows id y))
            (is_sublist-append_both (ids rows) finished id listed)),
    )

Reached-more :
    (finished more : List Text) (y z : ℕ) (a : App)
    → y ≤ z
    → Reached finished y a
    → Reached (finished ++ more) z a
unfolding Reached
Reached-more finished more y z a below (laid, listed) = (
  IsLaidOut-below (frame a.service_rows) 150 y z below laid,
  is_sublist-append (ids (frame a.service_rows)) finished more listed,
)

Reached-InPlace :
    (finished more : List Text) (y : ℕ) (a : App)
    → finished ++ more ≡ service_order
    → Reached finished y a
    → InPlace a.service_rows
unfolding Reached InPlace
Reached-InPlace finished more y a split (laid, listed) = (
  y,
  laid,
  subst (λ order. is_sublist (ids (frame a.service_rows)) order ≡ true) split
      (is_sublist-append (ids (frame a.service_rows)) finished more listed),
)

none-Reached : (a : App) → Reached [] 150 (record a { service_rows = [] })
unfolding Reached IsLaidOut
none-Reached a = (omega arith, refl)

Reached-below :
    (finished : List Text) (y z : ℕ) (a : App) → y ≤ z → Reached finished y a → Reached finished z a
unfolding Reached
Reached-below finished y z a below (laid, listed) =
    (IsLaidOut-below (frame a.service_rows) 150 y z below laid, listed)

-- A service that is found has the identifier.
OfAsked : (J : JsonLib) → Text → Option J.Json → Type 0
OfAsked J id none = Unit
OfAsked J id (some service) = IsOf J id service

same_id :
    (J : JsonLib) (id found : Text) (service : J.Json)
    → IsOf J id service
    → IsOf J found service
    → found ≡ id
same_id J id found service h k = ground (arith, sym h ∙ k)

module _ {E : Effect → Type 0} (J : JsonLib) (what : Text) where
  find_service_lem :
      {I : App → Type 0} (id : Text) (services : List J.Json)
      → Triple E I (find_service J what id services) (λ found a. OfAsked J id found × I a) I
  unfolding find_service OfAsked
  find_service_lem id [] = pure_from none (λ a p. (tt, p))
  find_service_lem id (service ∷ services) =
      bind_lem (or_throw_lem what (value_text J service (codes "id") [])) (λ found.
        elim (Bool-cases (text_eq found id)) [
          | inl e ↦
              rw e (
                pure_from (some service) (λ a p. (p.0 ∙ ap some ((text_eq_iff found id).0 e), p.1)))
          | inr e ↦
              rw e
                (weaken_lem (find_service_lem id services) (λ a p. p.1) (λ found a q. q) (λ a r. r))
        ])

  add_row_lem :
      (finished more : List Text) (id : Text) (y : ℕ) (found : Option J.Json)
      → finished ++ (id ∷ more) ≡ service_order
      → Triple E
          (λ a. OfAsked J id found × Reached finished y a)
          (add_row J what id y found)
          (λ next a. Reached (finished ++ (id ∷ [])) next a)
          (λ a. InPlace a.service_rows)
  unfolding add_row OfAsked
  add_row_lem finished more id y none split =
      pure_from y (λ a p. Reached-more finished (id ∷ []) y y a (omega arith) p.1)
  add_row_lem finished more id y (some service) split =
      bind_lem
        (weaken_lem
          (new_service_row_lem J what {I = λ a. IsOf J id service × Reached finished y a} y
            (service_icon id) service)
          (λ a p. p) (λ row a q. q) (λ a p. Reached-InPlace finished (id ∷ more) y a split p.1))
        (λ row.
          bind_lem
            (modify_lem {Q = λ u a. Reached (finished ++ (id ∷ [])) (y + 46) a} _ (λ a p.
              Reached-row finished id y a row (same_id J id row.id service p.1.0 p.0.0) p.0.1
                p.1.1))
            (λ u. pure_from (y + 46) (λ a p. p)))

  add_rows_lem :
      (finished ids more : List Text) (y : ℕ) (services : List J.Json)
      → finished ++ (ids ++ more) ≡ service_order
      → Triple E
          (Reached finished y)
          (add_rows J what services ids y)
          (λ next a. Reached (finished ++ ids) next a)
          (λ a. InPlace a.service_rows)
  unfolding add_rows
  add_rows_lem finished [] more y services split =
      pure_from y (λ a p. Reached-more finished [] y y a (omega arith) p)
  add_rows_lem finished (id ∷ ids) more y services split =
      bind_lem
        (weaken_lem (find_service_lem {I = Reached finished y} id services) (λ a p. p)
          (λ found a q. q) (λ a p. Reached-InPlace finished (id ∷ (ids ++ more)) y a split p))
        (λ found. bind_lem (add_row_lem finished (ids ++ more) id y found split) (λ next.
          weaken_lem
            (add_rows_lem (finished ++ (id ∷ [])) ids more next services
              (append_assoc finished (id ∷ []) (ids ++ more) ∙ split))
            (λ a p. p)
            (λ end a q. subst (λ f. Reached f end a) (append_assoc finished (id ∷ []) ids) q)
            (λ a r. r)))

  add_group_lem :
      (finished ids more : List Text) (y : ℕ) (services : List J.Json)
      → finished ++ (ids ++ more) ≡ service_order
      → Triple E
          (Reached finished y)
          (add_group J what services ids y)
          (λ next a. Reached (finished ++ ids) next a)
          (λ a. InPlace a.service_rows)
  unfolding add_group
  add_group_lem finished ids more y services split =
      bind_lem
        (weaken_lem (add_rows_lem finished ids more (y + 26) services split)
          (λ a p. Reached-below finished y (y + 26) a (omega arith) p) (λ next a q. q) (λ a r. r))
        (λ next.
          pure_from (next + 8)
            (λ a p. Reached-below (finished ++ ids) next (next + 8) a (omega arith) p))

  -- Whatever the rows were, they are in their places then, also where it throws.
  pub populate_services_lem :
      {I : App → Type 0} (services : J.Json)
      → Triple E I
          (populate_services J what services)
          (λ u a. InPlace a.service_rows)
          (λ a. InPlace a.service_rows)
  unfolding populate_services
  populate_services_lem services =
      let js = J.elements services in
      let routing : List Text = codes "dns" ∷ codes "nginx" ∷ [] in
      let databases : List Text = codes "mysql" ∷ codes "postgres" ∷ [] in
      bind_lem (modify_lem {Q = λ u a. Reached [] 150 a} _ (λ a p. none-Reached a)) (λ u.
        bind_lem (add_group_lem [] routing (codes "php" ∷ databases) 150 js refl) (λ y.
          bind_lem (add_group_lem routing (codes "php" ∷ []) databases y js refl) (λ z.
            bind_lem (add_group_lem (routing ++ (codes "php" ∷ [])) databases [] z js refl)
              (λ end. pure_from tt (λ a p. Reached-InPlace service_order [] end a refl p)))))
