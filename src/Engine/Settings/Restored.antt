-- ===== src/Engine/Settings/Restored.antt =====
-- The settings after config.set.
use appytizer_app_server.Base.{
  ◌≡◌, refl, ap, sym, subst, ◌∙◌, ◌⊎◌, inl, inr, Bool, true, false, Option, none, some, Text, codes,
  [],
}
use appytizer_app_server.Common.Json.{JsonLib}
use appytizer_app_server.Common.Config.{AppConfig}
use appytizer_app_server.Common.Protocol.{response_ok, response_error}
use appytizer_app_server.Engine.Subsystems.{Subsystems, by_reply}
use appytizer_app_server.Tls.Disk.{Reply, succeeded, failed, thrown}
use appytizer_app_server.Engine.Nginx.{rescan_sites_and_refresh_nginx}
use appytizer_app_server.Engine.Settings.{
  EngineState, assign, then_assign, assign_root, assign_https, assign_minimized, assign_autostart,
  assign_all, restore, restored, announced, settle, announce, activate_settings, after_assignments,
  store, config_set,
}

settle-elim :
    {A : Type 0} (Q : A → Type 0) (reply : Reply) (saved : Bool) (a b c d : A)
    → Q a
    → Q b
    → (reply ≡ succeeded → saved ≡ true → Q c)
    → (reply ≡ thrown → Q d)
    → Q (settle reply saved a b c d)
settle-elim Q failed saved a b c d x y z t = x
settle-elim Q succeeded false a b c d x y z t = y
settle-elim Q succeeded true a b c d x y z t = z refl refl
settle-elim Q thrown saved a b c d x y z t = t refl

by_reply-same :
    {A : Type 0} (reply : Reply) (a b : A) → (by_reply reply a a b ≡ a) ⊎ (by_reply reply a a b ≡ b)
by_reply-same succeeded a b = inl refl
by_reply-same failed a b = inl refl
by_reply-same thrown a b = inr refl

pub assign-store :
    {J V : Type 0} (convert : J → Option V) (change : V → AppConfig → AppConfig) (found : Option J)
    (j : J) (converted : Option V) (c : AppConfig)
    → found ≡ some j
    → convert j ≡ converted
    → assign convert change found c ≡ store change converted c
assign-store convert change found j converted c p q =
    ap (λ o. assign convert change o c) p ∙ ap (λ r. store change r c) q

assign_all-stopped :
    (J : JsonLib) (params root_json https_json : J.Json) (root : Text) (c : AppConfig)
    → J.field params (codes "root_folder") ≡ some root_json
    → J.as_string root_json ≡ some root
    → J.field params (codes "https_enabled") ≡ some https_json
    → J.as_boolean https_json ≡ none
    → assign_all J params c ≡ (record c { root_folder = root }, false)
unfolding assign_all assign_root assign_https
assign_all-stopped J params root_json https_json root c a b d e =
    let c' : AppConfig = record c { root_folder = root } in
    let first : assign_root J params c ≡ (c', true) =
      assign-store J.as_string (λ v c. record c { root_folder = v })
        (J.field params (codes "root_folder")) root_json (some root) c a b in
    let second : assign_https J params c' ≡ (c', false) =
      assign-store J.as_boolean (λ v c. record c { https_enabled = v })
        (J.field params (codes "https_enabled")) https_json none c' d e in
    ap
      (λ r.
        then_assign (assign_autostart J params)
          (then_assign (assign_minimized J params) (then_assign (assign_https J params) r)))
      first
    ∙ ap (λ r. then_assign (assign_autostart J params) (then_assign (assign_minimized J params) r))
        second

module _ (J : JsonLib) (P : Subsystems) (what : Text) where
  -- The previous settings, with the message of the step that failed, or an exception of the refresh
  -- that follows it.
  abbrev pub Restored : Text → AppConfig → EngineState P × Text → Type 0
  Restored id previous (after, reply) =
      (after.config ≡ previous)
      × ((reply
            ≡ response_error J id
                (codes "Could not activate settings; check TLS status and nginx diagnostics"))
          ⊎ (reply ≡ response_error J id (codes "Could not save Appytizer configuration"))
          ⊎ (reply ≡ response_error J id what))

  -- The new settings with a positive reply; the previous ones with an error; or the new ones with an
  -- exception, where the refresh throws, with what that left of the parts, or where the settings are
  -- activated and saved and one of the events throws.
  abbrev pub SetOrRestored : Text → AppConfig → EngineState P → EngineState P × Text → Type 0
  SetOrRestored id wanted e (after, reply) =
      let refresh = rescan_sites_and_refresh_nginx P wanted e.parts in
      ((after.config ≡ wanted) × (reply ≡ response_ok J id (J.object [])))
      ⊎ Restored id e.config (after, reply)
      ⊎ ((refresh.1 ≡ thrown)
          × (after.config ≡ wanted)
          × (after.parts ≡ refresh.0)
          × (reply ≡ response_error J id what))
      ⊎ ((refresh.1 ≡ succeeded)
          × ((P.save wanted refresh.0).1 ≡ true)
          × (after.config ≡ wanted)
          × (reply ≡ response_error J id what))

  activation_failed :
      (id : Text) (previous : AppConfig) (r : EngineState P × Reply)
      → r.0.config ≡ previous
      → Restored id previous (
          restored J P what id
            (codes "Could not activate settings; check TLS status and nginx diagnostics")
            r)
  activation_failed id previous (e, reply) same = elim (by_reply-same reply _ _) [
    | inl told ↦ (same, inl told)
    | inr threw ↦ (same, inr (inr threw))
  ]

  saving_failed :
      (id : Text) (previous : AppConfig) (r : EngineState P × Reply)
      → r.0.config ≡ previous
      → Restored id previous
          (restored J P what id (codes "Could not save Appytizer configuration") r)
  saving_failed id previous (e, reply) same = elim (by_reply-same reply _ _) [
    | inl told ↦ (same, inr (inl told))
    | inr threw ↦ (same, inr (inr threw))
  ]

  announced-SetOrRestored :
      (id : Text) (wanted : AppConfig) (e : EngineState P)
      → (rescan_sites_and_refresh_nginx P wanted e.parts).1 ≡ succeeded
      → (P.save wanted (rescan_sites_and_refresh_nginx P wanted e.parts).0).1 ≡ true
      → (r : EngineState P × Reply) → r.0.config ≡ wanted
      → SetOrRestored id wanted e (announced J P what id r)
  announced-SetOrRestored id wanted e active kept (after, reply) same =
      elim (by_reply-same reply (response_ok J id (J.object [])) (response_error J id what)) [
        | inl told ↦ inl (same, told)
        | inr threw ↦ inr (inr (inr (active, kept, same, threw)))
      ]

  activate_settings-SetOrRestored :
      (id : Text) (wanted : AppConfig) (e : EngineState P)
      → SetOrRestored id wanted e
          (activate_settings J P what id e.config (record e { config = wanted }))
  unfolding activate_settings restore announce
  activate_settings-SetOrRestored id wanted e =
      let (refreshed, reply) = rescan_sites_and_refresh_nginx P wanted e.parts in
      let (stored, saved) = P.save wanted refreshed in
      let changed : EngineState P = record e { config = wanted; parts = refreshed } in
      let kept : EngineState P = record e { config = wanted; parts = stored } in
      settle-elim (SetOrRestored id wanted e) reply saved _ _ _ _
        (inr (inl (activation_failed id e.config (restore J P what e.config changed) refl)))
        (inr (inl (saving_failed id e.config (restore J P what e.config kept) refl)))
        (λ active is_kept.
          announced-SetOrRestored id wanted e active is_kept (announce J P what kept) refl)
        (λ threw. inr (inr (inl (threw, refl, refl, refl))))

  -- If each field that config.set is given converts, then the Engine has the new settings and replies
  -- that all is well; or it has the previous settings and replies with an error; or the refresh with the
  -- new settings throws, and the Engine keeps them, unsaved, and replies with the exception; or they are
  -- activated and saved, an event behind that throws, and the reply is that exception.
  pub config_set-SetOrRestored :
      (id : Text) (params : J.Json) (e : EngineState P)
      → (assign_all J params e.config).1 ≡ true
      → SetOrRestored id (assign_all J params e.config).0 e (config_set J P what id params e)
  unfolding config_set after_assignments
  config_set-SetOrRestored id params e converted =
      let wanted = (assign_all J params e.config).0 in
      subst (λ r. SetOrRestored id wanted e (after_assignments J P what id e r))
        {x = (wanted, true)} {y = assign_all J params e.config}
        (ap (λ b. (wanted, b)) (sym converted)) (activate_settings-SetOrRestored id wanted e)

  -- If the root folder converts and the field https_enabled does not, the reply is an error, but the
  -- Engine keeps the new root folder, which it has neither scanned nor saved.
  pub config_set_partial :
      (id root : Text) (params root_json https_json : J.Json) (e : EngineState P)
      → J.field params (codes "root_folder") ≡ some root_json
      → J.as_string root_json ≡ some root
      → J.field params (codes "https_enabled") ≡ some https_json
      → J.as_boolean https_json ≡ none
      → let (after, reply) = config_set J P what id params e in
        (after.config.root_folder ≡ root)
        × (after.parts ≡ e.parts)
        × (reply ≡ response_error J id what)
  unfolding config_set after_assignments
  config_set_partial id root params root_json https_json e a b c d =
      let result : config_set J P what id params e
          ≡ after_assignments J P what id e (record e.config { root_folder = root }, false) =
        ap (after_assignments J P what id e)
          (assign_all-stopped J params root_json https_json root e.config a b c d) in
      (ap (λ r. r.0.config.root_folder) result, ap (λ r. r.0.parts) result, ap (λ r. r.1) result)
