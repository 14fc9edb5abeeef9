-- ===== src/Ui/Shown.antt =====
-- The answer to config.get in appytizer-ui/main.cpp: the settings that are shown, and the window itself.
use appytizer_app_server.Base.{
  ◌≡◌, refl, ◌⊎◌, inl, inr, true, false, not, ◌||◌, arith, Bool-cases, Text,
}
use appytizer_app_server.Common.Json.{JsonLib}
use appytizer_app_server.Ui.Actions.{Effect}
use appytizer_app_server.Ui.Triples.{Triple, modify_lem, catch_lem, bind_lem, if_lem}
use appytizer_app_server.Ui.Invariant.{
  Keeps, bind-Keeps, pure-Keeps, get-Keeps, throw-Keeps, or_throw-Keeps, modify-Keeps, ask-Keeps,
  after_keeps,
}
use appytizer_app_server.Ui.App
use appytizer_app_server.Ui.App.{App, Ui}
use appytizer_app_server.Ui.Views.{Narrow}
use appytizer_app_server.Ui.Settings
use appytizer_app_server.Ui.Settings.{config_answered}

abbrev Anything : Effect → Type 0
Anything effect = Unit

-- The window is shown, or the settings say that the program starts without it.
abbrev pub IsDecided : App → Type 0
IsDecided a =
    (a.initial_visibility_applied ≡ true)
    × ((a.shown ≡ true) ⊎ ((a.force_show ≡ false) × (a.config.run_minimized ≡ true)))

abbrev Undecided : App → Type 0
Undecided a = a.initial_visibility_applied ≡ false

first_visibility-IsDecided : (a : App) → Undecided a → IsDecided (Settings.first_visibility a)
unfolding Settings.first_visibility
first_visibility-IsDecided a h = elim (Bool-cases (a.force_show || not a.config.run_minimized)) [
  | inl e ↦ rw (Settings.first_visibility, h, e) (refl, inl refl)
  | inr e ↦ rw (Settings.first_visibility, h, e) (refl, inr (ground (arith, e), ground (arith, e)))
]

shown_at_failure-IsDecided : (a : App) → Undecided a → IsDecided (Settings.shown_at_failure a)
unfolding Settings.shown_at_failure
shown_at_failure-IsDecided a h = rw (Settings.shown_at_failure, h) (refl, inl refl)

module _ (J : JsonLib) (N : Narrow) (what : Text) where
  refresh_tls-Undecided : Keeps Anything Undecided App.refresh_tls
  unfolding App.refresh_tls App.https_disabled
  refresh_tls-Undecided = bind-Keeps get-Keeps (λ a.
      if_lem (not a.config.https_enabled) (modify-Keeps App.https_disabled (λ b p. p))
        (ask-Keeps _ tt))

  read_config-Undecided :
      (result : J.Json) → Keeps Anything Undecided (Settings.read_config J N what result)
  unfolding Settings.read_config Settings.read_switches Settings.show_config
  read_config-Undecided result = bind-Keeps (or_throw-Keeps what _) (λ root.
      bind-Keeps (or_throw-Keeps what _) (λ path. bind-Keeps (modify-Keeps _ (λ a p. p)) (λ u.
        bind-Keeps (or_throw-Keeps what _) (λ https. bind-Keeps (modify-Keeps _ (λ a p. p)) (λ u.
          bind-Keeps (or_throw-Keeps what _) (λ minimized.
            bind-Keeps (modify-Keeps _ (λ a p. p)) (λ u.
              bind-Keeps (or_throw-Keeps what _) (λ autostart.
                bind-Keeps (modify-Keeps _ (λ a p. p)) (λ u.
                  bind-Keeps (or_throw-Keeps what _) (λ root. modify-Keeps _ (λ a p. p)))))))))))

  config_answered-triple :
      (response : Text)
      → Triple Anything Undecided (config_answered J N what response) (λ u. IsDecided) IsDecided
  unfolding config_answered
  config_answered-triple response =
      catch_lem
        (bind_lem (or_throw-Keeps what (J.parse response)) (λ document.
          bind_lem
            (bind-Keeps (or_throw-Keeps what _) (λ ok.
              if_lem ok (pure-Keeps tt)
                (bind-Keeps (or_throw-Keeps what _) (λ error. throw-Keeps error))))
            (λ u. bind_lem (or_throw-Keeps what _) (λ result.
              bind_lem (read_config-Undecided result) (λ u. bind_lem refresh_tls-Undecided (λ u.
                bind_lem (ask-Keeps _ tt)
                  (λ u. modify_lem Settings.first_visibility first_visibility-IsDecided)))))))
        (λ error. modify_lem Settings.shown_at_failure shown_at_failure-IsDecided)

  -- The first answer to config.get decides whether the window appears, whatever the answer is: an
  -- error, no JSON at all, or the settings. Then the window is shown, or it was not forced and the
  -- settings that were taken over say that the program starts minimized.
  pub config_answered-IsDecided :
      (response : Text) (a : App)
      → a.initial_visibility_applied ≡ false
      → IsDecided (config_answered J N what response a).0
  config_answered-IsDecided response a h =
      after_keeps IsDecided (config_answered J N what response a).2
        (config_answered J N what response a).0 ((config_answered-triple response).holds a h).1
