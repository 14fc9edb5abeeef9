-- ===== src/Ui/Served.antt =====
-- The requests of the tray application (appytizer-ui/main.cpp and PipeClient::request of
-- appytizer-ui/ipc/pipe_client.cpp), as the Engine reads them.
use mathlib.Core.Option.{some-ne-none}
use appytizer_app_server.Base.{
  ◌≡◌, ◌≢◌, refl, sym, subst, starts_with, ◌⊎◌, inl, inr, Bool, true, false, List, [], ◌∷◌, none,
  some, arith, Text, codes, text_eq, text_eq_iff, text_mem, any, all, All, Bool-cases,
}
use appytizer_app_server.Common.Json.{JsonLib}
use appytizer_app_server.Common.Protocol.{IpcRequest}
use appytizer_app_server.Engine.Subsystems.{Subsystems}
use appytizer_app_server.Engine.Settings.{EngineState}
use appytizer_app_server.Engine.Messages.{
  parts_command, reply_with, service_operation, service_rescan, service_command,
}
use appytizer_app_server.Engine.Reports.{service_list}
use appytizer_app_server.Ui.Actions.{Effect, request, autostart_entry}
use appytizer_app_server.Ui.Views.{Narrow}
use appytizer_app_server.Ui.Program.{Input, main}
use appytizer_app_server.Ui.Layout.{IsServed, is_served, served_commands}
use appytizer_app_server.Ui.Layout.Runs.{main-IsServed}

asks_for : Text → Effect → Bool
asks_for command (request asked params continuation) = text_eq asked command
asks_for command (autostart_entry enabled) = false

-- One of the effects is a request with the command.
unfoldable pub is_asked : Text → List Effect → Bool
unfolding asks_for
is_asked command effects = any (asks_for command) effects

is_asked-served :
    (command : Text) (effects : List Effect)
    → is_asked command effects ≡ true
    → All IsServed effects
    → text_mem command served_commands ≡ true
unfolding is_asked asks_for is_served
is_asked-served command [] h all = absurd cc
is_asked-served command (request asked params continuation ∷ effects) h (first, rest) =
    elim (Bool-cases (text_eq asked command)) [
      | inl e ↦
          subst (λ c. text_mem c served_commands ≡ true) ((text_eq_iff asked command).0 e) first
      | inr e ↦ is_asked-served command effects (ground (arith, h, e)) rest
    ]
is_asked-served command (autostart_entry enabled ∷ effects) h (first, rest) =
    is_asked-served command effects h rest

All-text_mem :
    (Holds : Text → Type 0) (x : Text) (xs : List Text)
    → All Holds xs
    → text_mem x xs ≡ true
    → Holds x
All-text_mem Holds x [] h listed = absurd cc
All-text_mem Holds x (y ∷ ys) h listed = elim (Bool-cases (text_eq x y)) [
  | inl e ↦ subst Holds (sym ((text_eq_iff x y).0 e)) h.0
  | inr e ↦ All-text_mem Holds x ys h.1 (ground (arith, listed, e))
]

module _ (J : JsonLib) (P : Subsystems) (what : Text) where
  -- A command on a service, which starts it, stops it or restarts it.
  abbrev pub Operates : Text → Type 0
  Operates command =
      ((service version : Text) (s : P.State)
        → service_operation J P what command service version s ≡ P.start_service service version s)
      ⊎ ((service version : Text) (s : P.State)
          → service_operation J P what command service version s ≡ P.stop_service service s)
      ⊎ ((service version : Text) (s : P.State)
          → service_operation J P what command service version s
            ≡ P.restart_service service version s)

  -- What answers the request: config.set, the list of services, the new search for services, an
  -- operation on a service, or a branch for a command that is none on services.
  abbrev pub Answered : IpcRequest J → EngineState P → Type 0
  Answered r e =
      (r.command ≡ codes "config.set")
      ⊎ (parts_command J P what r e
          ≡ some (reply_with J P what r.id (service_list J P e.parts) e.parts))
      ⊎ (parts_command J P what r e ≡ some (service_rescan J P what r.id e.config e.parts))
      ⊎ (Operates r.command
          × (parts_command J P what r e ≡ some (service_command J P what r e.parts)))
      ⊎ ((starts_with (codes "service.") r.command ≡ false) × (parts_command J P what r e ≢ none))

  with_command : IpcRequest J → Text → IpcRequest J
  with_command r command = record r { command = command }

  by_its_own :
      (r : IpcRequest J) (e : EngineState P)
      → starts_with (codes "service.") r.command ≡ false
      → parts_command J P what r e ≢ none
      → Answered r e
  by_its_own r e other there = inr (inr (inr (inr (other, there))))

  All-Answered :
      (r : IpcRequest J) (e : EngineState P)
      → All (λ c. Answered (with_command r c) e) served_commands
  unfolding parts_command with_command
  All-Answered r e = (
    inr (inl refl),
    (
      by_its_own (with_command r (codes "sites.list")) e refl (λ none_is. some-ne-none _ none_is),
      (
        by_its_own (with_command r (codes "tls.status")) e refl (λ none_is. some-ne-none _ none_is),
        (
          by_its_own (with_command r (codes "config.get")) e refl
              (λ none_is. some-ne-none _ none_is),
          (
            inl refl,
            (
              by_its_own (with_command r (codes "sites.rescan")) e refl
                  (λ none_is. some-ne-none _ none_is),
              (
                inr (inr (inl refl)),
                (
                  by_its_own (with_command r (codes "dns.start")) e refl
                      (λ none_is. some-ne-none _ none_is),
                  (
                    by_its_own (with_command r (codes "dns.stop")) e refl
                        (λ none_is. some-ne-none _ none_is),
                    (
                      inr (inr (inr (inl (inl (λ service version s. refl), refl)))),
                      (
                        inr (inr (inr (inl (inr (inl (λ service version s. refl)), refl)))),
                        (
                          inr (inr (inr (inl (inr (inr (λ service version s. refl)), refl)))),
                          (
                            by_its_own (with_command r (codes "stop_all")) e refl
                                (λ none_is. some-ne-none _ none_is),
                            tt,
                          ),
                        ),
                      ),
                    ),
                  ),
                ),
              ),
            ),
          ),
        ),
      ),
    ),
  )

  -- Every request that the tray application sends during a run is answered by a branch of the Engine
  -- for its own command, whatever the Engine's state: it is config.set; or service.list or
  -- service.rescan; or an operation that starts, stops or restarts the service it names; or a command
  -- that is none on services and that parts_command answers.
  pub main-served :
      (N : Narrow) (force_show : Bool) (inputs : List Input) (r : IpcRequest J) (e : EngineState P)
      → is_asked r.command (main J N what force_show inputs).1 ≡ true
      → Answered r e
  unfolding with_command
  main-served N force_show inputs r e asked =
      All-text_mem (λ c. Answered (with_command r c) e) r.command served_commands (All-Answered r e)
        (is_asked-served r.command (main J N what force_show inputs).1 asked
          (main-IsServed J N what force_show inputs))
