-- ===== src/Engine/Lifecycle/Runs.antt =====
-- Starting and stopping the Engine.
use appytizer_app_server.Base.{◌≡◌, some, true, false, arith}
use appytizer_app_server.Common.Json.{JsonLib}
use appytizer_app_server.Engine.Subsystems.{Subsystems}
use appytizer_app_server.Tls.Disk.{succeeded}
use appytizer_app_server.Engine.Settings.{EngineState}
use appytizer_app_server.Engine.Lifecycle.{start, stop, folder_changed}

module _ (J : JsonLib) (P : Subsystems) where
  stop-running : (e : EngineState P) → (stop J P e).running ≡ false
  unfolding stop
  stop-running e = ground arith

  stop_of_stopped : (e : EngineState P) → e.running ≡ false → stop J P e ≡ e
  unfolding stop
  stop_of_stopped e h = ground arith

  start_of_started : (e : EngineState P) → e.running ≡ true → start J P e ≡ (e, succeeded)
  unfolding start
  start_of_started e h = ground arith

  start-running : (e : EngineState P) → (start J P e).1 ≡ succeeded → (start J P e).0.running ≡ true
  unfolding start
  start-running e h = ground arith

  folder_changed_of_stopped :
      (e : EngineState P) → e.running ≡ false → folder_changed J P e ≡ some e
  unfolding folder_changed
  folder_changed_of_stopped e h = ground arith

  -- Once the Engine is stopped, a second stop does nothing, and neither does a notification of the
  -- folder watcher that comes late.
  pub stop-stop :
      (e : EngineState P)
      → (stop J P (stop J P e) ≡ stop J P e) × (folder_changed J P (stop J P e) ≡ some (stop J P e))
  stop-stop e = (
    stop_of_stopped (stop J P e) (stop-running e),
    folder_changed_of_stopped (stop J P e) (stop-running e),
  )

  -- Once a start has succeeded, a second one does nothing and succeeds.
  pub start-start :
      (e : EngineState P)
      → (start J P e).1 ≡ succeeded
      → start J P (start J P e).0 ≡ ((start J P e).0, succeeded)
  start-start e h = start_of_started (start J P e).0 (start-running e h)
