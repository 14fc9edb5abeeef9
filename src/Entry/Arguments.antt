-- ===== src/Entry/Arguments.antt =====
-- wmain, run_console in engine/main.cpp: what the command line asks for, and the exit code.
use appytizer_app_server.Base.{
  ℕ, Bool, List, [], ◌∷◌, Option, none, some, Text, codes, text_eq, ◌==◌, if◌then◌else◌,
}

pub data Command : Type 0 where
  install_service start_engine_service uninstall_service provision_tls remove_tls : Command
  console as_service : Command

-- The first argument; any other is not looked at.
unfoldable pub command_of : List Text → Command
command_of [] = as_service
command_of (arg ∷ args) =
    if text_eq arg (codes "--install-service")
    then install_service
    else if text_eq arg (codes "--start-service")
    then start_engine_service
    else if text_eq arg (codes "--uninstall-service")
    then uninstall_service
    else if text_eq arg (codes "--provision-tls")
    then provision_tls
    else if text_eq arg (codes "--remove-tls")
    then remove_tls
    else if text_eq arg (codes "--run-console")
    then console
    else as_service

-- What the commands come to: each one's success, whether the Engine starts in console mode, and the
-- error of StartServiceCtrlDispatcher.
pub record Outcomes : Type 0 where
  pub installed : Bool
  pub service_started : Bool
  pub uninstalled : Bool
  pub provisioned : Bool
  pub removed : Bool
  pub engine_starts : Bool
  pub dispatcher_error : Option ℕ

abbrev exit_code : Bool → ℕ
exit_code ok = if ok then 0 else 1

-- It returns once the stop event is set.
abbrev run_console : Bool → ℕ
run_console engine_starts = if engine_starts then 0 else 1

abbrev error_failed_service_controller_connect : ℕ
error_failed_service_controller_connect = 1063

abbrev dispatched : Outcomes → Option ℕ → ℕ
dispatched o none = 0
dispatched o (some error) =
    if error == error_failed_service_controller_connect then run_console o.engine_starts else 1

unfoldable pub wmain : Outcomes → List Text → ℕ
unfolding command_of
wmain o args = elim (command_of args) [
  | install_service ↦ exit_code o.installed
  | start_engine_service ↦ exit_code o.service_started
  | uninstall_service ↦ exit_code o.uninstalled
  | provision_tls ↦ exit_code o.provisioned
  | remove_tls ↦ exit_code o.removed
  | console ↦ run_console o.engine_starts
  | as_service ↦ dispatched o o.dispatcher_error
]
