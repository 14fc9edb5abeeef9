-- ===== src/Common/Starting.antt =====
-- startWindowsService in common/windows_service.cpp.
use appytizer_app_server.Base.{
  ℕ, zero, suc, ◌+◌, Bool, true, false, ◌||◌, Option, none, some, ◌==◌, if◌then◌else◌,
}
pub mod Polled

pub data ServiceStartResult : Type 0 where
  running not_installed access_denied failed : ServiceStartResult

-- What Windows answers: the error of a call that fails, `none` where it does not. The service's state
-- and the answer to StartService may differ at each attempt; a state that is `none` was not told.
pub record StartAnswers : Type 0 where
  pub manager_error : Option ℕ
  pub service_error : Option ℕ
  pub state : ℕ → Option ℕ
  pub start_error : ℕ → Option ℕ

abbrev pub error_access_denied : ℕ
error_access_denied = 5

abbrev pub error_service_already_running : ℕ
error_service_already_running = 1056

abbrev pub error_service_does_not_exist : ℕ
error_service_does_not_exist = 1060

abbrev pub state_stopped : ℕ
state_stopped = 1

abbrev pub state_start_pending : ℕ
state_start_pending = 2

abbrev pub state_stop_pending : ℕ
state_stop_pending = 3

abbrev pub state_running : ℕ
state_running = 4

abbrev denied_or_failed : ℕ → ServiceStartResult
denied_or_failed error = if error == error_access_denied then access_denied else failed

abbrev pub result_of_start : Option ℕ → ServiceStartResult
result_of_start none = running
result_of_start (some error) =
    if error == error_service_already_running then running else denied_or_failed error

-- One round of the loop; `none` goes on to the next, after a pause.
unfoldable pub attempt_result : StartAnswers → ℕ → Option ServiceStartResult
attempt_result answers attempt = elim (answers.state attempt) [
  | none ↦ some failed
  | some state ↦
      if (state == state_running) || (state == state_start_pending)
      then some running
      else if state == state_stopped
      then some (result_of_start (answers.start_error attempt))
      else if state == state_stop_pending
      then none
      else some failed
]

abbrev pub or_later : Option ServiceStartResult → ServiceStartResult → ServiceStartResult
or_later none later = later
or_later (some result) later = result

-- `left` attempts from that number on.
unfoldable pub poll : StartAnswers → ℕ → ℕ → ServiceStartResult
unfolding attempt_result
poll answers zero attempt = failed
poll answers (suc left) attempt =
    or_later (attempt_result answers attempt) (poll answers left (attempt + 1))

abbrev not_opened : ℕ → ServiceStartResult
not_opened error =
    if error == error_access_denied
    then access_denied
    else if error == error_service_does_not_exist
    then not_installed
    else failed

unfoldable pub start_windows_service : StartAnswers → ServiceStartResult
unfolding poll
start_windows_service answers = elim answers.manager_error [
  | some error ↦ denied_or_failed error
  | none ↦ elim answers.service_error [ some error ↦ not_opened error | none ↦ poll answers 150 0 ]
]
