-- ===== src/Tests/StartingTests.antt =====
-- The start of a service at a concrete input: it is stopping twice, and then it has stopped.
use appytizer_app_server.Base.{ℕ, zero, suc, ◌<◌, ◌≡◌, refl, Option, none, some}
use appytizer_app_server.Common.Starting.{
  StartAnswers, start_windows_service, state_stopped, state_stop_pending,
}
use appytizer_app_server.Common.Starting.Polled.{WasStopping, IsUp, start_windows_service-IsUp}

abbrev states : ℕ → Option ℕ
states zero = some state_stop_pending
states (suc zero) = some state_stop_pending
states (suc (suc n)) = some state_stopped

abbrev answers : StartAnswers
answers = record {
  manager_error = none;
  service_error = none;
  state = states;
  start_error = λ attempt. none;
}

start_windows_service-IsUp_example :
    (answers.manager_error ≡ none)
    × (answers.service_error ≡ none)
    × ((n : ℕ) × (n < 150) × WasStopping answers n 0 × IsUp answers n)
unfolding start_windows_service
start_windows_service-IsUp_example = start_windows_service-IsUp answers refl
