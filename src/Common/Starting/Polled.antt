-- ===== src/Common/Starting/Polled.antt =====
-- What it takes for startWindowsService to report a running service.
use appytizer_app_server.Base.{
  ℕ, zero, suc, ◌+◌, ◌<◌, ◌≡◌, refl, sym, ap, subst, ◌∙◌, ◌⊎◌, inl, inr, Option, none, some, arith,
  Option-cases,
}
use appytizer_app_server.Common.Starting.{
  running, StartAnswers, error_service_already_running, state_stopped, state_start_pending,
  state_stop_pending, state_running, result_of_start, attempt_result, or_later, poll,
  start_windows_service,
}

-- The service was stopping at each of that many attempts, from the number on.
abbrev pub WasStopping : StartAnswers → ℕ → ℕ → Type 0
WasStopping answers zero attempt = Unit
WasStopping answers (suc n) attempt =
    (answers.state attempt ≡ some state_stop_pending) × WasStopping answers n (attempt + 1)

-- The service runs, or is about to; or it had stopped, and was started now or by someone else.
abbrev pub IsUp : StartAnswers → ℕ → Type 0
IsUp answers attempt =
    (answers.state attempt ≡ some state_running)
    ⊎ (answers.state attempt ≡ some state_start_pending)
    ⊎ ((answers.state attempt ≡ some state_stopped)
        × ((answers.start_error attempt ≡ none)
            ⊎ (answers.start_error attempt ≡ some error_service_already_running)))

result_of_start-running :
    (error : Option ℕ)
    → result_of_start error ≡ running
    → (error ≡ none) ⊎ (error ≡ some error_service_already_running)
result_of_start-running none h = inl refl
result_of_start-running (some error) h = ground arith

attempt_result-none :
    (answers : StartAnswers) (attempt : ℕ)
    → attempt_result answers attempt ≡ none
    → answers.state attempt ≡ some state_stop_pending
unfolding attempt_result
attempt_result-none answers attempt h = ground arith

attempt_result-running :
    (answers : StartAnswers) (attempt : ℕ)
    → attempt_result answers attempt ≡ some running
    → IsUp answers attempt
unfolding attempt_result
attempt_result-running answers attempt h =
    ground (arith, result_of_start-running (answers.start_error attempt))

poll-IsUp :
    (answers : StartAnswers) (left attempt : ℕ)
    → poll answers left attempt ≡ running
    → (n : ℕ) × (n < left) × WasStopping answers n attempt × IsUp answers (attempt + n)
unfolding poll
poll-IsUp answers zero attempt h = absurd (cc)
poll-IsUp answers (suc left) attempt h = elim (Option-cases (attempt_result answers attempt)) [
  | inr (result, e) ↦
      let up : attempt_result answers attempt ≡ some running =
        e ∙ ap some (sym (ap (λ o. or_later o (poll answers left (attempt + 1))) e) ∙ h) in
      (
        0,
        omega arith,
        tt,
        subst (IsUp answers) {x = attempt} {y = attempt + 0} (omega arith)
            (attempt_result-running answers attempt up),
      )
  | inl e ↦
      let later : poll answers left (attempt + 1) ≡ running =
        sym (ap (λ o. or_later o (poll answers left (attempt + 1))) e) ∙ h in
      let (n, below, stopping, up) = poll-IsUp answers left (attempt + 1) later in
      (
        suc n,
        omega (arith, below),
        (attempt_result-none answers attempt e, stopping),
        subst (IsUp answers) {x = attempt + 1 + n} {y = attempt + suc n} (omega arith) up,
      )
]

-- If startWindowsService reports a running service, then the service opened, and within 150 attempts
-- it was up: it ran, was about to run, or had stopped and was started. Before that attempt it was
-- stopping at every one.
pub start_windows_service-IsUp :
    (answers : StartAnswers)
    → start_windows_service answers ≡ running
    → (answers.manager_error ≡ none)
      × (answers.service_error ≡ none)
      × ((n : ℕ) × (n < 150) × WasStopping answers n 0 × IsUp answers n)
unfolding start_windows_service
start_windows_service-IsUp answers h = elim (Option-cases answers.manager_error) [
  | inr (error, e) ↦ absurd (ground arith)
  | inl e ↦ elim (Option-cases answers.service_error) [
    | inr (error, f) ↦ absurd (ground arith)
    | inl f ↦
        let polled : start_windows_service answers ≡ poll answers 150 0 =
          rw (start_windows_service, e, f) refl in
        let (n, below, stopping, up) = poll-IsUp answers 150 0 (sym polled ∙ h) in
        (e, f, (n, below, stopping, subst (IsUp answers) {x = 0 + n} {y = n} (omega arith) up))
  ]
]
