-- ===== src/Entry/Service/Stopped.antt =====
-- The service in engine/main.cpp stops when it is told to.
use appytizer_app_server.Base.{
  ℕ, ◌≡◌, refl, sym, ap, ◌∙◌, inl, inr, Bool, true, false, ◌||◌, List, [], ◌∷◌, ◌++◌, append_assoc,
  Option, none, some, arith, any, Bool-cases, ◌==◌,
}
use appytizer_app_server.Entry.Service.{
  Report, start_pending, running, stop_pending, stopped, control_stop, control_handler, control_all,
  wait, waited, Run, service_main,
}

abbrev pub is_told : List ℕ → Bool
is_told controls = any (λ control. control == control_stop) controls

control_all-is_told : (controls : List ℕ) → (control_all true controls).1 ≡ is_told controls
unfolding control_all control_handler
control_all-is_told [] = refl
control_all-is_told (control ∷ controls) = ground (arith, control_all-is_told controls)

wait-is_told :
    (controls : List ℕ) → is_told controls ≡ true → wait controls ≡ some (stop_pending ∷ [])
unfolding wait control_handler
wait-is_told [] h = absurd cc
wait-is_told (control ∷ controls) h = ground (arith, wait-is_told controls)

wait-untold : (controls : List ℕ) → is_told controls ≡ false → wait controls ≡ none
unfolding wait control_handler
wait-untold [] h = refl
wait-untold (control ∷ controls) h = ground (arith, wait-untold controls)

control_all-before : (controls : List ℕ) → control_all false controls ≡ ([], false)
unfolding control_all control_handler
control_all-before [] = refl
control_all-before (control ∷ controls) = ground (arith, control_all-before controls)

-- What is reported once the Engine runs.
finished : List Report → Option (List Report) → Option (List Report)
finished pending none = none
finished pending (some last) = some (pending ++ (running ∷ (last ++ (stopped ∷ []))))

ends_stopped :
    (reports last : List Report)
    → finished (start_pending ∷ reports) (some last)
      ≡ some (start_pending ∷ ((reports ++ (running ∷ last)) ++ (stopped ∷ [])))
unfolding finished
ends_stopped reports last =
    ap (λ r. some (start_pending ∷ r)) (sym (append_assoc reports (running ∷ last) (stopped ∷ [])))

service_main-started :
    (r : Run)
    → r.registered ≡ true
    → r.starts ≡ true
    → service_main r
      ≡ finished
          (start_pending ∷ (control_all true r.starting).0)
          (waited (is_told r.starting) r.later)
unfolding service_main finished
service_main-started r registered starts =
    let (reports, is_set) = control_all true r.starting in
    rw (service_main, registered, starts)
      (ap
          (λ (p : List Report × Bool).
            finished (start_pending ∷ (p.0 ++ reports)) (waited (p.1 || is_set) r.later))
          (control_all-before r.before)
        ∙ ap (λ b. finished (start_pending ∷ reports) (waited b r.later))
            (control_all-is_told r.starting))

-- A registered service whose Engine starts, and that is told to stop while the Engine starts or runs,
-- ends: the last that it reports is that it is stopped, and it has reported before that it starts.
pub service_main-stopped :
    (r : Run)
    → r.registered ≡ true
    → r.starts ≡ true
    → (is_told r.starting || is_told r.later) ≡ true
    → (reports : List Report) × (service_main r
        ≡ some (start_pending ∷ (reports ++ (stopped ∷ []))))
unfolding waited finished
service_main-stopped r registered starts told =
    let reports = (control_all true r.starting).0 in
    elim (Bool-cases (is_told r.starting)) [
      | inl e ↦ (
        reports ++ (running ∷ []),
        service_main-started r registered starts
            ∙ (ap (λ b. finished (start_pending ∷ reports) (waited b r.later)) e
                ∙ ends_stopped reports []),
      )
      | inr e ↦
          let later : is_told r.later ≡ true = ground (arith, told, e) in
          (
            reports ++ (running ∷ stop_pending ∷ []),
            service_main-started r registered starts
                ∙ (ap (λ b. finished (start_pending ∷ reports) (waited b r.later)) e
                    ∙ (ap (finished (start_pending ∷ reports)) (wait-is_told r.later later)
                        ∙ ends_stopped reports (stop_pending ∷ []))),
          )
    ]

-- A stop that comes before the Engine is set is lost: if no other follows, the service runs on.
pub service_main_deaf :
    (r : Run)
    → r.registered ≡ true
    → r.starts ≡ true
    → is_told r.starting ≡ false
    → is_told r.later ≡ false
    → service_main r ≡ none
unfolding waited finished
service_main_deaf r registered starts starting later =
    service_main-started r registered starts
    ∙ (ap (λ b. finished (start_pending ∷ (control_all true r.starting).0) (waited b r.later))
          starting
        ∙ ap (finished (start_pending ∷ (control_all true r.starting).0))
            (wait-untold r.later later))
