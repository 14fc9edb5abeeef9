-- ===== src/Entry/Service.antt =====
-- control_handler and service_main in engine/main.cpp: what is reported to the service control manager.
use appytizer_app_server.Base.{
  ℕ, Bool, true, false, not, ◌&&◌, ◌||◌, List, [], ◌∷◌, ◌++◌, Option, none, some, any, ◌==◌,
  if◌then◌else◌,
}
pub mod Stopped

pub data Report : Type 0 where
  start_pending running stop_pending stopped : Report

-- SERVICE_CONTROL_STOP
abbrev pub control_stop : ℕ
control_stop = 1

-- What is reported, and whether the stop event is set.
unfoldable pub control_handler : Bool → ℕ → List Report × Bool
control_handler engine_set control =
    if not (control == control_stop) || not engine_set
    then ([], false)
    else (stop_pending ∷ [], true)

-- The controls that come one after the other, and whether one of them set the event.
unfoldable pub control_all : Bool → List ℕ → List Report × Bool
unfolding control_handler
control_all engine_set [] = ([], false)
control_all engine_set (control ∷ controls) =
    let (reports, is_set) = control_handler engine_set control in
    let (later, is_set_later) = control_all engine_set controls in
    (reports ++ later, is_set || is_set_later)

-- engine.wait(stop_event): the controls up to the one that sets the event; `none` waits on.
unfoldable pub wait : List ℕ → Option (List Report)
unfolding control_handler
wait [] = none
wait (control ∷ controls) =
    let (reports, is_set) = control_handler true control in
    let rest = wait controls in if is_set then some reports else rest

-- The controls that come before the Engine is set, while it starts, and while it runs; whether the
-- handler is registered, and whether the Engine starts. `none` while the service runs on.
pub record Run : Type 0 where
  pub registered : Bool
  pub starts : Bool
  pub before : List ℕ
  pub starting : List ℕ
  pub later : List ℕ

unfoldable pub waited : Bool → List ℕ → Option (List Report)
unfolding wait
waited is_set controls = if is_set then some [] else wait controls

unfoldable pub service_main : Run → Option (List Report)
unfolding control_all waited
service_main r =
    let (ignored, set_before) = control_all false r.before in
    let (reports, is_set) = control_all true r.starting in
    let pending = start_pending ∷ (ignored ++ reports) in
    if not r.registered
    then some []
    else if not r.starts
    then some (pending ++ (stopped ∷ []))
    else elim (waited (set_before || is_set) r.later) [
      | none ↦ none
      | some last ↦ some (pending ++ (running ∷ (last ++ (stopped ∷ []))))
    ]
