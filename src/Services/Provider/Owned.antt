-- ===== src/Services/Provider/Owned.antt =====
-- A provider without Windows services: what its status says of the process that it owns.
use appytizer_app_server.Base.{
  ◌≡◌, inl, inr, Bool, true, false, not, List, [], ◌∷◌, arith, none, some, Option-cases, Text, all,
}
use appytizer_app_server.Services.Provider.{
  InstalledVersion, Windows, Provider, select_from, select, spawn, start, stop_unowned, stop,
  restart, continue_with, set_launch_arguments, launch_arguments_for,
}

abbrev pub are_executables : List InstalledVersion → Bool
are_executables versions = all (λ v. not v.is_windows_service) versions

abbrev pub owns_process : Provider → Bool
owns_process p = elim p.process [ none ↦ false | some process ↦ true ]

-- The status says that the provider runs exactly if it owns a process.
abbrev pub Tracks : Provider → Type 0
Tracks p = p.status.running ≡ owns_process p

-- What the engine does to a provider between two detections.
pub data Step : Provider → Provider → Type 0 where
  started : (W : Windows) (version : Text) (p : Provider) → Step p (start W version p).0
  stopped : (W : Windows) (p : Provider) → Step p (stop W p).0
  restarted : (W V : Windows) (version : Text) (p : Provider) → Step p (restart W V version p).0
  configured : (arguments : Text) (p : Provider) → Step p (set_launch_arguments arguments p)

pub data Steps : Provider → Provider → Type 0 where
  done : (p : Provider) → Steps p p
  then_step : {p q r : Provider} → Steps p q → Step q r → Steps p r

select_from-executable :
    (vs : List InstalledVersion) (requested : Text) (v : InstalledVersion)
    → are_executables vs ≡ true
    → select_from vs requested ≡ some v
    → v.is_windows_service ≡ false
select_from-executable [] requested v e h = absurd (cc)
select_from-executable (w ∷ ws) requested v e h =
    ground (arith, select_from-executable ws requested v)

pub select-executable :
    (vs : List InstalledVersion) (requested : Text) (v : InstalledVersion)
    → are_executables vs ≡ true
    → select vs requested ≡ some v
    → v.is_windows_service ≡ false
unfolding select
select-executable [] requested v e h = absurd (cc)
select-executable (w ∷ ws) requested v e h =
    ground (arith, select_from-executable (w ∷ ws) requested v e)

abbrev pub IsTracked : Provider → Type 0
IsTracked p = (are_executables p.versions ≡ true) × Tracks p

spawn-IsTracked :
    (W : Windows) (v : InstalledVersion) (arguments : Text) (p : Provider)
    → IsTracked p
    → IsTracked (spawn W v arguments p).0
unfolding spawn
spawn-IsTracked W v arguments p t = ground arith

start-IsTracked :
    (W : Windows) (version : Text) (p : Provider) → IsTracked p → IsTracked (start W version p).0
unfolding start
start-IsTracked W version p t = elim (Option-cases (select p.versions version)) [
  | inl e ↦ rw (start, e) t
  | inr (v, e) ↦
      let p' : Provider = record p { active = v.version_label } in
      rw (start, e, select-executable p.versions version v t.0 e)
        (spawn-IsTracked W v (launch_arguments_for W p' v) p' t)
]

stop-IsTracked : (W : Windows) (p : Provider) → IsTracked p → IsTracked (stop W p).0
unfolding stop stop_unowned
stop-IsTracked W p t = elim (Option-cases (select p.versions p.active)) [
  | inl e ↦ ground arith
  | inr (v, e) ↦ ground (arith, select-executable p.versions p.active v t.0 e)
]

continue_with-IsTracked :
    (V : Windows) (version : Text) (r : Provider × Bool)
    → IsTracked r.0
    → IsTracked (continue_with (start V version) r).0
continue_with-IsTracked V version (p, true) t = start-IsTracked V version p t
continue_with-IsTracked V version (p, false) t = t

Step-IsTracked : {p q : Provider} → Step p q → IsTracked p → IsTracked q
unfolding restart
Step-IsTracked (started W version p) t = start-IsTracked W version p t
Step-IsTracked (stopped W p) t = stop-IsTracked W p t
Step-IsTracked (restarted W V version p) t =
    continue_with-IsTracked V version (stop W p) (stop-IsTracked W p t)
Step-IsTracked (configured arguments p) t = t

-- Starting, stopping, restarting and configuring a provider that has no Windows service keeps its
-- status right, whichever calls of Windows fail: if it says at first that the provider runs exactly
-- when a process is owned, it says so after any number of these operations.
pub Steps-IsTracked : {p q : Provider} → Steps p q → IsTracked p → IsTracked q
Steps-IsTracked (done p) t = t
Steps-IsTracked (then_step ss s) t = Step-IsTracked s (Steps-IsTracked ss t)

-- If stopping a provider that has no Windows service succeeds, no process is owned, and the status
-- says that none runs.
pub stop-stopped :
    (W : Windows) (p : Provider)
    → are_executables p.versions ≡ true
    → (stop W p).1 ≡ true
    → ((stop W p).0.process ≡ none) × ((stop W p).0.status.running ≡ false)
unfolding stop stop_unowned
stop-stopped W p e h = elim (Option-cases (select p.versions p.active)) [
  | inl none_there ↦ ground arith
  | inr (v, found) ↦ ground (arith, select-executable p.versions p.active v e found)
]
