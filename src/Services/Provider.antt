-- ===== src/Services/Provider.antt =====
-- The class Provider in engine/services/providers.cpp, with the types of
-- common/service_provider.hpp.
use appytizer_app_server.Base.{
  ℕ, ◌+◌, Bool, true, false, not, ◌||◌, ◌&&◌, List, [], ◌∷◌, ◌++◌, map, Option, none, some, Text,
  codes, text_eq, is_empty, any, find, lowercase, starts_with, if◌then◌else◌, ◌==◌, keep,
}
use appytizer_app_server.Services.Version.{parse_version}
pub mod Owned

pub record InstalledVersion : Type 0 where
  pub version_label : Text
  pub executable_path : Text
  pub is_windows_service : Bool
  pub windows_service_name : Text

pub record ServiceStatus : Type 0 where
  pub running : Bool
  pub active_version : Text
  pub process_ids : List ℕ
  pub working_set_bytes : ℕ

abbrev pub no_status : ServiceStatus
no_status = record { running = false; active_version = []; process_ids = []; working_set_bytes = 0 }

-- An entry of EnumServicesStatusEx.
pub record ScmEntry : Type 0 where
  pub name : Text
  pub state : ℕ
  pub process_id : ℕ

-- What control_scm is answered: whether the service opens, whether the control call succeeds, its
-- error otherwise, and the state and the process that the query then reports.
pub record ScmAnswer : Type 0 where
  pub opens : Bool
  pub changed : Bool
  pub error : ℕ
  pub state : ℕ
  pub process_id : ℕ

-- What spawn is answered; `created` is the identifier of the process.
pub record SpawnAnswer : Type 0 where
  pub job : Bool
  pub created : Option ℕ
  pub assigned : Bool
  pub exits_at_once : Bool

-- Windows, as one provider meets it during one operation.
pub record Windows : Type 0 where
  -- weakly_canonical, and lexically_relative.
  pub canonical : Text → Option Text
  pub relative : Text → Text → Text
  -- WideCharToMultiByte.
  pub narrow : Text → Text
  pub scm_entries : Option (List ScmEntry)
  pub version_of : Text → Text
  pub working_set : ℕ → ℕ
  pub terminates : Bool
  pub exits : Bool
  pub spawn_answer : SpawnAnswer
  pub scm_answer : Text → ScmAnswer

pub record Provider : Type 0 where
  pub id : Text
  pub display_name : Text
  pub active : Text
  pub executable_names : List Text
  pub search_roots : List Text
  pub registry_tokens : List Text
  pub service_tokens : List Text
  pub arguments : Text
  pub preferred_root : Text
  pub preferred_arguments : Text
  pub versions : List InstalledVersion
  -- job_ and process_, which are set together: the process and its command line.
  pub process : Option (ℕ × Text)
  pub status : ServiceStatus

abbrev pub service_running : ℕ
service_running = 4

abbrev pub service_start_pending : ℕ
service_start_pending = 2

-- ERROR_SERVICE_ALREADY_RUNNING and ERROR_SERVICE_NOT_ACTIVE.
abbrev pub expected_error : Bool → ℕ
expected_error true = 1056
expected_error false = 1062

abbrev pub select_from : List InstalledVersion → Text → Option InstalledVersion
select_from [] requested = none
select_from (v ∷ vs) requested =
    if is_empty requested || text_eq v.version_label requested
    then some v
    else select_from vs requested

-- `find_if` over the versions, and the first of them where there is none of that label.
unfoldable pub select : List InstalledVersion → Text → Option InstalledVersion
select [] requested = none
select (v ∷ vs) requested = elim (select_from (v ∷ vs) requested) [
  | none ↦ some v
  | some found ↦ some found
]

abbrev pub continue_with : (Provider → Provider × Bool) → Provider × Bool → Provider × Bool
continue_with second (p, true) = second p
continue_with second (p, false) = (p, false)

abbrev pub set_launch_arguments : Text → Provider → Provider
set_launch_arguments arguments p = record p { arguments = arguments }

module _ (W : Windows) where
  unfoldable pub is_within : Text → Text → Bool
  is_within candidate root = if is_empty root then false else elim (W.canonical candidate) [
    | none ↦ false
    | some normalized_candidate ↦ elim (W.canonical root) [
      | none ↦ false
      | some normalized_root ↦
          let relative = W.relative normalized_candidate normalized_root in
          not (is_empty relative) && not (starts_with (codes "..") relative)
    ]
  ]

  abbrev pub launch_arguments_for : Provider → InstalledVersion → Text
  unfolding is_within
  launch_arguments_for p version =
      if is_within version.executable_path p.preferred_root && not (is_empty p.preferred_arguments)
      then p.preferred_arguments
      else p.arguments

  -- The process starts suspended; it runs once the job owns it.
  unfoldable pub spawn : InstalledVersion → Text → Provider → Provider × Bool
  spawn version arguments p =
      let command = codes "\"" ++ (version.executable_path ++ (codes "\" " ++ arguments)) in
      let answer = W.spawn_answer in
      if not answer.job then (p, false) else elim answer.created [
        | none ↦ (p, false)
        | some process_id ↦
            let spawned : Provider = record p {
              status = record p.status { running = true; process_ids = process_id ∷ [] };
              process = some (process_id, command);
            } in
            if not answer.assigned || answer.exits_at_once then (p, false) else (spawned, true)
      ]

  unfoldable pub control_scm : InstalledVersion → Bool → Provider → Provider × Bool
  control_scm version start_service p =
      let answer = W.scm_answer version.windows_service_name in
      let queried : ServiceStatus = record p.status {
        running = (answer.state == service_running) || (answer.state == service_start_pending);
        process_ids = if answer.process_id == 0 then [] else answer.process_id ∷ [];
      } in
      if not answer.opens then (p, false) else (
        record p { status = queried },
        answer.changed || (answer.error == expected_error start_service),
      )

  unfoldable pub start : Text → Provider → Provider × Bool
  unfolding select spawn control_scm
  start version p = elim (select p.versions version) [
    | none ↦ (p, false)
    | some selected ↦
        let p' : Provider = record p { active = selected.version_label } in
        if selected.is_windows_service
        then control_scm selected true p'
        else spawn selected (launch_arguments_for p' selected) p'
  ]

  stop_unowned : Provider → Provider × Bool
  unfolding select control_scm
  stop_unowned p = elim (select p.versions p.active) [
    | none ↦ (p, not p.status.running)
    | some selected ↦
        if not selected.is_windows_service
        then (p, not p.status.running)
        else control_scm selected false p
  ]

  unfoldable pub stop : Provider → Provider × Bool
  unfolding stop_unowned
  stop p = elim p.process [
    | none ↦ stop_unowned p
    | some process ↦
        if not W.terminates || not W.exits
        then (p, false)
        else (record p { process = none; status = no_status }, true)
  ]

  abbrev working_set_of : List ℕ → ℕ
  working_set_of [] = 0
  working_set_of (process_id ∷ process_ids) = W.working_set process_id + working_set_of process_ids

  unfoldable pub status : Provider → ServiceStatus
  status p = record p.status {
    active_version = p.active;
    working_set_bytes = working_set_of p.status.process_ids;
  }

-- `stop() && start(version)`: Windows may answer otherwise the second time.
unfoldable pub restart : Windows → Windows → Text → Provider → Provider × Bool
unfolding start stop
restart W V version p = continue_with (start V version) (stop W p)
