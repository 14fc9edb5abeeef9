-- ===== src/Services/Detect.antt =====
-- Provider::detect in engine/services/providers.cpp.
use appytizer_app_server.Base.{
  Bool, true, false, not, ◌&&◌, ◌||◌, List, [], ◌∷◌, ◌++◌, Option, none, some, Text, text_eq,
  is_empty, any, find, lowercase, if◌then◌else◌, ◌==◌, keep,
}
use appytizer_app_server.Services.Version.{parse_version}
use appytizer_app_server.Services.Provider.{
  InstalledVersion, ServiceStatus, no_status, ScmEntry, Windows, Provider, service_running,
  is_within,
}
pub mod Labels

abbrev contains : Text → Text → Bool
contains token normalized = elim (find token normalized) [ none ↦ false | some at ↦ true ]

abbrev pub is_token_of : List Text → Text → Bool
is_token_of tokens name = any (λ token. contains (lowercase token) (lowercase name)) tokens

-- A version with its label is there already.
abbrev pub is_known : List InstalledVersion → Text → Bool
is_known versions label = any (λ v. text_eq v.version_label label) versions

module _ (W : Windows) where
  add_service : ScmEntry → Provider → Provider
  unfolding parse_version
  add_service entry p =
      let service_name = W.narrow entry.name in
      let version = parse_version service_name in
      let found : InstalledVersion = record {
        version_label = version;
        executable_path = [];
        is_windows_service = true;
        windows_service_name = service_name;
      } in
      let p' : Provider = record p { versions = p.versions ++ (found ∷ []) } in
      let process_ids =
        if entry.process_id == 0 then p.status.process_ids else entry.process_id ∷ [] in
      if not (is_token_of p.service_tokens entry.name)
      then p
      else if not (entry.state == service_running)
      then p'
      else record p' {
        active = version;
        status = record p.status { running = true; process_ids = process_ids };
      }

  add_services : List ScmEntry → Provider → Provider
  unfolding add_service
  add_services [] p = p
  add_services (entry ∷ entries) p = add_services entries (add_service entry p)

  detect_services : Provider → Provider
  unfolding add_services
  detect_services p =
      if is_empty p.service_tokens
      then p
      else elim W.scm_entries [ none ↦ p | some entries ↦ add_services entries p ]

  add_executable : Text → Provider → Provider
  add_executable executable p =
      let version = W.version_of executable in
      let found : InstalledVersion = record {
        version_label = version;
        executable_path = executable;
        is_windows_service = false;
        windows_service_name = [];
      } in
      if is_known p.versions version then p else record p { versions = p.versions ++ (found ∷ []) }

  add_executables : List Text → Provider → Provider
  unfolding add_executable
  add_executables [] p = p
  add_executables (executable ∷ executables) p =
      add_executables executables (add_executable executable p)

  -- std::ranges::stable_sort by "is in the preferred root, and the other is not".
  abbrev pub preferred_first : Text → List Text → List Text
  unfolding is_within
  preferred_first root executables =
      keep (λ e. is_within W e root) executables ++ keep (λ e. not (is_within W e root)) executables

  detect_executables : List Text → Provider → Provider
  unfolding add_executables
  detect_executables executables p =
      add_executables (preferred_first p.preferred_root executables) p

  abbrev front_label : List InstalledVersion → Text
  front_label [] = []
  front_label (v ∷ vs) = v.version_label

  choose_active : Provider → Provider
  choose_active p =
      if is_empty p.active && not (is_empty p.versions)
      then record p { active = front_label p.versions }
      else p

  -- `executables` is what find_installed_executables finds for the provider.
  unfoldable pub detect : List Text → Provider → Provider
  unfolding detect_services detect_executables choose_active
  detect executables p = choose_active (
      detect_executables executables
        (detect_services (record p { versions = []; status = no_status })))
