-- ===== src/Entry/Setup.antt =====
-- install, uninstall and start_service in engine/main.cpp.
use appytizer_app_server.Base.{
  ℕ, Bool, true, false, not, ◌&&◌, ◌||◌, List, [], ◌∷◌, ◌++◌, Option, none, some, Text, is_empty,
  ◌==◌, if◌then◌else◌,
}
use appytizer_app_server.Common.Json.{JsonLib}
use appytizer_app_server.Common.Config.{AppConfig, Stored, SaveFaults, load, save}
use appytizer_app_server.Common.Starting.{
  ServiceStartResult, running, not_installed, access_denied, failed, StartAnswers,
  start_windows_service, error_service_does_not_exist, error_service_already_running,
}
use appytizer_app_server.Engine.Hosts.{HostsSystem, sync_hosts}
use appytizer_app_server.Tls.Crypto.{Crypto}
use appytizer_app_server.Tls.Disk
use appytizer_app_server.Tls.Disk.{System, Manager, Reply}
use appytizer_app_server.Tls.Authority.{provision}
use appytizer_app_server.Tls.Trust.{remove}
pub mod Removed
pub mod Installed

-- What the two change: the hosts file, the certificates, the settings, and the service's registration
-- with its actions at a failure.
pub record Machine (J : JsonLib) : Type 0 where
  pub hosts : Option Text
  pub certificates : Manager
  pub settings : Stored J
  pub legacy_settings : Stored J
  pub is_registered : Bool
  pub restarts : Bool

-- The answers of the service control manager to uninstall: the error where the service does not open.
-- The stop, and the wait for it of at most 100 rounds, change nothing that uninstall looks at.
pub record Unregistering : Type 0 where
  pub open_error : Option ℕ
  pub deletes : Bool

-- What install is told: whether the settings exist, if that is known; what saving them meets; and the
-- answers about its own path and of the service control manager.
pub record Registering : Type 0 where
  pub settings_exist : Option Bool
  pub faults : SaveFaults
  pub path_found : Bool
  pub manager_opens : Bool
  -- The error where the service is not created.
  pub create_error : Option ℕ
  pub opens : Bool
  pub access_granted : Bool
  pub start_error : Option ℕ

abbrev error_service_exists : ℕ
error_service_exists = 1073

abbrev is_success : Reply → Bool
is_success Disk.succeeded = true
is_success Disk.failed = false
is_success Disk.thrown = false

unfoldable pub start_service : StartAnswers → Bool
unfolding start_windows_service
start_service answers = elim (start_windows_service answers) [
  | running ↦ true
  | not_installed ↦ false
  | access_denied ↦ false
  | failed ↦ false
]

-- A service that does not open is no obstacle where it does not exist.
abbrev pub unless_denied : {A : Type 0} → Option ℕ → A → A → A
unless_denied none go stop = go
unless_denied (some error) go stop = if error == error_service_does_not_exist then go else stop

module _ (J : JsonLib) (C : Crypto) (S : System) where
  -- `return !service || DeleteService(...)`
  abbrev pub delete_opened : Option ℕ → Bool → Machine J → Machine J × Bool
  delete_opened (some error) deletes m = (m, true)
  delete_opened none deletes m =
      (record m { is_registered = m.is_registered && not deletes }, deletes)

  abbrev pub delete_service : Unregistering → Machine J → Machine J × Bool
  delete_service answers m = delete_opened answers.open_error answers.deletes m

  remove_certificates : Unregistering → Machine J → Machine J × Bool
  unfolding remove
  remove_certificates answers m =
      let (certificates, reply) = remove J C S m.certificates in
      let removed : Machine J = record m { certificates = certificates } in
      if is_success reply then delete_service answers removed else (removed, false)

  clean_hosts : HostsSystem → Unregistering → Machine J → Machine J × Bool
  unfolding remove_certificates sync_hosts
  clean_hosts system answers m =
      let result = sync_hosts system [] m.hosts in
      let cleaned : Machine J = record m { hosts = result.file } in
      if result.ok then remove_certificates answers cleaned else (cleaned, false)

  unfoldable pub uninstall : HostsSystem → Unregistering → Machine J → Machine J × Bool
  unfolding clean_hosts
  uninstall system answers m =
      unless_denied answers.open_error (clean_hosts system answers m) (m, false)

  abbrev is_missing : Option Bool → Bool
  is_missing none = false
  is_missing (some exists) = not exists

  -- The settings of older versions, if there are none yet.
  migrate : Registering → Machine J → Machine J × Bool
  unfolding load save
  migrate answers m =
      let existing = load J m.legacy_settings in
      let (settings, saved) = save J answers.faults existing m.settings in
      if not (is_missing answers.settings_exist) || is_empty existing.root_folder
      then (m, true)
      else (record m { settings = settings }, saved)

  abbrev is_started : Option ℕ → Bool
  is_started none = true
  is_started (some error) = error == error_service_already_running

  abbrev is_opened : Registering → Bool
  is_opened answers = elim answers.create_error [
    | none ↦ true
    | some error ↦ (error == error_service_exists) && answers.opens
  ]

  abbrev is_created : Option ℕ → Bool
  is_created none = true
  is_created (some error) = false

  register : Registering → Machine J → Machine J × Bool
  register answers m =
      let registered : Machine J = record m {
        is_registered = m.is_registered || is_created answers.create_error;
      } in
      if not answers.path_found || not answers.manager_opens
      then (m, false)
      else if not (is_opened answers) || not answers.access_granted
      then (registered, false)
      else (record registered { restarts = true }, is_started answers.start_error)

  provision_certificates : Registering → Machine J → Machine J × Bool
  unfolding provision register
  provision_certificates answers m =
      let (certificates, reply) = provision J C S m.certificates in
      let provisioned : Machine J = record m { certificates = certificates } in
      if is_success reply then register answers provisioned else (provisioned, false)

  unfoldable pub install : Registering → Machine J → Machine J × Bool
  unfolding migrate provision_certificates
  install answers m =
      let (migrated, ok) = migrate answers m in
      if ok then provision_certificates answers migrated else (migrated, false)
