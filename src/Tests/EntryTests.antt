-- ===== src/Tests/EntryTests.antt =====
-- The service and its setup at concrete inputs.
use appytizer_app_server.Base.{◌≡◌, refl, true, false, [], ◌∷◌, none, some, codes}
use appytizer_app_server.Base.Dict.{lookup, insert}
use appytizer_app_server.Common.Config.{Stored}
use appytizer_app_server.Engine.Hosts.{HostsSystem}
use appytizer_app_server.Tls.Authority.{provision}
use appytizer_app_server.Tls.Status.{status}
use appytizer_app_server.Entry.Service.{
  start_pending, running, stop_pending, stopped, Run, service_main,
}
use appytizer_app_server.Entry.Service.Stopped.{service_main_deaf}
use appytizer_app_server.Entry.Setup.{Machine, Unregistering, Registering, install}
use appytizer_app_server.Entry.Setup.Installed.{install-status}
use appytizer_app_server.Entry.Arguments.{command_of, provision_tls, start_engine_service}
use appytizer_app_server.Tests.CodedJson.{coded_json}
use appytizer_app_server.Tests.ToyCrypto.{
  toy_crypto, toy_crypto-MakesRoots, sound_system, fresh_manager,
}

-- The arguments that the tray application starts the Engine with.
arguments :
    (command_of (codes "--provision-tls" ∷ []) ≡ provision_tls)
    × (command_of (codes "--start-service" ∷ []) ≡ start_engine_service)
unfolding command_of
arguments = (refl, refl)

-- A stop while the Engine starts.
abbrev service_run : Run
service_run = record {
  registered = true;
  starts = true;
  before = [];
  starting = 4 ∷ 1 ∷ [];
  later = [];
}

reported : service_main service_run ≡ some (start_pending ∷ stop_pending ∷ running ∷ stopped ∷ [])
unfolding service_main
reported = refl

-- A stop that comes too early.
abbrev early : Run
early = record { registered = true; starts = true; before = 1 ∷ []; starting = []; later = [] }

service_main_deaf_example : service_main early ≡ none
service_main_deaf_example = service_main_deaf early refl refl refl refl

abbrev no_settings : Stored coded_json
no_settings = record { own = none; legacy = none; temporary = none; is_default = true }

abbrev machine : Machine coded_json
machine = record {
  hosts = some (codes "127.0.0.1\tshop.test\t# Appytizer\n");
  certificates = fresh_manager;
  settings = no_settings;
  legacy_settings = no_settings;
  is_registered = true;
  restarts = true;
}

abbrev installed : Machine coded_json
installed = record machine {
  certificates = (provision coded_json toy_crypto sound_system fresh_manager).0;
}

abbrev hosts_system : HostsSystem
hosts_system = record {
  override_set = false;
  windows_directory_found = true;
  can_write = true;
  write_fails = false;
  left = λ text. text;
}

abbrev answers : Unregistering
answers = record { open_error = none; deletes = true }

abbrev registering : Registering
registering = record {
  settings_exist = some true;
  faults = record {
    opening = false;
    writing = false;
    left = λ text. text;
    renaming = false;
    removing = false;
    renaming_again = false;
  };
  path_found = true;
  manager_opens = true;
  create_error = some 1073;
  opens = true;
  access_granted = true;
  start_error = some 1056;
}

install-status_example :
    let after =
      status coded_json toy_crypto sound_system []
        (install coded_json toy_crypto sound_system registering machine).0.certificates in
    (after.ready ≡ true) × (after.trusted ≡ true)
unfolding install provision lookup insert
install-status_example =
    install-status coded_json toy_crypto sound_system registering [] machine toy_crypto-MakesRoots
      refl refl
