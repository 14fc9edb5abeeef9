-- ===== src/Tests/PartsTests.antt =====
-- The members of Engine in engine/engine.hpp, with a database in memory and one nginx.
use appytizer_app_server.Base.{ℕ, refl, true, false, [], ◌∷◌, none, some, codes}
use appytizer_app_server.Dns.Server.{new_server}
use appytizer_app_server.Engine.Nginx.{nginx_executable, configure_nginx}
use appytizer_app_server.Engine.Answers.{Answers, Paths}
use appytizer_app_server.Engine.Parts.{Members, parts}
use appytizer_app_server.Engine.Parts.Kept.{IsUndoable, Served, configure_nginx-Served}
use appytizer_app_server.Tests.CodedJson.{coded_json}
use appytizer_app_server.Tests.CommonTests.{no_files, renamed_again}
use appytizer_app_server.Tests.EngineTests.{no_faults, system, hosts_file}
use appytizer_app_server.Tests.Memory.{no_rows, memory}
use appytizer_app_server.Tests.NginxTests.{sound}
use appytizer_app_server.Tests.SearchTests.{disk, installed}
use appytizer_app_server.Tests.ServiceTests.{windows, nginx}
use appytizer_app_server.Tests.SitesTests.{projects}
use appytizer_app_server.Tests.ToyCrypto.{toy_crypto, sound_system, fresh_manager}

abbrev works : ℕ → Answers
works n = record {
  folder = λ root. projects;
  names_throw = false;
  output = sound;
  windows = windows;
  windows_again = windows;
  disk = disk;
  installed = installed;
  system = sound_system;
  sites_folder = record { value = true; failed = false };
  removal_fails = λ name. false;
  sites_left = λ sites. none;
  root_left = λ root. none;
  accepts = λ executable sites root. true;
  faults = no_faults;
  hosts_system = system;
  sockets = record { started_up = true; created = true; bound = true };
  wakes = true;
  saving = renamed_again;
}

abbrev paths : Paths
paths = record {
  data_directory = codes "C:\\ProgramData\\Appytizer";
  certificates_directory = codes "C:\\ProgramData\\Appytizer\\tls";
}

abbrev members : Members coded_json toy_crypto (memory false) paths works
members = record {
  clock = 0;
  database = some no_rows;
  registry = nginx ∷ [];
  certificates = fresh_manager;
  tree = record {
    staged_sites = none;
    staged_root = none;
    active_sites = none;
    active_root = none;
    backup_sites = none;
    backup_root = none;
  };
  staged = [];
  hosts = some hosts_file;
  settings = no_files;
  dns = new_server;
  serving = false;
  subscribers = [];
  watched = none;
}

works-IsUndoable : IsUndoable works
works-IsUndoable = record {
  undoes = λ n. record {
    restore_works = refl;
    undo_works = refl;
    return_sites_works = refl;
    return_root_works = refl;
  };
  removes = λ n. refl;
}

configure_nginx-Served_example :
    Served coded_json toy_crypto
      (memory false)
      paths
      works
      (nginx_executable (parts coded_json toy_crypto (memory false) paths works) members)
      members
      (configure_nginx (parts coded_json toy_crypto (memory false) paths works) false members)
configure_nginx-Served_example =
    configure_nginx-Served coded_json toy_crypto (memory false) paths works works-IsUndoable false
      members
