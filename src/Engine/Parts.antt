-- ===== src/Engine/Parts.antt =====
-- The members of Engine in engine/engine.hpp, as an implementation of Engine.Subsystems: what each
-- call of engine/engine.cpp does to them.
use appytizer_app_server.Base.{
  ℕ, ◌+◌, Bool, true, false, List, [], ◌∷◌, ◌++◌, map, keep, Option, none, some, Text, codes,
  text_mem, starts_with, drop, not, ◌||◌, if◌then◌else◌,
}
use appytizer_app_server.Base.Dict.{Dict, lookup}
use appytizer_app_server.Common.Json.{JsonLib}
use appytizer_app_server.Common.Config.{AppConfig, Stored}
use appytizer_app_server.Common.Config
use appytizer_app_server.Dns.Server.{DnsServer}
use appytizer_app_server.Dns.Server
use appytizer_app_server.Engine.Activation.{Tree, exists}
use appytizer_app_server.Engine.Answers.{Answers, Paths}
use appytizer_app_server.Engine.Activation
use appytizer_app_server.Engine.Hosts
use appytizer_app_server.Engine.Subsystems.{Subsystems}
use appytizer_app_server.Ipc.Server.{Subscriber}
use appytizer_app_server.Ipc.Server as IpcServer
use appytizer_app_server.Services.Builtin.{ServiceRegistry, get_by_id, call_by_id}
use appytizer_app_server.Services.Builtin
use appytizer_app_server.Services.Paths.{parent_path, join}
use appytizer_app_server.Services.Provider.{
  Provider, Windows, InstalledVersion, ServiceStatus, no_status,
}
use appytizer_app_server.Services.Provider as Program
use appytizer_app_server.Sites.Database.{Database}
use appytizer_app_server.Sites.Nginx.{NginxOptions}
use appytizer_app_server.Sites.Nginx
use appytizer_app_server.Sites.Registry.{Site}
use appytizer_app_server.Sites.Registry
use appytizer_app_server.Tls.Crypto.{Crypto}
use appytizer_app_server.Tls.Disk.{Manager, Reply, StoredFile, reply_of}
use appytizer_app_server.Tls.Status.{TlsStatus}
use appytizer_app_server.Tls.Status
use appytizer_app_server.Tls.Leaf
use appytizer_app_server.Tls.Cleanup
pub mod Kept

-- The text that stands for a folder of files.
abbrev pub folder_text : Dict Text → Text
folder_text [] = []
folder_text ((name, text) ∷ files) = name ++ (0 ∷ (text ++ (0 ∷ folder_text files)))

abbrev root_name : Text
root_name = codes "nginx.conf"

abbrev root_file : Option Text → Dict Text
root_file none = []
root_file (some text) = (root_name, text) ∷ []

-- The names of the files in the folder `sites` of the certificates.
abbrev site_files : Dict StoredFile → List Text
site_files [] = []
site_files ((path, file) ∷ files) =
    if starts_with (codes "sites/") path then drop 6 path ∷ site_files files else site_files files

abbrev retained : List Text → Dict StoredFile → Dict StoredFile
retained names files =
    keep
      (λ (entry : Text × StoredFile).
        not (starts_with (codes "sites/") entry.0) || text_mem (drop 6 entry.0) names)
      files

abbrev name_of : Option Provider → Text
name_of none = []
name_of (some p) = p.display_name

abbrev versions_of : Option Provider → List InstalledVersion
versions_of none = []
versions_of (some p) = p.versions

abbrev status_of : Windows → Option Provider → ServiceStatus
status_of W none = no_status
status_of W (some p) = Program.status W p

module _ (J : JsonLib) (C : Crypto) (D : Database) (paths : Paths) (answers : ℕ → Answers) where
  -- `clock` counts the calls that are answered.
  pub record Members : Type 0 where
    pub clock : ℕ
    pub database : Option D.State
    pub registry : ServiceRegistry
    pub certificates : Manager
    pub tree : Tree
    pub staged : Dict Text
    pub hosts : Option Text
    pub settings : Stored J
    pub dns : DnsServer
    pub serving : Bool
    pub subscribers : List Subscriber
    pub watched : Option Text

  abbrev now : Members → Answers
  now s = answers s.clock

  abbrev tick : Members → Members
  tick s = record s { clock = s.clock + 1 }

  abbrev on_provider : Text → (Provider → Provider × Bool) → Members → Members × Bool
  on_provider id operation s =
      let (registry, ok) = call_by_id id operation s.registry in
      (record (tick s) { registry = registry }, ok)

  abbrev write_configs : Bool → Text → Members → Members × Bool
  write_configs https executable s =
      let options : NginxOptions = record {
        https_enabled = https;
        certificates_directory = paths.certificates_directory;
        php_port = 9000;
        fastcgi_params =
            join (join (parent_path executable) (codes "conf")) (codes "fastcgi_params");
      } in
      let (files, ok) =
        Nginx.write_nginx_configs (now s).output options (Registry.list D s.database) s.staged in
      (
        record (tick s) {
          staged = files;
          tree =
              if (now s).output.directories
              then s.tree
              else record s.tree { staged_sites = some (folder_text files) };
        },
        ok,
      )

  abbrev write_main_config : Bool → Text → Members → Members × Bool
  write_main_config https executable s =
      let (files, ok) =
        Nginx.write_nginx_root_config (now s).output root_name (parent_path executable) https
          (root_file s.tree.staged_root) in
      (record (tick s) { tree = record s.tree { staged_root = lookup root_name files } }, ok)

  abbrev remove_staging : Members → Members
  remove_staging s =
      let sites = (now s).sites_left s.tree.staged_sites in
      record (tick s) {
        staged = if exists sites then s.staged else [];
        tree = record s.tree {
          staged_sites = sites;
          staged_root = (now s).root_left s.tree.staged_root;
        };
      }

  abbrev activate : Members → Members × Bool
  activate s =
      let (tree, ok) = Activation.activate_staged_configuration (now s).faults s.tree in
      (record (tick s) { tree = tree }, ok)

  abbrev issue_certificate : Text → Members → Members × Reply
  issue_certificate hostname s =
      let (manager, reply) =
        Leaf.ensure_site_certificate J C (now s).system hostname s.certificates in
      (record (tick s) { certificates = manager }, reply)

  abbrev remove_unused_certificates : List Text → Members → Members × Bool
  remove_unused_certificates hostnames s =
      let (names, ok) =
        Cleanup.remove_unused_site_certificates (now s).sites_folder (now s).removal_fails hostnames
          (site_files s.certificates.files) in
      (
        record (tick s) {
          certificates = record s.certificates { files = retained names s.certificates.files };
        },
        ok,
      )

  abbrev rescan_reply : Option D.State → Bool → Bool → Reply
  rescan_reply none throws ok = Reply.failed
  rescan_reply (some state) true ok = Reply.thrown
  rescan_reply (some state) false ok = reply_of ok

  -- An exception comes from the scan, before the database is written.
  abbrev rescan_sites : Text → Members → Members × Reply
  rescan_sites root s =
      let throws = (now s).names_throw in
      let (database, ok) = Registry.rescan D ((now s).folder root) s.database in
      (
        record (tick s) { database = if throws then s.database else database },
        rescan_reply s.database throws ok,
      )

  abbrev write_hosts : List Site → Members → Members × Bool
  write_hosts sites s =
      let result = Hosts.sync_hosts (now s).hosts_system sites s.hosts in
      (record (tick s) { hosts = result.file }, result.ok)

  abbrev start_dns : Members → Members × Bool
  start_dns s =
      let (dns, ok) = Server.start (now s).sockets s.dns in (record (tick s) { dns = dns }, ok)

  abbrev save_config : AppConfig → Members → Members × Bool
  save_config config s =
      let (settings, ok) = Config.save J (now s).saving config s.settings in
      (record (tick s) { settings = settings }, ok)

  abbrev set_arguments : Text → Text → Members → Members
  set_arguments id arguments s =
      (on_provider id (λ p. (Program.set_launch_arguments arguments p, true)) s).0

  abbrev pub parts : Subsystems
  parts = record {
    State = Members;
    rescan = rescan_sites;
    list = λ s. Registry.list D s.database;
    write_nginx_configs = write_configs;
    write_nginx_root_config = write_main_config;
    all = λ s. map (λ (p : Provider). p.id) s.registry;
    display_name = λ id s. name_of (get_by_id id s.registry);
    versions = λ id s. versions_of (get_by_id id s.registry);
    service_status = λ id s. status_of (now s).windows (get_by_id id s.registry);
    start_service = λ id version s. on_provider id (Program.start (now s).windows version) s;
    stop_service = λ id s. on_provider id (Program.stop (now s).windows) s;
    restart_service = λ id version s.
        on_provider id (Program.restart (now s).windows (now s).windows_again version) s;
    set_launch_arguments = set_arguments;
    detect_all = λ s. record (tick s) {
      registry = Builtin.detect_all (now s).disk (now s).installed (now s).windows s.registry;
    };
    tls_status =
        λ s. Status.status J C (now s).system (site_files s.certificates.files) s.certificates;
    ensure_site_certificate = issue_certificate;
    remove_unused_site_certificates = remove_unused_certificates;
    data_directory = paths.data_directory;
    active_config_exists = λ s. exists s.tree.active_root;
    remove_staging = remove_staging;
    run_nginx_validation =
        λ executable s. (now s).accepts executable s.tree.staged_sites s.tree.staged_root;
    activate_staged_configuration = activate;
    sync_hosts = write_hosts;
    dns_start = start_dns;
    dns_stop = λ s. record (tick s) { dns = Server.stop (now s).wakes s.dns };
    dns_running = λ s. s.dns.running;
    ipc_start = λ s. record s { serving = true };
    ipc_stop = λ s. record s { serving = false; subscribers = [] };
    broadcast = λ event s. record s { subscribers = IpcServer.broadcast event s.subscribers };
    watch = λ root s. record s { watched = some root };
    watcher_stop = λ s. record s { watched = none };
    save = save_config;
  }
