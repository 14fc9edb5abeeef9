-- ===== src/Lib.antt =====
-- Appytizer App Server: a Windows service (the Engine) that publishes the folders below a projects
-- root as <folder>.test, and a tray application that talks to it over a named pipe.
--
-- The parts and how they interact. The Engine (engine/engine.cpp) owns all of them. It lets the site
-- registry scan the projects root, issues a certificate for each valid site, writes and validates a
-- staged nginx configuration, activates it, rewrites its lines of the hosts file, restarts nginx, and
-- answers the requests of the tray application. The DNS responder answers queries for .test names.
--
-- Which file models which part, under the names of the code:
--   Dns            engine/dns/dns_server.cpp: a packet in, a packet or nothing out; Server: start, stop
--                  and the rounds of the thread.
--   Sites.Labels   engine/sites/site_registry.cpp: the validation of folder names.
--   Sites.Scan     the same file: the scan of the projects root, over a listing of the folder.
--   Sites.Database the interface to SQLite; Sites.Registry: rescan and list over it.
--   Sites.Nginx    the same file: the nginx files that are written for the sites.
--   Tls            engine/tls/certificate_manager.cpp: Hostname (valid_hostname), Crypto (the interface
--                  to OpenSSL, and the certificates that are asked for), Disk (files and state), Trust
--                  (the entry in LocalMachine\Root), Authority (the CA, provision), Leaf (the sites'
--                  certificates), Cleanup (obsolete files), Status.
--   Services       engine/services/providers.cpp and common/service_provider.hpp: Version
--                  (parse_version), Provider (start, stop, restart, status), Detect (detect), Builtin
--                  (the registry and the built-in providers); and detection_utils.cpp: Paths, Search
--                  (find_installed_executables over a tree of folders), Fixed (executable_version).
--   Engine         engine/engine.cpp: Subsystems (what it calls of its parts), Activation
--                  (activate_staged_configuration), Hosts (sync_hosts), Nginx (configure_nginx and the
--                  refresh), Reports (the JSON of lists and events), Settings (config.set), Messages
--                  (handle_message), Lifecycle (start and stop), Parts (the members of Engine, which are
--                  what Subsystems asks for).
--   Ipc            engine/ipc/pipe_server.cpp: Serving (serve_client), Server (a subscriber's queue
--                  and its writer, step by step), and appytizer-ui/ipc/pipe_client.cpp: Client (the rounds of listen), Request.
--   Ui             appytizer-ui/main.cpp: Actions (the effects and exceptions of a handler), Values,
--                  Images, Widgets, Rows and SiteRows (the rows of services and sites), App (the window's
--                  state), Views (the answers for services, sites and certificates), Settings (config.get
--                  and config.set, and the controls), Program (the loop over answers, events, controls).
--   Entry          engine/main.cpp: Service (service_main), Setup (install, uninstall), Arguments (wmain).
--   Common         common/: Json (the interface to the JSON library), Config (config.cpp), Protocol
--                  (ipc_protocol.cpp), Starting and Granting (windows_service.cpp).
--   Base           lists, texts, maps and numbers; Tests: runs, and the theorems at concrete inputs.
--
-- State is passed explicitly: an operation takes the state and gives the new one with its result.
-- An exception of the JSON library, or of path::string(), is a result of its own. What Windows,
-- OpenSSL, SQLite and the JSON library answer is a parameter: a record of answers, or an interface
-- over an unknown state, whose documented behaviour is a record of laws (IsLawful, MakesRoots). The
-- calls of the system that the code makes may fail in the model, writes that the code does not
-- check included; what is left out of that stands below. A text is the list of its bytes, a path
-- the text of it in UTF-8. The Engine's messages are modelled over the interface Engine.Subsystems;
-- Engine.Parts implements it with the operations of the other modules, over a sequence of the
-- system's answers, one for each call.
--
-- Fuel: decode_loop of the DNS responder takes the packet's length plus one, since each round reads
-- at least one byte; parse_version reads at most three groups; path_loop takes the length of PATH
-- plus one, and copy_scaled a number that the size of the image gives, which is more than their rounds. The
-- search for executables goes down a tree of folders, to the depth that the code fixes. All other
-- loops run over lists, or over a number of attempts that the code fixes.
--
-- What is not modelled: locks and threads (each operation is one step; the engine's mutexes give
-- that, but for the writer of a subscriber), the accepting thread of the pipe server, the folder
-- watcher, the paths that Windows gives (ConfigStore::default_path), the calls of OpenSSL below the
-- interface of Tls.Crypto, and of the window (appytizer-ui/main.cpp) the placing and painting of
-- widgets, the clipboard, the registry value of the autostart switch and the start of the service,
-- since nothing that the program keeps or sends depends on them. Log lines are left out. dump() of
-- the JSON library throws at text that is not UTF-8: this is modelled for the Engine's replies and
-- events, and all other text that is written as JSON is taken to be UTF-8. path::string() converts
-- to the system's code page: the texts of paths are what it gives, and that it throws is modelled
-- for the scan. A temporary file of atomic_write that cannot be removed stays in its folder, and is
-- left out.
mod Base
pub mod Dns
pub mod Sites
pub mod Common
pub mod Tls
pub mod Services
pub mod Ipc
pub mod Engine
pub mod Ui
pub mod Entry
mod Tests
