-- ===== src/Services/Builtin.antt =====
-- ServiceRegistry in common/service_provider.hpp, and the providers that
-- engine/services/providers.cpp registers.
use appytizer_app_server.Base.{
  Bool, true, false, List, [], ◌∷◌, ◌++◌, map, Option, none, some, Text, codes, text_eq, is_empty,
  if◌then◌else◌, keep, not,
}
use appytizer_app_server.Base.Dict.{lookup}
use appytizer_app_server.Common.Config.{AppConfig}
use appytizer_app_server.Services.Paths.{join, parent_path}
use appytizer_app_server.Services.Fixed.{environment_path}
use appytizer_app_server.Services.Provider.{Windows, Provider, no_status}
use appytizer_app_server.Services.Search.{Disk, Installed, find_installed_executables}
use appytizer_app_server.Services.Detect.{detect}
pub mod Listed

abbrev pub ServiceRegistry : Type 0
ServiceRegistry = List Provider

abbrev pub add : Provider → ServiceRegistry → ServiceRegistry
add provider providers = providers ++ (provider ∷ [])

unfoldable pub get_by_id : Text → ServiceRegistry → Option Provider
get_by_id id [] = none
get_by_id id (provider ∷ providers) =
    if text_eq provider.id id then some provider else get_by_id id providers

-- A call through the pointer that get_by_id gives.
unfoldable pub call_by_id :
    Text → (Provider → Provider × Bool) → ServiceRegistry → ServiceRegistry × Bool
call_by_id id operation [] = ([], false)
call_by_id id operation (provider ∷ providers) =
    let (provider', result) = operation provider in
    let (providers', result') = call_by_id id operation providers in
    if text_eq provider.id id
    then (provider' ∷ providers, result)
    else (provider ∷ providers', result')

abbrev pub or_nothing : Option (List Text) → List Text
or_nothing none = []
or_nothing (some found) = found

module _ (D : Disk) (I : Installed) (W : Windows) where
  -- Provider::detect with the search that it makes.
  unfoldable pub detect_found : Provider → Provider
  unfolding find_installed_executables detect
  detect_found p =
      detect W
        (or_nothing
          (find_installed_executables D I p.executable_names p.search_roots p.registry_tokens))
        p

  unfoldable pub detect_all : ServiceRegistry → ServiceRegistry
  unfolding detect_found
  detect_all providers = map detect_found providers

-- What the registration asks of Windows. `profiles` are the entries of C:\Users that can be read,
-- each with whether it is a folder; `module_name` is the engine's own path, if it fits;
-- `data_directory` is where the settings stand.
pub record Environment : Type 0 where
  pub program_files : Option Text
  pub local_app_data : Option Text
  pub profiles : List (Text × Bool)
  pub module_name : Option Text
  pub data_directory : Text

abbrev or_empty : Option Text → Text
or_empty none = []
or_empty (some path) = path

abbrev pub configured_root : AppConfig → Text → Text
configured_root config id = or_empty (lookup id config.service_roots)

abbrev roots : List Text → List Text
roots values = keep (λ value. not (is_empty value)) values

profile_roots : List (Text × Bool) → Text → List Text
unfolding join
profile_roots [] relative_path = []
profile_roots ((profile, is_directory) ∷ profiles) relative_path =
    if is_directory
    then join profile relative_path ∷ profile_roots profiles relative_path
    else profile_roots profiles relative_path

bundled_runtime_directory : Option Text → Text
unfolding join parent_path
bundled_runtime_directory none = []
bundled_runtime_directory (some executable) = join (parent_path executable) (codes "runtime")

new_provider :
    Text → Text → List Text → List Text → List Text → List Text → Text → Text → Text → Provider
new_provider id name search_roots executable_names service_tokens registry_tokens arguments
      preferred_root preferred_arguments =
    record {
      id = id;
      display_name = name;
      active = [];
      executable_names = executable_names;
      search_roots = search_roots;
      registry_tokens = registry_tokens;
      service_tokens = service_tokens;
      arguments = arguments;
      preferred_root = preferred_root;
      preferred_arguments = preferred_arguments;
      versions = [];
      process = none;
      status = no_status;
    }

module _ (E : Environment) where
  nginx_provider : Provider
  unfolding new_provider bundled_runtime_directory
  nginx_provider =
      let bundled = bundled_runtime_directory E.module_name in
      new_provider (codes "nginx") (codes "nginx") (roots (bundled ∷ [])) (codes "nginx.exe" ∷ [])
        [] [] [] bundled []

  php_provider : AppConfig → Provider
  unfolding new_provider bundled_runtime_directory profile_roots join
  php_provider config =
      let program_files = environment_path E.program_files in
      let local = environment_path E.local_app_data in
      let bundled_php_root = join (bundled_runtime_directory E.module_name) (codes "php") in
      let php_ini = join (join E.data_directory (codes "php")) (codes "php.ini") in
      let php_roots = roots (
        configured_root config (codes "php")
        ∷ bundled_php_root
        ∷ codes "C:\\php"
        ∷ codes "C:\\tools\\php"
        ∷ join program_files (codes "PHP")
        ∷ join local (codes "Programs\\PHP")
        ∷ join local (codes "scoop\\apps\\php")
        ∷ []) in
      let user_roots =
        profile_roots E.profiles (codes "AppData\\Local\\Microsoft\\WinGet\\Packages")
        ++ profile_roots E.profiles (codes "AppData\\Local\\Programs") in
      new_provider (codes "php") (codes "PHP") (php_roots ++ user_roots) (codes "php-cgi.exe" ∷ [])
        [] (codes "PHP" ∷ []) (codes "-b 127.0.0.1:9000") bundled_php_root
        (codes "-c \"" ++ (php_ini ++ codes "\" -b 127.0.0.1:9000"))

  mysql_provider : AppConfig → Provider
  unfolding new_provider join
  mysql_provider config =
      let program_files = environment_path E.program_files in
      let mysql_roots = roots (
        configured_root config (codes "mysql")
        ∷ join program_files (codes "MySQL")
        ∷ join program_files (codes "MariaDB")
        ∷ []) in
      new_provider (codes "mysql") (codes "MySQL") mysql_roots (codes "mysqld.exe" ∷ [])
        (codes "mysql" ∷ codes "mariadb" ∷ []) (codes "MySQL" ∷ codes "MariaDB" ∷ []) [] [] []

  postgres_provider : AppConfig → Provider
  unfolding new_provider join
  postgres_provider config =
      let program_files = environment_path E.program_files in
      let postgres_roots = roots (
        configured_root config (codes "postgres") ∷ join program_files (codes "PostgreSQL") ∷ []) in
      new_provider (codes "postgres") (codes "PostgreSQL") postgres_roots
        (codes "postgres.exe" ∷ []) (codes "postgresql" ∷ []) (codes "PostgreSQL" ∷ []) [] [] []

  unfoldable pub register_builtin_providers : AppConfig → ServiceRegistry → ServiceRegistry
  unfolding nginx_provider php_provider mysql_provider postgres_provider
  register_builtin_providers config registry =
      add (postgres_provider config)
        (add (mysql_provider config) (add (php_provider config) (add nginx_provider registry)))
