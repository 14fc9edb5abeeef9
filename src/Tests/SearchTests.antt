-- ===== src/Tests/SearchTests.antt =====
-- The search for executables, and the built-in providers, at concrete inputs.
use appytizer_app_server.Base.{
  ◌≡◌, refl, Bool, true, false, List, [], ◌∷◌, ◌++◌, map, Option, none, some, Text, codes, text_eq,
  ends_with, All, ◌||◌, text_mem, arith,
}
use appytizer_app_server.Common.Config.{default_config}
use appytizer_app_server.Services.Paths.{join}
use appytizer_app_server.Services.Provider.{Provider}
use appytizer_app_server.Services.Fixed.{executable_version}
use appytizer_app_server.Services.Search.{
  no_more, broken, entry, Disk, Installed, UninstallItem, add_path, find_installed_executables,
}
use appytizer_app_server.Services.Search.Sorted.{IsAscending}
use appytizer_app_server.Services.Search.Growth.{IsExecutable}
use appytizer_app_server.Services.Search.Found.{
  find_installed_executables-IsExecutable, find_installed_executables-finds,
}
use appytizer_app_server.Services.Search.PathVariable.{
  folders_of, add_folders, add_path_misses_last,
}
use appytizer_app_server.Services.Builtin.{Environment, register_builtin_providers}
use appytizer_app_server.Tests.ServiceTests.{nginx}

-- Two copies of php-cgi.exe: one in C:\php\8.3, and one, in capitals, below it.
abbrev pub disk : Disk
disk = record {
  is_regular_file = λ path. ends_with (codes ".exe") path || ends_with (codes ".EXE") path;
  is_directory = λ path. text_eq path (codes "C:\\php");
  weakly_canonical = λ path. path;
  entries_of = λ root.
      entry (codes "readme.txt") true no_more
        (entry (codes "8.3") false (entry (codes "PHP-CGI.EXE") true no_more no_more) broken);
}

abbrev php_item : UninstallItem
php_item = record { opens = true; display = codes "PHP 8.3"; location = codes "C:\\php" }

abbrev pub installed : Installed
installed = record {
  machine_64 = php_item ∷ [];
  machine_32 = [];
  user = [];
  path = some (codes "C:\\a;C:\\b");
}

abbrev names : List Text
names = codes "php-cgi.exe" ∷ []

found_programs :
    find_installed_executables disk installed names [] (codes "php" ∷ [])
    ≡ some (
        codes "C:\\a\\php-cgi.exe"
        ∷ codes "C:\\php\\8.3\\PHP-CGI.EXE"
        ∷ codes "C:\\php\\php-cgi.exe"
        ∷ [])
unfolding find_installed_executables appytizer_app_server.Base.lower
found_programs = refl

version_of_folder : executable_version none (codes "C:\\php\\8.3\\php-cgi.exe") ≡ codes "8.3"
unfolding executable_version
version_of_folder = refl

version_of_resource :
    executable_version (some (record { version_ms = 0x80003; version_ls = 0x60000 })) []
    ≡ codes "8.3.6"
unfolding executable_version
version_of_resource = refl

find_installed_executables-IsExecutable_example :
    (found : List Text) × (find_installed_executables disk installed names [] (codes "php" ∷ [])
      ≡ some found)
    × IsAscending found
    × All (IsExecutable disk names) found
find_installed_executables-IsExecutable_example =
    find_installed_executables-IsExecutable disk installed names [] (codes "php" ∷ [])

abbrev php_root : List Text
php_root = codes "C:\\php" ∷ []

find_installed_executables-finds_example :
    (found : List Text) × (find_installed_executables disk installed names php_root [] ≡ some found)
    × (text_mem (disk.weakly_canonical (join (codes "C:\\php") (codes "php-cgi.exe"))) found ≡ true)
unfolding join
find_installed_executables-finds_example =
    find_installed_executables-finds disk installed names php_root [] (codes "php-cgi.exe")
      (codes "C:\\php") refl refl refl refl refl

add_path_misses_last_example :
    add_path disk names (some (codes "C:\\a" ++ (b';' ∷ codes "C:\\b"))) []
    ≡ some (add_folders disk names (folders_of (codes "C:\\a" ++ codes ";")) [])
add_path_misses_last_example =
    add_path_misses_last disk names (codes "C:\\a") (codes "C:\\b") [] refl refl

abbrev php : Provider
php = record nginx { executable_names = names; search_roots = php_root }

abbrev environment : Environment
environment = record {
  program_files = some (codes "C:\\Program Files");
  local_app_data = none;
  profiles = (codes "C:\\Users\\me", true) ∷ (codes "C:\\Users\\desktop.ini", false) ∷ [];
  module_name = some (codes "C:\\app\\engine.exe");
  data_directory = codes "C:\\data";
}

registered :
    map (λ (p : Provider). p.id) (register_builtin_providers environment default_config [])
    ≡ codes "nginx" ∷ codes "php" ∷ codes "mysql" ∷ codes "postgres" ∷ []
unfolding register_builtin_providers
registered = refl
