-- ===== src/Sites/Nginx.antt =====
-- SiteRegistry::write_nginx_configs and write_nginx_root_config in engine/sites/site_registry.cpp.
use appytizer_app_server.Base.{
  ℕ, zero, suc, ◌+◌, ◌/◌, ◌%◌, Bool, true, false, not, ◌||◌, List, [], ◌∷◌, ◌++◌, map, any, Text,
  codes, is_empty, ltb, ◌==◌, if◌then◌else◌,
}
use appytizer_app_server.Base.Dict.{Dict, insert}
use appytizer_app_server.Sites.Registry.{Site}
pub mod Written

-- path::generic_string.
abbrev generic_string : Text → Text
generic_string = map (λ c. if c == 92 then 47 else c)

abbrev pub quoted_path : Text → Text
quoted_path path = codes "\"" ++ (generic_string path ++ codes "\"")

-- A number in decimal, with that many digits at most: five for a port.
abbrev pub decimal : ℕ → ℕ → Text
decimal zero n = []
decimal (suc digits) n =
    let rest = decimal digits (n / 10) in (if ltb n 10 then [] else rest) ++ ((48 + n % 10) ∷ [])

-- Texts, one after the other, as a chain of `<<` writes them.
abbrev pub concat : List Text → Text
concat [] = []
concat (t ∷ ts) = t ++ concat ts

abbrev https_servers : Text → Text → Text
https_servers hostname certificates_directory =
    let base = certificates_directory ++ (codes "\\sites\\" ++ hostname) in
    concat (
      codes "server {\n"
      ∷ codes "  listen 80;\n"
      ∷ codes "  server_name "
      ∷ hostname
      ∷ codes ";\n"
      ∷ codes "  return 308 https://$host$request_uri;\n"
      ∷ codes "}\n\n"
      ∷ codes "server {\n"
      ∷ codes "  listen 443 ssl;\n"
      ∷ codes "  server_name "
      ∷ hostname
      ∷ codes ";\n"
      ∷ codes "  ssl_certificate "
      ∷ quoted_path (base ++ codes ".crt.pem")
      ∷ codes ";\n"
      ∷ codes "  ssl_certificate_key "
      ∷ quoted_path (base ++ codes ".key.pem")
      ∷ codes ";\n"
      ∷ [])

abbrev http_server : Text → Text
http_server hostname = concat (
    codes "server {\n"
    ∷ codes "  listen 80;\n"
    ∷ codes "  server_name "
    ∷ hostname
    ∷ codes ";\n"
    ∷ [])

abbrev locations : Text → Text → ℕ → Text
locations root params php_port = concat (
    codes "  root "
    ∷ quoted_path root
    ∷ codes ";\n"
    ∷ codes "  index index.php index.html;\n"
    ∷ codes "  location / { try_files $uri $uri/ /index.php?$query_string; }\n"
    ∷ codes "  location ~ \\.php$ {\n"
    ∷ codes "    include "
    ∷ params
    ∷ codes ";\n"
    ∷ codes "    fastcgi_pass 127.0.0.1:"
    ∷ decimal 5 php_port
    ∷ codes ";\n"
    ∷ codes "    fastcgi_param SCRIPT_FILENAME $document_root$fastcgi_script_name;\n"
    ∷ codes "  }\n"
    ∷ codes "}\n"
    ∷ [])

-- The arguments of write_nginx_configs.
pub record NginxOptions : Type 0 where
  pub https_enabled : Bool
  pub certificates_directory : Text
  pub php_port : ℕ
  pub fastcgi_params : Text

abbrev params_of : Text → Text
params_of fastcgi_params =
    if is_empty fastcgi_params then codes "fastcgi_params" else quoted_path fastcgi_params

unfoldable pub site_config : NginxOptions → Site → Text
site_config options site =
    (if options.https_enabled
      then https_servers site.hostname options.certificates_directory
      else http_server site.hostname)
    ++ locations site.path (params_of options.fastcgi_params) options.php_port

abbrev pub config_name : Site → Text
config_name site = site.hostname ++ codes ".conf"

-- Which file does not open, which write fails before the stream is tested or behind it, when the file
-- is closed, and what such a write leaves.
pub record OutputFaults : Type 0 where
  pub directories : Bool
  pub opening : Text → Bool
  pub writing : Text → Bool
  pub flushing : Text → Bool
  pub left : Text → Text

-- One file: it is empty or partly written where the write fails, which is not seen at the close.
unfoldable pub write_file : OutputFaults → Text → Text → Dict Text → Dict Text × Bool
write_file faults name text files =
    if faults.opening name
    then (files, false)
    else if faults.writing name
    then (insert name (faults.left text) files, false)
    else if faults.flushing name
    then (insert name (faults.left text) files, true)
    else (insert name text files, true)

-- The loop over the sites: it stops at the first file that is not written.
write_sites : OutputFaults → NginxOptions → List Site → Dict Text → Dict Text × Bool
unfolding write_file site_config
write_sites faults options [] files = (files, true)
write_sites faults options (site ∷ sites) files =
    let (files', written) = write_file faults (config_name site) (site_config options site) files in
    let skipped = write_sites faults options sites files in
    let rest = write_sites faults options sites files' in
    if not site.valid then skipped else if not written then (files', false) else rest

-- `sites` is what list() gives; the files are those of the folder `output`, by their names.
unfoldable pub write_nginx_configs :
    OutputFaults → NginxOptions → List Site → Dict Text → Dict Text × Bool
unfolding write_sites
write_nginx_configs faults options sites files =
    if faults.directories then (files, false) else write_sites faults options sites files

unfoldable pub root_config : Text → Bool → Text
root_config nginx_root https_enabled = concat (
    codes "worker_processes 1;\n"
    ∷ codes "error_log logs/error.log notice;\n"
    ∷ codes "pid logs/nginx.pid;\n"
    ∷ codes "events { worker_connections 1024; }\n"
    ∷ codes "http {\n"
    ∷ codes "  include "
    ∷ quoted_path (nginx_root ++ codes "\\conf\\mime.types")
    ∷ codes ";\n"
    ∷ codes "  default_type application/octet-stream;\n"
    ∷ codes "  sendfile on;\n"
    ∷ codes "  server_tokens off;\n"
    ∷ codes "  server { listen 80 default_server; server_name _; return 404; }\n"
    ∷ (if https_enabled
        then codes
            "  server { listen 443 ssl default_server; server_name _; ssl_reject_handshake on; }\n"
        else [])
    ∷ codes "  include ../../sites/*.conf;\n"
    ∷ codes "}\n"
    ∷ [])

-- `faults.directories` is the error of the last create_directories call, the only one that is tested.
unfoldable pub write_nginx_root_config :
    OutputFaults → Text → Text → Bool → Dict Text → Dict Text × Bool
unfolding write_file root_config
write_nginx_root_config faults output nginx_root https_enabled files =
    if faults.directories
    then (files, false)
    else write_file faults output (root_config nginx_root https_enabled) files
