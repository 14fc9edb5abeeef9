-- ===== src/Tests/NginxTests.antt =====
-- The nginx files at a concrete input.
use appytizer_app_server.Base.{◌≡◌, refl, true, false, [], ◌∷◌, All, some, codes, find}
use appytizer_app_server.Sites.Registry.{Site}
use appytizer_app_server.Sites.Nginx.{NginxOptions, OutputFaults, site_config, write_nginx_configs}
use appytizer_app_server.Sites.Nginx.Written.{IsServed, write_nginx_configs-IsServed}

abbrev shop : Site
shop = record {
  name = codes "shop";
  hostname = codes "shop.test";
  path = codes "C:\\sites\\shop";
  type = codes "php";
  has_index = true;
  valid = true;
  error = [];
}

abbrev bad : Site
bad = record shop { hostname = codes "bad_name.test"; valid = false; error = codes "invalid" }

abbrev options : NginxOptions
options = record {
  https_enabled = false;
  certificates_directory = codes "C:\\certificates";
  php_port = 9000;
  fastcgi_params = [];
}

abbrev pub sound : OutputFaults
sound = record {
  directories = false;
  opening = λ name. false;
  writing = λ name. false;
  flushing = λ name. false;
  left = λ text. [];
}

shop_root : find (codes "root \"C:/sites/shop\";\n") (site_config options shop) ≡ some 49
unfolding site_config
shop_root = refl

write_nginx_configs-IsServed_example :
    All
      (IsServed sound options (write_nginx_configs sound options (shop ∷ bad ∷ []) []).0)
      (shop ∷ bad ∷ [])
unfolding write_nginx_configs
write_nginx_configs-IsServed_example =
    write_nginx_configs-IsServed sound options (shop ∷ bad ∷ []) [] (λ name. refl) refl refl
