-- ===== src/Services/Builtin/Listed.antt =====
-- What the registered providers in engine/services/providers.cpp list.
use appytizer_app_server.Base.{
  ◌≡◌, ap, ◌∙◌, Bool, true, false, List, [], ◌∷◌, arith, Text, text_eq, text_eq_iff, text_eq_refl,
  text_mem, any, is_empty,
}
use appytizer_app_server.Services.Paths.{c_str, join}
use appytizer_app_server.Services.Provider.{Windows, Provider}
use appytizer_app_server.Services.Search.{Disk, Installed, is_regular}
use appytizer_app_server.Services.Search.Found.{find_installed_executables-finds}
use appytizer_app_server.Services.Detect.{detect, is_known}
use appytizer_app_server.Services.Detect.Labels.{are_distinct, detect-labels}
use appytizer_app_server.Services.Builtin.{or_nothing, detect_found}

any-text_mem :
    (test : Text → Bool) (path : Text) (found : List Text)
    → text_mem path found ≡ true
    → test path ≡ true
    → any test found ≡ true
any-text_mem test path [] listed passes = absurd cc
any-text_mem test path (other ∷ found) listed passes =
    ground
      (arith, any-text_mem test path found, text_eq_iff path other, ap test {x = path} {y = other})

module _ (D : Disk) (I : Installed) (W : Windows) where
  -- A detection by a provider without service tokens lists every program that stands, under one of
  -- the provider's names, directly in one of its folders: the version of the program is among the
  -- labels that are listed, and no label is listed twice.
  pub detect_found-is_known :
      (p : Provider) (name root : Text)
      → p.service_tokens ≡ []
      → text_mem name p.executable_names ≡ true
      → text_mem root p.search_roots ≡ true
      → is_empty root ≡ false
      → D.is_directory (c_str root) ≡ true
      → is_regular D (join root name) ≡ true
      → (is_known
            (detect_found D I W p).versions
            (W.version_of (D.weakly_canonical (join root name)))
          ≡ true)
        × (are_distinct (detect_found D I W p).versions ≡ true)
  unfolding detect_found
  detect_found-is_known p name root no_tokens asked listed given dir regular =
      let path = D.weakly_canonical (join root name) in
      let label = W.version_of path in
      let (found, result, is_found) =
        find_installed_executables-finds D I p.executable_names p.search_roots p.registry_tokens
          name root asked listed given dir regular in
      let (d, k) = detect-labels W found p label no_tokens in
      let same = ap (λ o. (detect W (or_nothing o) p).versions) result in
      (
        ap (λ vs. is_known vs label) same
            ∙ (k
                ∙ any-text_mem (λ e. text_eq (W.version_of e) label) path found is_found
                    (text_eq_refl label)),
        ap are_distinct same ∙ d,
      )
