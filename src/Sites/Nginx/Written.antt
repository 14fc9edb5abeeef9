-- ===== src/Sites/Nginx/Written.antt =====
-- Which nginx files are written.
use appytizer_app_server.Base.{
  ◌≡◌, refl, sym, ap, subst, ◌∙◌, inl, inr, Bool, true, false, not, ◌||◌, ◌&&◌, List, [], ◌∷◌, any,
  All, arith, Bool-cases, some, Text, text_eq, text_eq_refl, if◌then◌else◌,
}
use appytizer_app_server.Base.Dict.{Dict, lookup, lookup-insert}
use appytizer_app_server.Sites.Registry.{Site}
use appytizer_app_server.Sites.Nginx.{
  NginxOptions, OutputFaults, site_config, config_name, write_file, write_sites,
  write_nginx_configs,
}

-- Some valid site has the file of that name.
abbrev pub is_config_of : List Site → Text → Bool
is_config_of sites name = any (λ (site : Site). site.valid && text_eq (config_name site) name) sites

-- The valid sites have files of different names.
abbrev pub are_separate : List Site → Bool
are_separate [] = true
are_separate (site ∷ sites) =
    (not site.valid || not (is_config_of sites (config_name site))) && are_separate sites

write_file-other :
    (faults : OutputFaults) (name text asked : Text) (files : Dict Text)
    → text_eq name asked ≡ false
    → lookup asked (write_file faults name text files).0 ≡ lookup asked files
unfolding write_file
write_file-other faults name text asked files other = ground (
  arith,
  other,
  lookup-insert name asked text files,
  lookup-insert name asked (faults.left text) files,
)

write_file-written :
    (faults : OutputFaults) (name text : Text) (files : Dict Text)
    → faults.flushing name ≡ false
    → (write_file faults name text files).1 ≡ true
    → lookup name (write_file faults name text files).0 ≡ some text
unfolding write_file
write_file-written faults name text files flushed h =
    ground (arith, flushed, text_eq_refl name, lookup-insert name name text files)

module _ (faults : OutputFaults) (options : NginxOptions) where
  write_sites-other :
      (sites : List Site) (asked : Text) (files : Dict Text)
      → is_config_of sites asked ≡ false
      → lookup asked (write_sites faults options sites files).0 ≡ lookup asked files
  unfolding write_sites
  write_sites-other [] asked files h = refl
  write_sites-other (site ∷ sites) asked files h =
      let files' = (write_file faults (config_name site) (site_config options site) files).0 in
      ground (
        arith,
        write_file-other faults (config_name site) (site_config options site) asked files,
        write_sites-other sites asked files,
        write_sites-other sites asked files',
      )

  -- The file of the site holds its configuration, where the site is valid.
  abbrev pub IsServed : Dict Text → Site → Type 0
  IsServed files site =
      (if site.valid then lookup (config_name site) files else some (site_config options site))
      ≡ some (site_config options site)

  skip_invalid :
      (site : Site) (sites : List Site) (files : Dict Text)
      → site.valid ≡ false
      → write_sites faults options (site ∷ sites) files ≡ write_sites faults options sites files
  unfolding write_sites
  skip_invalid site sites files invalid = rw (write_sites, invalid) refl

  write_first :
      (site : Site) (sites : List Site) (files : Dict Text)
      → site.valid ≡ true
      → (write_sites faults options (site ∷ sites) files).1 ≡ true
      → let r = write_file faults (config_name site) (site_config options site) files in
        (r.1 ≡ true)
        × (write_sites faults options (site ∷ sites) files ≡ write_sites faults options sites r.0)
  unfolding write_sites
  write_first site sites files valid h = ground arith

  found-IsServed :
      (files : Dict Text) (site : Site)
      → lookup (config_name site) files ≡ some (site_config options site)
      → IsServed files site
  found-IsServed files site h = ground arith

  invalid-IsServed : (files : Dict Text) (site : Site) → site.valid ≡ false → IsServed files site
  invalid-IsServed files site h = ground arith

  write_sites-IsServed :
      (sites : List Site) (files : Dict Text)
      → ((name : Text) → faults.flushing name ≡ false)
      → are_separate sites ≡ true
      → (write_sites faults options sites files).1 ≡ true
      → All (IsServed (write_sites faults options sites files).0) sites
  write_sites-IsServed [] files flushed s h = tt
  write_sites-IsServed (site ∷ sites) files flushed s h = elim (Bool-cases site.valid) [
    | inr invalid ↦
        let same = skip_invalid site sites files invalid in
        subst (λ r. All (IsServed r.0) (site ∷ sites)) (sym same)
          (
            invalid-IsServed (write_sites faults options sites files).0 site invalid,
            write_sites-IsServed sites files flushed (ground arith) (ap (λ r. r.1) (sym same) ∙ h),
          )
    | inl valid ↦
        let (written, same) = write_first site sites files valid h in
        let files' = (write_file faults (config_name site) (site_config options site) files).0 in
        let kept = write_sites-other sites (config_name site) files' (ground arith) in
        subst (λ r. All (IsServed r.0) (site ∷ sites)) (sym same)
          (
            found-IsServed (write_sites faults options sites files').0 site (
                kept
                ∙ write_file-written faults (config_name site) (site_config options site) files
                    (flushed (config_name site)) written),
            write_sites-IsServed sites files' flushed (ground arith) (ap (λ r. r.1) (sym same) ∙ h),
          )
  ]

  -- A file that is none of a valid site's is as it was after the nginx files are written, whatever
  -- fails.
  pub write_nginx_configs-other :
      (sites : List Site) (asked : Text) (files : Dict Text)
      → is_config_of sites asked ≡ false
      → lookup asked (write_nginx_configs faults options sites files).0 ≡ lookup asked files
  unfolding write_nginx_configs
  write_nginx_configs-other sites asked files other =
      ground (arith, write_sites-other sites asked files other)

  -- If writing the nginx files succeeds, no write fails when a file is closed, and the valid sites have
  -- files of different names, then the file of each valid site holds its configuration.
  pub write_nginx_configs-IsServed :
      (sites : List Site) (files : Dict Text)
      → ((name : Text) → faults.flushing name ≡ false)
      → are_separate sites ≡ true
      → (write_nginx_configs faults options sites files).1 ≡ true
      → All (IsServed (write_nginx_configs faults options sites files).0) sites
  unfolding write_nginx_configs
  write_nginx_configs-IsServed sites files flushed s h = elim (Bool-cases faults.directories) [
    | inl failed ↦ absurd (ground arith)
    | inr made ↦
        let same : write_nginx_configs faults options sites files
            ≡ write_sites faults options sites files =
          rw (write_nginx_configs, made) refl in
        subst (λ r. All (IsServed r.0) sites) (sym same)
          (write_sites-IsServed sites files flushed s (ap (λ r. r.1) (sym same) ∙ h))
  ]
