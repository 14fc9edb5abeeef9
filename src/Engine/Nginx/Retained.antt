-- ===== src/Engine/Nginx/Retained.antt =====
-- When Engine::configure_nginx changes the active configuration.
use appytizer_app_server.Base.{
  ◌≡◌, refl, ap, ◌∙◌, ◌⊎◌, inl, inr, Bool, true, not, ◌||◌, List, [], ◌∷◌, arith, Bool-cases, Text,
  is_empty,
}
use appytizer_app_server.Engine.Subsystems.{Subsystems, KeepsActive, on_success, with_reply}
use appytizer_app_server.Tls.Disk.{Reply, succeeded, failed, thrown, reply_of}
use appytizer_app_server.Engine.Nginx.{
  active_hostnames, nginx_executable, nginx_id, nginx_arguments, use_active, use_existing,
  ensure_certificates, prepare_https, write_staged, activate_and_clean, stage_and_activate, publish,
  configure_nginx,
}

module _ (P : Subsystems) {A : Type 0} (active : P.State → A) where
  -- The configuration of t, which passed `nginx -t`, was activated.
  abbrev pub Activated : {R : Type 0} → R → Text → P.State → R → P.State → Type 0
  Activated good executable after ok t =
      (P.run_nginx_validation executable t ≡ true)
      × ((P.activate_staged_configuration t).1 ≡ true)
      × (active after ≡ active (P.activate_staged_configuration t).0)
      × (ok ≡ good)

  -- The active configuration is that of s, or was activated after its validation.
  abbrev pub Outcome : {R : Type 0} → R → Text → P.State → P.State × R → Type 0
  Outcome good executable s (after, ok) =
      (active after ≡ active s) ⊎ ((t : P.State) × Activated good executable after ok t)

module _ (P : Subsystems) {A : Type 0} (active : P.State → A) (laws : KeepsActive P active) where
  use_existing-active : (s : P.State) → active (use_existing P s) ≡ active s
  unfolding use_existing
  use_existing-active s =
      ground (arith, laws.arguments_keeps nginx_id (nginx_arguments P.data_directory) s)

  on_success-active :
      (next : P.State → P.State × Reply) (r : P.State × Reply)
      → ((s : P.State) → active (next s).0 ≡ active s)
      → active (on_success next r).0 ≡ active r.0
  on_success-active next (s, succeeded) keeps = keeps s
  on_success-active next (s, failed) keeps = refl
  on_success-active next (s, thrown) keeps = refl

  ensure_certificates-active :
      (hostnames : List Text) (s : P.State)
      → active (ensure_certificates P hostnames s).0 ≡ active s
  unfolding ensure_certificates
  ensure_certificates-active [] s = refl
  ensure_certificates-active (h ∷ hs) s =
      on_success-active (ensure_certificates P hs) (P.ensure_site_certificate h s)
        (ensure_certificates-active hs)
      ∙ laws.certificate_keeps h s

  prepare_https-active :
      (https : Bool) (hostnames : List Text) (s : P.State)
      → active (prepare_https P https hostnames s).0 ≡ active s
  unfolding prepare_https
  prepare_https-active https hostnames s = ground (arith, ensure_certificates-active hostnames s)

  write_staged-active :
      (https : Bool) (executable : Text) (s : P.State)
      → active (write_staged P https executable s).0 ≡ active s
  unfolding write_staged
  write_staged-active https executable s = ground (
    arith,
    laws.write_configs_keeps https executable s,
    laws.write_root_keeps https executable (P.write_nginx_configs https executable s).0,
  )

  from_unchanged :
      {R : Type 0} (good : R) (executable : Text) (s t : P.State) (r : P.State × R)
      → active t ≡ active s
      → Outcome P active good executable t r
      → Outcome P active good executable s r
  from_unchanged good executable s t r e (inl same) = inl (same ∙ e)
  from_unchanged good executable s t r e (inr activated) = inr activated

  activate_and_clean-active :
      (executable : Text) (hostnames : List Text) (t : P.State)
      → P.run_nginx_validation executable t ≡ true
      → Outcome P active true executable t (activate_and_clean P hostnames t)
  unfolding activate_and_clean
  activate_and_clean-active executable hostnames t valid =
      let t' = (P.activate_staged_configuration t).0 in
      elim (Bool-cases (P.activate_staged_configuration t).1) [
        | inr stays ↦ inl (ground (arith, laws.activate_keeps t stays))
        | inl moved ↦ inr (
          t,
          (
            valid,
            moved,
            ground (
              arith,
              laws.unused_keeps hostnames (use_active P t'),
              laws.arguments_keeps nginx_id (nginx_arguments P.data_directory) t',
            ),
            ground arith,
          ),
        )
      ]

  stage_and_activate-active :
      (https : Bool) (executable : Text) (hostnames : List Text) (s : P.State)
      → Outcome P active true executable s (stage_and_activate P https executable hostnames s)
  unfolding stage_and_activate
  stage_and_activate-active https executable hostnames s =
      let (s', written) = write_staged P https executable (P.remove_staging s) in
      let kept : active s' ≡ active s =
        write_staged-active https executable (P.remove_staging s) ∙ laws.staging_keeps s in
      let stopped = not written || not (P.run_nginx_validation executable s') in
      elim (Bool-cases stopped) [
        | inl stop ↦ rw (stage_and_activate, stop) (inl (laws.staging_keeps s' ∙ kept))
        | inr go ↦
            rw (stage_and_activate, go)
              (from_unchanged true executable s s' (activate_and_clean P hostnames s') kept
                (activate_and_clean-active executable hostnames s' (ground arith)))
      ]

  Outcome-with_reply :
      (executable : Text) (s : P.State) (r : P.State × Bool)
      → Outcome P active true executable s r
      → Outcome P active succeeded executable s (with_reply r)
  Outcome-with_reply executable s r (inl kept) = inl kept
  Outcome-with_reply executable s r (inr (t, (valid, moved, same, ok))) =
      inr (t, (valid, moved, same, ap reply_of ok))

  publish-Outcome :
      (https : Bool) (executable : Text) (hostnames : List Text) (s : P.State)
      → Outcome P active succeeded executable s (publish P https executable hostnames s)
  unfolding publish
  publish-Outcome https executable hostnames s = elim (Bool-cases (is_empty executable)) [
    | inl missing ↦ rw (publish, missing) (inl refl)
    | inr there ↦
        rw (publish, there)
          (Outcome-with_reply executable s (stage_and_activate P https executable hostnames s)
            (stage_and_activate-active https executable hostnames s))
  ]

  on_success-Outcome :
      (executable : Text) (next : P.State → P.State × Reply) (r : P.State × Reply)
      → ((s : P.State) → Outcome P active succeeded executable s (next s))
      → Outcome P active succeeded executable r.0 (on_success next r)
  on_success-Outcome executable next (s, succeeded) outcome = outcome s
  on_success-Outcome executable next (s, failed) outcome = inl refl
  on_success-Outcome executable next (s, thrown) outcome = inl refl

  -- configure_nginx leaves the active configuration as it was; or it succeeds, and the configuration
  -- that is active then passed `nginx -t` with the nginx that was detected, before it was activated. It
  -- is assumed that the parts keep the active configuration, a failed activation included.
  pub configure_nginx-Outcome :
      (https : Bool) (s : P.State)
      → Outcome P active succeeded (nginx_executable P s) s (configure_nginx P https s)
  unfolding configure_nginx
  configure_nginx-Outcome https s =
      let hostnames = active_hostnames (P.list s) in
      let executable = nginx_executable P s in
      let r = prepare_https P https hostnames (use_existing P s) in
      from_unchanged succeeded executable s r.0
        (on_success (publish P https executable hostnames) r)
        (prepare_https-active https hostnames (use_existing P s) ∙ use_existing-active s)
        (on_success-Outcome executable (publish P https executable hostnames) r
          (publish-Outcome https executable hostnames))
