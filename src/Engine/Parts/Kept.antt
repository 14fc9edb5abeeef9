-- ===== src/Engine/Parts/Kept.antt =====
-- Engine::configure_nginx with the members of Engine: what nginx serves afterwards.
use appytizer_app_server.Base.{
  ℕ, ◌≡◌, ◌≢◌, refl, ap₂, ◌∙◌, ◌⊎◌, inl, inr, Bool, true, false, Option, none, Text, Bool-cases,
}
use appytizer_app_server.Common.Json.{JsonLib}
use appytizer_app_server.Engine.Activation.{Call}
use appytizer_app_server.Engine.Activation.Outcome.{
  CanUndo, activate_staged_configuration-SameActive, activate_staged_configuration-IsActivated,
}
use appytizer_app_server.Engine.Nginx.{nginx_executable, configure_nginx}
use appytizer_app_server.Engine.Nginx.Retained.{Outcome, configure_nginx-Outcome}
use appytizer_app_server.Engine.Subsystems.{KeepsActive}
use appytizer_app_server.Engine.Answers.{Answers, Paths}
use appytizer_app_server.Engine.Parts.{Members, parts}
use appytizer_app_server.Sites.Database.{Database}
use appytizer_app_server.Tls.Disk.{Reply, succeeded}
use appytizer_app_server.Tls.Crypto.{Crypto}

-- Undoing a step of the activation works, and so does the removal of the root configuration that an
-- earlier activation set aside.
pub record IsUndoable (answers : ℕ → Answers) : Type 0 where
  pub undoes : (n : ℕ) → CanUndo (answers n).faults
  pub removes : (n : ℕ) → (answers n).faults.fails Call.drop_backup_root ≡ false

module _ (J : JsonLib) (C : Crypto) (D : Database) (paths : Paths) (answers : ℕ → Answers) where
  abbrev pub active : Members J C D paths answers → Option Text × Option Text
  active s = (s.tree.active_sites, s.tree.active_root)

  write_configs-active :
      (https : Bool) (executable : Text) (s : Members J C D paths answers)
      → active ((parts J C D paths answers).write_nginx_configs https executable s).0 ≡ active s
  write_configs-active https executable s = elim (Bool-cases (answers s.clock).output.directories) [
    | inl fails ↦ rw fails refl
    | inr made ↦ rw made refl
  ]

  parts-KeepsActive : IsUndoable answers → KeepsActive (parts J C D paths answers) active
  parts-KeepsActive can = record {
    rescan_keeps = λ root s. refl;
    write_configs_keeps = write_configs-active;
    write_root_keeps = λ https executable s. refl;
    arguments_keeps = λ id arguments s. refl;
    certificate_keeps = λ hostname s. refl;
    unused_keeps = λ hostnames s. refl;
    staging_keeps = λ s. refl;
    activate_keeps = λ s failed.
        let same =
          activate_staged_configuration-SameActive (answers s.clock).faults (can.undoes s.clock)
            s.tree (inr (can.removes s.clock)) failed in
        ap₂ (λ a b. (a, b)) same.0 same.1;
  }

  -- What configure_nginx comes to: the active files are those of before, or the call succeeds and they
  -- are a staged configuration, whole, that the detected nginx accepted.
  abbrev pub Served :
      Text → Members J C D paths answers → Members J C D paths answers × Reply → Type 0
  Served executable s (after, ok) =
      (active after ≡ active s)
      ⊎ ((t : Members J C D paths answers) × ((answers t.clock).accepts executable
              t.tree.staged_sites t.tree.staged_root
            ≡ true)
          × (active after ≡ (t.tree.staged_sites, t.tree.staged_root))
          × (t.tree.staged_sites ≢ none)
          × (t.tree.staged_root ≢ none)
          × (ok ≡ succeeded))

  Outcome-Served :
      (executable : Text) (s : Members J C D paths answers)
      (r : Members J C D paths answers × Reply)
      → Outcome (parts J C D paths answers) active succeeded executable s r
      → Served executable s r
  Outcome-Served executable s r (inl same) = inl same
  Outcome-Served executable s r (inr (t, (valid, moved, now_active, ok))) =
      let (sites, root, has_sites, has_root) =
        activate_staged_configuration-IsActivated (answers t.clock).faults t.tree moved in
      inr (t, valid, now_active ∙ ap₂ (λ a b. (a, b)) sites root, has_sites, has_root, ok)

  -- With the program's own parts, where the activation can be undone: after configure_nginx the active
  -- sites and root configuration are those of before; or the call succeeds, and both are as they were
  -- staged when the detected nginx accepted them.
  pub configure_nginx-Served :
      IsUndoable answers
      → (https : Bool) (s : Members J C D paths answers)
      → Served
          (nginx_executable (parts J C D paths answers) s)
          s
          (configure_nginx (parts J C D paths answers) https s)
  configure_nginx-Served can https s =
      Outcome-Served (nginx_executable (parts J C D paths answers) s) s
        (configure_nginx (parts J C D paths answers) https s)
        (configure_nginx-Outcome (parts J C D paths answers) active (parts-KeepsActive can) https s)
