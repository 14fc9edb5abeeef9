-- ===== src/Engine/Activation/Outcome.antt =====
-- activate_staged_configuration puts the staged configuration in place or keeps the active one.
use mathlib.Core.Bool.{false≢true}
use mathlib.Core.Option.{some-ne-none}
use appytizer_app_server.Base.{
  ◌≡◌, refl, ◌⊎◌, inl, inr, ◌≢◌, Bool, true, false, not, ◌&&◌, none, some, arith, Text,
  if◌then◌else◌, Option-cases, sym, ◌∙◌,
}
use appytizer_app_server.Engine.Activation.{
  Tree, Call, Faults, exists, roll_back, clean_up, move_staged_root, replace_root, activate_root,
  move_staged_sites, replace_sites, activate_staged_configuration, drop_backup_root, restore_sites,
  undo_sites, return_sites, return_root, set_root_aside,
}

-- What nginx serves.
abbrev pub SameActive : Tree → Tree → Type 0
SameActive t u = (t.active_sites ≡ u.active_sites) × (t.active_root ≡ u.active_root)

-- Both parts of the staged tree are in place.
abbrev pub IsActivated : Tree → Tree → Type 0
IsActivated t u =
    (u.active_sites ≡ t.staged_sites)
    × (u.active_root ≡ t.staged_root)
    × (t.staged_sites ≢ none)
    × (t.staged_root ≢ none)

module _ (w : Faults) where
  replace_root-moved :
      (had_root : Bool) (t : Tree)
      → (replace_root w had_root t).1 ≡ true
      → let u = (replace_root w had_root t).0 in
        (u.active_root ≡ t.staged_root) × (u.active_sites ≡ t.active_sites) × (t.staged_root ≢ none)
  unfolding replace_root
  replace_root-moved had_root t h = ground arith

  activate_root-done :
      (had_sites : Bool) (t : Tree)
      → (activate_root w had_sites t).1 ≡ true
      → let u = (activate_root w had_sites t).0 in
        (u.active_root ≡ t.staged_root) × (u.active_sites ≡ t.active_sites) × (t.staged_root ≢ none)
  unfolding activate_root clean_up
  activate_root-done had_sites t h =
      ground (arith, replace_root-moved (not (w.fails Call.stat_root) && exists t.active_root) t)

  move_staged_sites-done :
      (had_sites : Bool) (t : Tree)
      → (move_staged_sites w had_sites t).1 ≡ true
      → IsActivated t (move_staged_sites w had_sites t).0
  unfolding move_staged_sites
  move_staged_sites-done had_sites t h = ground (
    arith,
    activate_root-done had_sites (record t { active_sites = t.staged_sites; staged_sites = none }),
  )

  replace_sites-done :
      (t : Tree) → (replace_sites w t).1 ≡ true → IsActivated t (replace_sites w t).0
  unfolding replace_sites
  replace_sites-done t h = ground (
    arith,
    move_staged_sites-done false t,
    move_staged_sites-done true (record t { backup_sites = t.active_sites; active_sites = none }),
  )

  -- A success means that both parts of the staged configuration, which were there, are the active ones.
  pub activate_staged_configuration-IsActivated :
      (t : Tree)
      → (activate_staged_configuration w t).1 ≡ true
      → IsActivated t (activate_staged_configuration w t).0
  unfolding activate_staged_configuration
  activate_staged_configuration-IsActivated t h = ground (
    arith,
    replace_sites-done (record t {
      backup_sites =
          if w.fails Call.drop_backup_sites
          then w.debris Call.drop_backup_sites t.backup_sites
          else none;
      backup_root = if w.fails Call.drop_backup_root then t.backup_root else none;
    }),
  )

  -- The calls that undo a step do not fail.
  pub record CanUndo : Type 0 where
    pub restore_works : w.fails restore_sites ≡ false
    pub undo_works : w.fails undo_sites ≡ false
    pub return_sites_works : w.fails return_sites ≡ false
    pub return_root_works : w.fails return_root ≡ false

  module _ (can : CanUndo) where
    activate_root-undone :
        (had_sites : Bool) (t : Tree)
        → (had_sites ≡ true → t.backup_sites ≢ none)
        → t.backup_root ≡ none
        → (activate_root w had_sites t).1 ≡ false
        → let u = (activate_root w had_sites t).0 in
          (u.active_sites ≡ (if had_sites then t.backup_sites else none))
          × (u.active_root ≡ t.active_root)
    unfolding activate_root replace_root move_staged_root roll_back
    activate_root-undone true t kept fresh h =
        ground (arith, kept refl, can.undo_works, can.return_sites_works, can.return_root_works)
    activate_root-undone false t kept fresh h =
        ground (arith, can.undo_works, can.return_sites_works, can.return_root_works)

    move_staged_sites-undone :
        (had_sites : Bool) (t : Tree)
        → (had_sites ≡ true → t.backup_sites ≢ none)
        → t.active_sites ≡ none
        → t.backup_root ≡ none
        → (move_staged_sites w had_sites t).1 ≡ false
        → let u = (move_staged_sites w had_sites t).0 in
          (u.active_sites ≡ (if had_sites then t.backup_sites else none))
          × (u.active_root ≡ t.active_root)
    unfolding move_staged_sites
    move_staged_sites-undone true t kept empty fresh h = ground (
      arith,
      kept refl,
      can.restore_works,
      activate_root-undone true (record t { active_sites = t.staged_sites; staged_sites = none })
          kept fresh,
    )
    move_staged_sites-undone false t kept empty fresh h = ground (
      arith,
      activate_root-undone false (record t { active_sites = t.staged_sites; staged_sites = none })
          kept fresh,
    )

    replace_sites-undone :
        (t : Tree)
        → t.backup_root ≡ none
        → (replace_sites w t).1 ≡ false
        → SameActive (replace_sites w t).0 t
    unfolding replace_sites
    replace_sites-undone t fresh h = elim (Option-cases t.active_sites) [
      | inl none_there ↦
          ground
            (arith, move_staged_sites-undone false t (λ e. absurd (false≢true e)) none_there fresh)
      | inr (old, there) ↦ ground (
        arith,
        move_staged_sites-undone true
            (record t { backup_sites = t.active_sites; active_sites = none })
            (λ _ e. some-ne-none old (sym there ∙ e)) refl fresh,
      )
    ]

    -- A failure leaves the active configuration as it was, provided that undoing works and that no
    -- old set-aside root configuration stands in the way: there was none, or it could be removed.
    pub activate_staged_configuration-SameActive :
        (t : Tree)
        → (t.backup_root ≡ none) ⊎ (w.fails drop_backup_root ≡ false)
        → (activate_staged_configuration w t).1 ≡ false
        → SameActive (activate_staged_configuration w t).0 t
    unfolding activate_staged_configuration
    activate_staged_configuration-SameActive t fresh h = ground (
      arith,
      replace_sites-undone (record t {
        backup_sites =
            if w.fails Call.drop_backup_sites
            then w.debris Call.drop_backup_sites t.backup_sites
            else none;
        backup_root = if w.fails Call.drop_backup_root then t.backup_root else none;
      }),
    )

  -- Where there are staged sites and no active ones, and an old set-aside root configuration cannot be
  -- removed, a failure to set the active root configuration aside makes the undoing put the old one over
  -- it, although every undoing call works and no call of the way there fails.
  pub activate_staged_configuration_stale :
      (t : Tree) (sites root stale : Text)
      → CanUndo
      → t.staged_sites ≡ some sites
      → t.active_sites ≡ none
      → t.active_root ≡ some root
      → t.backup_root ≡ some stale
      → w.fails Call.make_scgi ≡ false
      → w.fails Call.stat_sites ≡ false
      → w.fails Call.move_sites ≡ false
      → w.fails Call.stat_root ≡ false
      → w.fails drop_backup_root ≡ true
      → w.fails set_root_aside ≡ true
      → let (u, ok) = activate_staged_configuration w t in
        (ok ≡ false) × (u.active_root ≡ some stale)
  unfolding activate_staged_configuration activate_root replace_root roll_back
  activate_staged_configuration_stale t sites root stale can a b c d e f g h i j = ground arith
