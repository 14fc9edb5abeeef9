-- ===== src/Engine/Activation.antt =====
-- activate_staged_configuration in engine/engine.cpp. The function moves six things about: the
-- `sites` folder and the root `nginx.conf`, each staged, active and set aside (`.previous`).
use appytizer_app_server.Base.{
  Bool, true, false, not, ◌&&◌, List, [], ◌∷◌, Option, none, some, Text, if◌then◌else◌,
}
pub mod Outcome

-- What stands at each of the six paths.
pub record Tree : Type 0 where
  pub staged_sites : Option Text
  pub staged_root : Option Text
  pub active_sites : Option Text
  pub active_root : Option Text
  pub backup_sites : Option Text
  pub backup_root : Option Text

-- The calls of the file system, in their order in the source. Each is made once at most.
pub data Call : Type 0 where
  make_conf make_logs make_client_body make_proxy make_fastcgi make_uwsgi make_scgi : Call
  drop_backup_sites drop_backup_root : Call
  stat_sites set_sites_aside move_sites restore_sites : Call
  stat_root set_root_aside move_root : Call
  undo_sites return_sites return_root : Call
  clean_backup_sites clean_backup_root clean_staging : Call

-- Which calls the system makes fail, beyond those that must, and what a failed remove_all leaves.
pub record Faults : Type 0 where
  pub fails : Call → Bool
  pub debris : Call → Option Text → Option Text

abbrev pub exists : Option Text → Bool
exists none = false
exists (some x) = true

module _ (w : Faults) where
  -- std::filesystem::remove_all and remove of one path: the new content. No caller reads the error.
  abbrev removed_all : Call → Option Text → Option Text
  removed_all c slot = if w.fails c then w.debris c slot else none

  abbrev removed : Call → Option Text → Option Text
  removed c slot = if w.fails c then slot else none

  -- Whether std::filesystem::rename fails, for a folder and for a file. A folder is not moved over
  -- another one; a file replaces the file that stands there.
  abbrev folder_move_fails : Call → Option Text → Option Text → Bool
  folder_move_fails c from to = if w.fails c then true else if exists from then exists to else true

  abbrev file_move_fails : Call → Option Text → Bool
  file_move_fails c from = if w.fails c then true else not (exists from)

  -- Each call sets the error anew, so only the last one's is seen.
  last_error : List Call → Bool → Bool
  last_error [] error = error
  last_error (c ∷ cs) error = last_error cs (w.fails c)

  make_directories : Bool
  unfolding last_error
  make_directories =
      last_error
        (make_conf ∷ make_logs ∷ make_client_body ∷ make_proxy ∷ make_fastcgi ∷ make_uwsgi
          ∷ make_scgi ∷ [])
        false

  abbrev return_folder : Call → Tree → Tree
  return_folder c t =
      if folder_move_fails c t.backup_sites t.active_sites
      then t
      else record t { active_sites = t.backup_sites; backup_sites = none }

  abbrev return_file : Call → Tree → Tree
  return_file c t =
      if file_move_fails c t.backup_root
      then t
      else record t { active_root = t.backup_root; backup_root = none }

  -- The error branch behind the two moves of the root configuration.
  roll_back : Bool → Bool → Tree → Tree
  roll_back had_sites had_root t =
      let undone = record t { active_sites = removed_all undo_sites t.active_sites } in
      let sites = if had_sites then return_folder return_sites undone else undone in
      if had_root then return_file return_root sites else sites

  clean_up : Tree → Tree
  clean_up t = record t {
    backup_sites = removed_all clean_backup_sites t.backup_sites;
    backup_root = removed clean_backup_root t.backup_root;
    staged_sites = removed_all clean_staging t.staged_sites;
    staged_root = removed_all clean_staging t.staged_root;
  }

  move_staged_root : Tree → Tree × Bool
  move_staged_root t =
      if file_move_fails move_root t.staged_root
      then (t, false)
      else (record t { active_root = t.staged_root; staged_root = none }, true)

  -- The state, and whether the code's `error` is clear: every call that was made succeeded.
  replace_root : Bool → Tree → Tree × Bool
  unfolding move_staged_root
  replace_root had_root t =
      if w.fails stat_root
      then (t, false)
      else if not had_root
      then move_staged_root t
      else if file_move_fails set_root_aside t.active_root
      then (t, false)
      else move_staged_root (record t { backup_root = t.active_root; active_root = none })

  activate_root : Bool → Tree → Tree × Bool
  unfolding replace_root roll_back clean_up
  activate_root had_sites t =
      let had_root = not (w.fails stat_root) && exists t.active_root in
      let (t', moved) = replace_root had_root t in
      if moved then (clean_up t', true) else (roll_back had_sites had_root t', false)

  move_staged_sites : Bool → Tree → Tree × Bool
  unfolding activate_root
  move_staged_sites had_sites t =
      if folder_move_fails move_sites t.staged_sites t.active_sites
      then ((if had_sites then return_folder restore_sites t else t), false)
      else activate_root had_sites (record t { active_sites = t.staged_sites; staged_sites = none })

  replace_sites : Tree → Tree × Bool
  unfolding move_staged_sites
  replace_sites t =
      if w.fails stat_sites
      then (t, false)
      else if not (exists t.active_sites)
      then move_staged_sites false t
      else if folder_move_fails set_sites_aside t.active_sites t.backup_sites
      then (t, false)
      else move_staged_sites true (record t { backup_sites = t.active_sites; active_sites = none })

  unfoldable pub activate_staged_configuration : Tree → Tree × Bool
  unfolding make_directories replace_sites
  activate_staged_configuration t =
      if make_directories
      then (t, false)
      else replace_sites (record t {
        backup_sites = removed_all drop_backup_sites t.backup_sites;
        backup_root = removed drop_backup_root t.backup_root;
      })
