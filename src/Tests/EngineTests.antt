-- ===== src/Tests/EngineTests.antt =====
-- engine/engine.cpp at concrete files and faults.
use appytizer_app_server.Base.{
  ◌≡◌, ◌⊎◌, refl, inl, Bool, true, false, [], ◌∷◌, ◌++◌, Option, none, some, not, Text, codes,
  arith,
}
use appytizer_app_server.Sites.Registry.{Site}
use appytizer_app_server.Engine.Hosts.{
  HostsSystem, lines_of, valid_entries, updated_hosts, sync_hosts,
}
use appytizer_app_server.Engine.Hosts.Laws.{foreign_lines, sync_hosts-sync_hosts, sync_hosts_lem}
use appytizer_app_server.Engine.Activation.{Tree, Call, Faults, activate_staged_configuration}
use appytizer_app_server.Engine.Activation.Outcome.{
  SameActive, IsActivated, activate_staged_configuration-IsActivated,
  activate_staged_configuration-SameActive, activate_staged_configuration_stale,
}

abbrev site : Text → Bool → Site
site name ok = record {
  name = name;
  hostname = name ++ codes ".test";
  path = [];
  type = [];
  has_index = false;
  valid = ok;
  error = [];
}

abbrev pub system : HostsSystem
system = record {
  override_set = true;
  windows_directory_found = true;
  can_write = true;
  write_fails = false;
  left = λ text. text;
}

abbrev pub hosts_file : Text
hosts_file = codes "127.0.0.1 db\n127.0.0.1\told.test\t# Appytizer\n"

hosts_updated :
    updated_hosts (site (codes "blog") true ∷ site (codes "x") false ∷ []) hosts_file
    ≡ codes "127.0.0.1 db\n127.0.0.1\tblog.test\t# Appytizer\n"
unfolding updated_hosts
hosts_updated = refl

sync_hosts-sync_hosts_example :
    sync_hosts system [] (sync_hosts system (site (codes "blog") true ∷ []) (some hosts_file)).file
    ≡ sync_hosts system [] (some hosts_file)
sync_hosts-sync_hosts_example =
    sync_hosts-sync_hosts system (site (codes "blog") true ∷ []) [] (some hosts_file) (ground arith)
      refl

sync_hosts_lem_example :
    let r = sync_hosts system (site (codes "blog") true ∷ []) (some hosts_file) in
    ((r.ok ≡ false) × (r.file ≡ some hosts_file) × (r.flushed ≡ false))
    ⊎ ((old : Text) × (new : Text) × (r.ok ≡ true)
        × (◌≡◌ {A = Option Text} (some hosts_file) (some old))
        × (lines_of new ≡ foreign_lines old ++ valid_entries (site (codes "blog") true ∷ []))
        × (r.file ≡ some new)
        × (r.flushed ≡ not system.override_set))
sync_hosts_lem_example =
    sync_hosts_lem system (site (codes "blog") true ∷ []) (some hosts_file) (ground arith)

abbrev tree : Option Text → Option Text → Tree
tree active stale = record {
  staged_sites = some (codes "new sites");
  staged_root = some (codes "new root");
  active_sites = active;
  active_root = some (codes "root");
  backup_sites = none;
  backup_root = stale;
}

abbrev pub no_faults : Faults
no_faults = record { fails = λ c. false; debris = λ c s. s }

-- The move of the new root configuration fails.
abbrev root_stays : Call → Bool
root_stays Call.move_root = true
root_stays _ = false

-- The old set-aside root configuration stays, and the active one cannot be set aside.
abbrev root_locked : Call → Bool
root_locked Call.drop_backup_root = true
root_locked Call.set_root_aside = true
root_locked _ = false

abbrev with_faults : (Call → Bool) → Faults
with_faults fails = record { fails = fails; debris = λ c s. s }

activate_staged_configuration-IsActivated_example :
    let t = tree (some (codes "sites")) none in
    IsActivated t (activate_staged_configuration no_faults t).0
unfolding activate_staged_configuration
activate_staged_configuration-IsActivated_example =
    activate_staged_configuration-IsActivated no_faults (tree (some (codes "sites")) none) refl

activate_staged_configuration-SameActive_example :
    let t = tree (some (codes "sites")) none in
    SameActive (activate_staged_configuration (with_faults root_stays) t).0 t
unfolding activate_staged_configuration
activate_staged_configuration-SameActive_example =
    activate_staged_configuration-SameActive (with_faults root_stays)
      (record {
        restore_works = refl;
        undo_works = refl;
        return_sites_works = refl;
        return_root_works = refl;
      })
      (tree (some (codes "sites")) none) (inl refl) refl

activate_staged_configuration_stale_example :
    let (u, ok) =
      activate_staged_configuration (with_faults root_locked) (tree none (some (codes "stale"))) in
    (ok ≡ false) × (u.active_root ≡ some (codes "stale"))
activate_staged_configuration_stale_example =
    activate_staged_configuration_stale (with_faults root_locked) (tree none (some (codes "stale")))
      (codes "new sites") (codes "root") (codes "stale")
      (record {
        restore_works = refl;
        undo_works = refl;
        return_sites_works = refl;
        return_root_works = refl;
      })
      refl refl refl refl refl refl refl refl refl refl
