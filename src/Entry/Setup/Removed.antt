-- ===== src/Entry/Setup/Removed.antt =====
-- What uninstall in engine/main.cpp leaves behind.
use appytizer_app_server.Base.{◌≡◌, [], Option, some, Text}
use appytizer_app_server.Common.Json.{JsonLib}
use appytizer_app_server.Engine.Hosts.{HostsSystem, lines_of, sync_hosts}
use appytizer_app_server.Engine.Hosts.Laws.{foreign_lines}
use appytizer_app_server.Tls.Crypto.{Crypto}
use appytizer_app_server.Tls.Disk.{System}
use appytizer_app_server.Tls.Trust.{remove}
use appytizer_app_server.Entry.Setup.{Machine}

-- The hosts file has lost the Engine's lines, and no other.
abbrev pub IsCleaned : Option Text → Option Text → Type 0
IsCleaned before after =
    (old : Text) × (new : Text) × (before ≡ some old)
    × (after ≡ some new)
    × (lines_of new ≡ foreign_lines old)

module _ (J : JsonLib) (C : Crypto) (S : System) where
  cleaned_machine : HostsSystem → Machine J → Machine J
  cleaned_machine system m = record m {
    hosts = (sync_hosts system [] m.hosts).file;
    certificates = (remove J C S m.certificates).0;
  }
