-- ===== src/Tls/Trust/Unchanged.antt =====
-- The operations on the trust store leave the files of the certificate directory alone.
use appytizer_app_server.Base.{◌≡◌, arith, Text}
use appytizer_app_server.Common.Json.{JsonLib}
use appytizer_app_server.Tls.Crypto.{Crypto}
use appytizer_app_server.Tls.Disk.{System, Manager}
use appytizer_app_server.Tls.Trust.{
  install_trust_entry, delete_recorded, remove_digests, no_metadata, remove_recorded_trust_entry,
}

module _ (J : JsonLib) (C : Crypto) (S : System) where
  pub install_trust_entry-files : (m : Manager) → (install_trust_entry J C S m).0.files ≡ m.files
  unfolding install_trust_entry
  install_trust_entry-files m = ground arith

  remove_digests-files :
      (sha1 sha256 : Text) (m : Manager) → (remove_digests J C S sha1 sha256 m).0.files ≡ m.files
  unfolding remove_digests delete_recorded
  remove_digests-files sha1 sha256 m = ground arith

  pub remove_recorded_trust_entry-files :
      (m : Manager) → (remove_recorded_trust_entry J C S m).0.files ≡ m.files
  unfolding remove_recorded_trust_entry no_metadata
  remove_recorded_trust_entry-files m = ground (arith, λ (a b : Text). remove_digests-files a b m)
