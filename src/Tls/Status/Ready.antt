-- ===== src/Tls/Status/Ready.antt =====
-- What CertificateManager::provision promises to CertificateManager::status.
use appytizer_app_server.Base.{
  ℕ, ◌≡◌, refl, ap, ◌∙◌, true, List, [], ◌∷◌, ◌++◌, arith, Text, text_mem, text_eq_refl,
}
use appytizer_app_server.Common.Json.{JsonLib}
use appytizer_app_server.Tls.Crypto.{Crypto}
use appytizer_app_server.Tls.Disk.{System, Manager, Reply, succeeded, failed, thrown, continue}
use appytizer_app_server.Tls.Trust.{ca_der, install_trust_entry, is_trusted}
use appytizer_app_server.Tls.Authority.{ca_files_valid, ensure_ca_files, cleared, provision}
use appytizer_app_server.Tls.Authority.Valid.{MakesRoots, ensure_ca_files-valid}
use appytizer_app_server.Tls.Status.{status}

text_mem-last : (x : List ℕ) (xs : List (List ℕ)) → text_mem x (xs ++ (x ∷ [])) ≡ true
text_mem-last x [] = ground (arith, text_eq_refl x)
text_mem-last x (y ∷ ys) = ground (arith, text_mem-last x ys)

module _ (J : JsonLib) (C : Crypto) (S : System) where
  install_trust_entry-is_trusted :
      S.store_reads ≡ true
      → (m : Manager) → (install_trust_entry J C S m).1 ≡ succeeded
      → ((install_trust_entry J C S m).0.files ≡ m.files)
        × (is_trusted J C S (install_trust_entry J C S m).0 ≡ true)
  unfolding install_trust_entry is_trusted
  install_trust_entry-is_trusted reads m h =
      ground (arith, reads, text_mem-last (ca_der J C S m.files) m.trust)

  continue-install_trust_entry :
      S.store_reads ≡ true
      → (r : Manager × Reply) → (r.1 ≡ succeeded → ca_files_valid J C S r.0.files ≡ true)
      → (continue (install_trust_entry J C S) r).1 ≡ succeeded
      → (ca_files_valid J C S (continue (install_trust_entry J C S) r).0.files ≡ true)
        × (is_trusted J C S (continue (install_trust_entry J C S) r).0 ≡ true)
  continue-install_trust_entry reads (m, succeeded) v h =
      let (p, q) = install_trust_entry-is_trusted reads m h in
      (ap (ca_files_valid J C S) p ∙ v refl, q)
  continue-install_trust_entry reads (m, failed) v h = absurd (cc)
  continue-install_trust_entry reads (m, thrown) v h = absurd (cc)

  -- If OpenSSL makes the root certificates that it is asked for, and the trust store can be read,
  -- then after a provision that succeeds the status is ready and trusted: the CA files are valid and
  -- their certificate is in the store.
  pub provision-status :
      MakesRoots C
      → S.store_reads ≡ true
      → (names : List Text) (m : Manager) → (provision J C S m).1 ≡ succeeded
      → let after = status J C S names (provision J C S m).0 in
        (after.ready ≡ true) × (after.trusted ≡ true)
  unfolding provision status
  provision-status laws reads names m h =
      let (p, q) =
        continue-install_trust_entry reads (ensure_ca_files J C S (cleared J C S m))
          (ensure_ca_files-valid J C S laws (cleared J C S m)) h in
      rw (p, q) (refl, refl)
