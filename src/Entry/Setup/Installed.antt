-- ===== src/Entry/Setup/Installed.antt =====
-- What install in engine/main.cpp has done when it succeeds.
use appytizer_app_server.Base.{◌≡◌, refl, sym, ap, ◌∙◌, true, false, List, arith, if_went_on, Text}
use appytizer_app_server.Common.Json.{JsonLib}
use appytizer_app_server.Tls.Crypto.{Crypto}
use appytizer_app_server.Tls.Disk.{System, Reply, succeeded, failed, thrown}
use appytizer_app_server.Tls.Authority.{provision}
use appytizer_app_server.Tls.Status.{status}
use appytizer_app_server.Tls.Authority.Valid.{MakesRoots}
use appytizer_app_server.Tls.Status.Ready.{provision-status}
use appytizer_app_server.Entry.Setup.{
  Machine, Registering, is_success, migrate, register, provision_certificates, install,
}

is_success-succeeded : (reply : Reply) → is_success reply ≡ true → reply ≡ succeeded
is_success-succeeded succeeded h = refl
is_success-succeeded failed h = absurd cc
is_success-succeeded thrown h = absurd cc

module _ (J : JsonLib) (C : Crypto) (S : System) where
  register-certificates :
      (answers : Registering) (m : Machine J)
      → (register J C S answers m).0.certificates ≡ m.certificates
  unfolding register
  register-certificates answers m = ground arith

  install-steps :
      (answers : Registering) (m : Machine J)
      → (install J C S answers m).1 ≡ true
      → (install J C S answers m ≡ provision_certificates J C S answers (migrate J C S answers m).0)
        × ((migrate J C S answers m).1 ≡ true)
  unfolding install
  install-steps answers m h =
      let (migrated, ok) = migrate J C S answers m in
      if_went_on ok (provision_certificates J C S answers migrated) (migrated, false) refl h

  provision_certificates-steps :
      (answers : Registering) (m : Machine J)
      → (provision_certificates J C S answers m).1 ≡ true
      → ((provision_certificates J C S answers m).0.certificates
          ≡ (provision J C S m.certificates).0)
        × ((provision J C S m.certificates).1 ≡ succeeded)
  unfolding provision_certificates
  provision_certificates-steps answers m h =
      let (certificates, reply) = provision J C S m.certificates in
      let provisioned : Machine J = record m { certificates = certificates } in
      let (same, ok) =
        if_went_on (is_success reply) (register J C S answers provisioned) (provisioned, false) refl
          h in
      (
        ap (λ r. r.0.certificates) same ∙ register-certificates answers provisioned,
        is_success-succeeded reply ok,
      )

  -- If install succeeds, then the certificate authority is in place: the status of the certificates is
  -- ready and trusted. OpenSSL makes the roots that are asked of it, and the trust store can be read.
  pub install-status :
      (answers : Registering) (names : List Text) (m : Machine J)
      → MakesRoots C
      → S.store_reads ≡ true
      → (install J C S answers m).1 ≡ true
      → let after = status J C S names (install J C S answers m).0.certificates in
        (after.ready ≡ true) × (after.trusted ≡ true)
  install-status answers names m makes reads h =
      let (same, ok) = install-steps answers m h in
      let migrated = (migrate J C S answers m).0 in
      let (kept, provisioned) =
        provision_certificates-steps answers migrated (sym (ap (λ r. r.1) same) ∙ h) in
      let (ready, trusted) =
        provision-status J C S makes reads names migrated.certificates provisioned in
      let certificates = ap (λ r. r.0.certificates) same ∙ kept in
      (
        ap (λ c. (status J C S names c).ready) certificates ∙ ready,
        ap (λ c. (status J C S names c).trusted) certificates ∙ trusted,
      )
