-- ===== src/Tls/Leaf/Issued.antt =====
-- What CertificateManager::ensure_site_certificate promises.
use appytizer_app_server.Base.{◌≡◌, true, false, arith, Text}
use appytizer_app_server.Base.Int.{pos}
use appytizer_app_server.Common.Json.{JsonLib}
use appytizer_app_server.Tls.Hostname.{valid_hostname}
use appytizer_app_server.Tls.Crypto.{Crypto, expires_within}
use appytizer_app_server.Tls.Disk.{
  System, Manager, Files, Reply, succeeded, failed, thrown, continue,
}
use appytizer_app_server.Tls.Authority.{ensure_ca_files, cleared}
use appytizer_app_server.Tls.Leaf.{
  leaf_valid, site_certificate_valid, ensure_leaf, ensure_site_certificate,
  certificate_needs_renewal,
}

expires_within_mono :
    (C : Crypto) (certificate : C.Certificate)
    → expires_within C certificate (pos 30) ≡ false
    → expires_within C certificate (pos 0) ≡ false
unfolding expires_within
expires_within_mono C certificate h = ground arith

module _ (J : JsonLib) (C : Crypto) (S : System) where
  -- A certificate that is good for another 30 days is good now.
  site_certificate_valid_mono :
      (files : Files) (hostname : Text)
      → site_certificate_valid J C S files hostname (pos 30) ≡ true
      → site_certificate_valid J C S files hostname (pos 0) ≡ true
  unfolding site_certificate_valid leaf_valid
  site_certificate_valid_mono files hostname h = grind (arith, expires_within_mono C)

  ensure_leaf-valid :
      (hostname : Text) (m : Manager)
      → (ensure_leaf J C S hostname m).1 ≡ succeeded
      → site_certificate_valid J C S (ensure_leaf J C S hostname m).0.files hostname (pos 0) ≡ true
  unfolding ensure_leaf
  ensure_leaf-valid hostname m h = ground (arith, site_certificate_valid_mono m.files hostname)

  continue-ensure_leaf :
      (hostname : Text) (r : Manager × Reply)
      → (continue (ensure_leaf J C S hostname) r).1 ≡ succeeded
      → site_certificate_valid J C S
          (continue (ensure_leaf J C S hostname) r).0.files
          hostname
          (pos 0)
        ≡ true
  continue-ensure_leaf hostname (m, succeeded) h = ensure_leaf-valid hostname m h
  continue-ensure_leaf hostname (m, failed) h = cc
  continue-ensure_leaf hostname (m, thrown) h = cc

  -- If ensure_site_certificate succeeds, the hostname is a valid one and its files hold a
  -- certificate that is good now: certificate_needs_renewal with threshold 0 says no.
  pub ensure_site_certificate-valid :
      (hostname : Text) (m : Manager)
      → (ensure_site_certificate J C S hostname m).1 ≡ succeeded
      → (valid_hostname hostname ≡ true)
        × (certificate_needs_renewal J C S
              (ensure_site_certificate J C S hostname m).0.files
              hostname
              (pos 0)
            ≡ false)
  unfolding ensure_site_certificate certificate_needs_renewal
  ensure_site_certificate-valid hostname m h =
      ground (arith, continue-ensure_leaf hostname (ensure_ca_files J C S (cleared J C S m)))
