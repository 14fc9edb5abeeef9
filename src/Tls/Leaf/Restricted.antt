-- ===== src/Tls/Leaf/Restricted.antt =====
-- The private keys of the sites' certificates are restricted.
use appytizer_app_server.Base.{
  ◌≡◌, refl, inl, inr, true, false, ◌++◌, arith, Text, codes, Option-cases, ends_with-append_other,
}
use appytizer_app_server.Common.Json.{JsonLib}
use appytizer_app_server.Tls.Crypto.{Crypto}
use appytizer_app_server.Tls.Disk.{
  System, Manager, Files, atomic_write, ca_certificate_path, ca_private_key_path, certificate_path,
  private_key_path,
}
use appytizer_app_server.Tls.Trust.{load_certificate}
use appytizer_app_server.Tls.Authority.{load_private_key, ensure_ca_files, cleared}
use appytizer_app_server.Tls.Authority.Restricted.{
  is_key_path, are_restricted, KeepsRestricted, atomic_write-are_restricted,
  continue-are_restricted, ensure_ca_files-are_restricted,
}
use appytizer_app_server.Tls.Leaf.{
  write_leaf, issue_leaf, create_leaf, ensure_leaf, ensure_site_certificate,
}

certificate_path-is_key_path : (hostname : Text) → is_key_path (certificate_path hostname) ≡ false
certificate_path-is_key_path hostname =
    ends_with-append_other (codes "sites/" ++ hostname) (codes ".crt.pem") (codes ".key.pem") refl
      refl

module _ (J : JsonLib) (C : Crypto) (S : System) (on : S.restrict_private_keys ≡ true) where
  write_leaf-are_restricted :
      (k : C.Key) (c : C.Certificate) (hostname : Text) (files : Files)
      → are_restricted files ≡ true
      → are_restricted (write_leaf J C S k c hostname files).0 ≡ true
  unfolding write_leaf
  write_leaf-are_restricted k c hostname files v =
      let restrict = S.restrict_private_keys in
      let (files1, written) =
        atomic_write S restrict (private_key_path hostname) (C.key_pem k) files in
      ground (
        arith,
        atomic_write-are_restricted S restrict (private_key_path hostname) (C.key_pem k) files
            (rw on (ground arith)) v,
        atomic_write-are_restricted S false (certificate_path hostname) (C.certificate_pem c) files1
            (rw (certificate_path-is_key_path hostname) refl),
      )

  create_leaf-are_restricted :
      (hostname : Text) (files : Files)
      → are_restricted files ≡ true
      → are_restricted (create_leaf J C S hostname files).0 ≡ true
  unfolding create_leaf
  create_leaf-are_restricted hostname files v =
      elim (Option-cases (
        issue_leaf J C S (load_certificate J C S files ca_certificate_path)
          (load_private_key J C S files ca_private_key_path) (C.generate_key 2048) hostname)) [
            | inl e ↦ rw (create_leaf, e) v
            | inr ((k, c), e) ↦ rw (create_leaf, e) (write_leaf-are_restricted k c hostname files v)
          ]

  ensure_leaf-are_restricted : (hostname : Text) → KeepsRestricted (ensure_leaf J C S hostname)
  unfolding ensure_leaf
  ensure_leaf-are_restricted hostname m v =
      ground (arith, create_leaf-are_restricted hostname m.files v)

  -- Where private keys are to be restricted, ensure_site_certificate keeps every private key in the
  -- directory restricted to SYSTEM and Administrators, whatever its outcome.
  pub ensure_site_certificate-are_restricted :
      (hostname : Text) (m : Manager)
      → are_restricted m.files ≡ true
      → are_restricted (ensure_site_certificate J C S hostname m).0.files ≡ true
  unfolding ensure_site_certificate
  ensure_site_certificate-are_restricted hostname m v = ground (
    arith,
    continue-are_restricted (ensure_leaf J C S hostname) (ensure_ca_files J C S (cleared J C S m))
        (ensure_leaf-are_restricted hostname)
        (ensure_ca_files-are_restricted J C S on (cleared J C S m) v),
  )
