-- ===== src/Tests/TlsTests.antt =====
-- The certificate manager at concrete inputs.
use appytizer_app_server.Base.{◌≡◌, refl, true, false, List, [], ◌∷◌, Text, codes}
use appytizer_app_server.Base.Dict.{lookup, insert}
use appytizer_app_server.Base.Int.{pos}
use appytizer_app_server.Sites.Scan.{Answer}
use appytizer_app_server.Tls.Disk.{Manager}
use appytizer_app_server.Tls.Hostname.{valid_hostname}
use appytizer_app_server.Tls.Trust.{remove}
use appytizer_app_server.Tls.Trust.Removal.{TookRecorded, remove-TookRecorded}
use appytizer_app_server.Tls.Authority.{provision}
use appytizer_app_server.Tls.Leaf.{ensure_site_certificate, certificate_needs_renewal}
use appytizer_app_server.Tls.Leaf.Issued.{ensure_site_certificate-valid}
use appytizer_app_server.Tls.Status.{status}
use appytizer_app_server.Tls.Status.Ready.{provision-status}
use appytizer_app_server.Tests.CodedJson.{coded_json}
use appytizer_app_server.Tests.ToyCrypto.{
  toy_crypto, toy_crypto-MakesRoots, sound_system, fresh_manager,
}

abbrev provisioned : Manager
provisioned = (provision coded_json toy_crypto sound_system fresh_manager).0

provision-status_example :
    let after = status coded_json toy_crypto sound_system [] provisioned in
    (after.ready ≡ true) × (after.trusted ≡ true)
unfolding provision lookup insert
provision-status_example =
    provision-status coded_json toy_crypto sound_system toy_crypto-MakesRoots refl [] fresh_manager
      refl

ensure_site_certificate-valid_example :
    (valid_hostname (codes "shop.test") ≡ true)
    × (certificate_needs_renewal coded_json toy_crypto sound_system
          (ensure_site_certificate coded_json toy_crypto sound_system
            (codes "shop.test")
            provisioned).0.files
          (codes "shop.test")
          (pos 0)
        ≡ false)
unfolding provision ensure_site_certificate lookup insert
ensure_site_certificate-valid_example =
    ensure_site_certificate-valid coded_json toy_crypto sound_system (codes "shop.test") provisioned
      refl

remove-TookRecorded_example :
    TookRecorded coded_json toy_crypto provisioned
      (remove coded_json toy_crypto sound_system provisioned).0.trust
remove-TookRecorded_example = remove-TookRecorded coded_json toy_crypto sound_system provisioned

-- The CA's entry goes, and the other one stays.
removed_trust : (remove coded_json toy_crypto sound_system provisioned).0.trust ≡ codes "other" ∷ []
unfolding provision remove lookup insert
removed_trust = refl

abbrev leaf_names : List Text
leaf_names = codes "shop.test.crt.pem" ∷ codes "old.test.key.pem" ∷ codes "notes.txt" ∷ []

abbrev is_folder : Answer
is_folder = record { value = true; failed = false }

abbrev used : List Text
used = codes "shop.test" ∷ []
