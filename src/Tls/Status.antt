-- ===== src/Tls/Status.antt =====
-- CertificateManager::status.
use appytizer_app_server.Base.{
  ℕ, zero, suc, ◌+◌, Bool, true, false, not, ◌||◌, ◌&&◌, List, [], ◌∷◌, ◌++◌, Option, none, some,
  Text, codes, is_empty, ends_with, ltb, ◌==◌, if◌then◌else◌,
}
use appytizer_app_server.Common.Json.{JsonLib}
use appytizer_app_server.Tls.Crypto.{Crypto}
use appytizer_app_server.Tls.Disk.{System, Manager, read_file}
use appytizer_app_server.Tls.Trust.{load_certificate, is_trusted}
use appytizer_app_server.Tls.Authority.{ca_files_valid}
pub mod Ready

pub record TlsStatus : Type 0 where
  pub ready : Bool
  pub trusted : Bool
  pub site_certificate_count : ℕ
  pub earliest_expiry : Text
  pub error : Text

-- `<` on std::string, byte by byte.
abbrev pub text_lt : Text → Text → Bool
text_lt [] [] = false
text_lt [] (y ∷ ys) = true
text_lt (x ∷ xs) [] = false
text_lt (x ∷ xs) (y ∷ ys) = if x == y then text_lt xs ys else ltb x y

abbrev earlier : Text → Text → Text
earlier expiry earliest =
    if not (is_empty expiry) && (is_empty earliest || text_lt expiry earliest)
    then expiry
    else earliest

module _ (J : JsonLib) (C : Crypto) (S : System) where
  -- The loop over the names of the folder `sites`: the count and the earliest expiry.
  count_certificates : Manager → List Text → ℕ × Text → ℕ × Text
  count_certificates m [] (count, earliest) = (count, earliest)
  count_certificates m (name ∷ names) (count, earliest) = count_certificates m names (
      if not (ends_with (codes ".crt.pem") name)
      then (count, earliest)
      else elim (load_certificate J C S m.files (codes "sites/" ++ name)) [
        | none ↦ (count, earliest)
        | some certificate ↦ (count + 1, earlier (C.expiry_text certificate) earliest)
      ])

  status_error : Text → Bool → Bool → Text
  status_error last_error files_valid trusted =
      if not (is_empty last_error)
      then last_error
      else if not files_valid
      then codes "Appytizer TLS is not provisioned. Use Repair certificates as administrator."
      else if not trusted
      then codes
          "The Appytizer root CA is not trusted in LocalMachine\\Root. Use Repair certificates."
      else []

  -- `names` are the files of the folder `sites`, none if there is no such folder.
  unfoldable pub status : List Text → Manager → TlsStatus
  unfolding ca_files_valid is_trusted count_certificates status_error
  status names m =
      let files_valid = ca_files_valid J C S m.files in
      let trusted = files_valid && is_trusted J C S m in
      let (count, earliest) = count_certificates m names (0, []) in
      record {
        ready = files_valid && trusted;
        trusted = trusted;
        site_certificate_count = count;
        earliest_expiry = earliest;
        error = status_error m.last_error files_valid trusted;
      }
