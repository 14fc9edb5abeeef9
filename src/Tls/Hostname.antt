-- ===== src/Tls/Hostname.antt =====
-- valid_hostname in engine/tls/certificate_manager.cpp.
use appytizer_app_server.Base.{
  ℕ, ◌-◌, Bool, ◌&&◌, ◌||◌, not, List, Text, length, get_or, take, is_empty, all, leb, ltb, ◌==◌,
  if◌then◌else◌, true, false, ends_with,
}
use appytizer_app_server.Dns.{site_suffix}
use appytizer_app_server.Sites.Labels.{front, back}
pub mod Agreement

-- std::islower, std::isdigit of the "C" locale, or a hyphen.
abbrev pub is_host_byte : ℕ → Bool
is_host_byte c = (leb b'a' c && leb c b'z') || ((leb b'0' c && leb c b'9') || (c == b'-'))

-- The tests of the part in front of the suffix.
unfoldable pub valid_host_label : Text → Bool
valid_host_label label =
    if is_empty label || (ltb 63 (length label) || ((front label == b'-') || (back label == b'-')))
    then false
    else all is_host_byte label

unfoldable pub valid_hostname : Text → Bool
unfolding valid_host_label
valid_hostname hostname =
    if not (ends_with site_suffix hostname) || leb (length hostname) (length site_suffix)
    then false
    else valid_host_label (take (length hostname - length site_suffix) hostname)
