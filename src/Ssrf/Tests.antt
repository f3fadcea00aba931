-- ===== src/Ssrf/Tests.antt =====
-- Runs of the guards on webhook addresses, where one host resolves to a public address.
use text.Mathlib.Text.{starts_with}
use open_format_3d_viewer.Prelude.{
  String, ◌≡◌, refl, ap, false, Option, none, some, [], ◌∷◌, if◌then◌else◌, string_eq, ◌==◌,
}
use open_format_3d_viewer.Ssrf.{
  Ip, Net, is_in, validate_webhook_url, webhook_url_error, worker_names,
}
use open_format_3d_viewer.Ssrf.Safety.{
  ResolvesPublic, ResolvesUnblocked, validate_webhook_url-public, webhook_url_error-none,
  registered-delivered,
}

abbrev public_ip : Ip
public_ip = record {
  is_private = false;
  is_loopback = false;
  is_link_local = false;
  is_reserved = false;
  is_multicast = false;
  is_unspecified = false;
}

abbrev pub one_host : Net
one_host = record {
  scheme = λ url. if starts_with url "https://" then "https" else "";
  hostname = λ url. some "hooks.example.com";
  lower = λ s. s;
  getaddrinfo = λ h. if h == "hooks.example.com" then some ("93.184.216.34" ∷ []) else none;
  ip_address = λ s. some public_ip;
  https-scheme = λ url e. rw e refl;
}

abbrev pub hook_url : String
hook_url = "https://hooks.example.com/model"

hook_accepted : validate_webhook_url one_host hook_url ≡ some hook_url
unfolding validate_webhook_url
hook_accepted = refl

hook_passes : webhook_url_error one_host hook_url ≡ none
unfolding webhook_url_error
hook_passes = refl

validate_webhook_url-public_example :
    (hook_url ≡ hook_url)
    × ((host : String) × (some "hooks.example.com" ≡ some host) × ResolvesPublic one_host host)
validate_webhook_url-public_example =
    validate_webhook_url-public one_host hook_url hook_url hook_accepted

webhook_url_error-none_example :
    (host : String) × (some "hooks.example.com" ≡ some host) × ResolvesUnblocked one_host host
webhook_url_error-none_example = webhook_url_error-none one_host hook_url hook_passes

abbrev or_empty : Option String → String
or_empty none = ""
or_empty (some s) = s

hook_name : (host : String) → some "hooks.example.com" ≡ some host → is_in host worker_names ≡ false
hook_name host e = rw⁻¹ (ap or_empty e) refl

registered-delivered_example : webhook_url_error one_host hook_url ≡ none
registered-delivered_example = registered-delivered one_host hook_url hook_accepted hook_name
