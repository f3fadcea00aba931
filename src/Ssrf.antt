-- ===== src/Ssrf.antt =====
-- The two guards on webhook addresses: apps/api/app/core/ssrf.py, where a webhook is registered, and
-- `_validate_webhook_url` of apps/worker/app/tasks/webhook.py, before each delivery. Python's URL
-- parser, name resolution and `ipaddress` are the fields of `Net`.
pub mod Safety
pub mod Tests
use text.Mathlib.Text.{starts_with}
use open_format_3d_viewer.Prelude.{
  ℕ, zero, suc, String, Bool, true, false, ◌&&◌, ◌||◌, not, Option, none, some, List, [], ◌∷◌, any,
  ◌==◌, string_eq, if◌then◌else◌, ◌≡◌,
}

-- The flags of an address.
pub record Ip : Type 0 where
  pub is_private : Bool
  pub is_loopback : Bool
  pub is_link_local : Bool
  pub is_reserved : Bool
  pub is_multicast : Bool
  pub is_unspecified : Bool

-- `urlparse(url).scheme`, `urlparse(url).hostname`, `str.lower`, the address texts of
-- `socket.getaddrinfo(host, None)` (none for a `gaierror`), and `ipaddress.ip_address` (none for a
-- `ValueError`). A URL that starts with "https://" has the scheme "https".
pub record Net : Type 0 where
  pub scheme : String → String
  pub hostname : String → Option String
  pub lower : String → String
  pub getaddrinfo : String → Option (List String)
  pub ip_address : String → Option Ip
  pub https-scheme : (url : String) → starts_with url "https://" ≡ true → scheme url ≡ "https"

abbrev pub is_blocked : Ip → Bool
is_blocked ip =
    ip.is_private || ip.is_loopback || ip.is_link_local || ip.is_reserved || ip.is_multicast
    || ip.is_unspecified

abbrev pub is_in : String → List String → Bool
is_in s names = any (λ n. n == s) names

module _ (net : Net) where
  abbrev pub address_ok : Option Ip → Bool
  address_ok none = false
  address_ok (some ip) = not (is_blocked ip)

  abbrev pub all_ok : List String → Bool
  all_ok [] = true
  all_ok (ip_str ∷ rest) = address_ok (net.ip_address ip_str) && all_ok rest

  abbrev pub resolved_ok : Option (List String) → Bool
  resolved_ok none = false
  resolved_ok (some []) = false
  resolved_ok (some (a ∷ rest)) = all_ok (a ∷ rest)

  -- `not hostname` holds of an empty text too.
  unfoldable pub is_safe_public_host : Option String → Bool
  is_safe_public_host none = false
  is_safe_public_host (some hostname) =
      if hostname == ""
        || is_in (net.lower hostname) ("localhost" ∷ "metadata.google.internal" ∷ [])
      then false
      else resolved_ok (net.getaddrinfo hostname)

  -- The URL, or `none` for a `ValueError`.
  unfoldable pub validate_webhook_url : String → Option String
  unfolding is_safe_public_host
  validate_webhook_url url =
      if not (starts_with url "https://")
      then none
      else if not (is_safe_public_host (net.hostname url))
      then none
      else some url

pub data UrlError : Type 0 where
  scheme_not_https no_hostname blocked_hostname unresolved blocked_address : UrlError

abbrev pub worker_names : List String
worker_names = "localhost" ∷ "localhost.localdomain" ∷ "::1" ∷ "0.0.0.0" ∷ []

module _ (net : Net) where
  -- An address that `ipaddress` does not read is passed over.
  abbrev pub address_error : Option Ip → Option UrlError → Option UrlError
  address_error none next = next
  address_error (some ip) next = if is_blocked ip then some blocked_address else next

  abbrev pub first_blocked : List String → Option UrlError
  first_blocked [] = none
  first_blocked (ip_str ∷ rest) = address_error (net.ip_address ip_str) (first_blocked rest)

  abbrev pub resolved_error : Option (List String) → Option UrlError
  resolved_error none = some unresolved
  resolved_error (some addresses) = first_blocked addresses

  abbrev pub host_error : Option String → Option UrlError
  host_error none = some no_hostname
  host_error (some host) =
      if host == ""
      then some no_hostname
      else if is_in (net.lower host) worker_names
      then some blocked_hostname
      else resolved_error (net.getaddrinfo host)

  -- The `ValueError` that is raised, if any.
  unfoldable pub webhook_url_error : String → Option UrlError
  webhook_url_error url =
      if not (net.scheme url == "https")
      then some scheme_not_https
      else host_error (net.hostname url)
