-- ===== src/Ssrf/Safety.antt =====
-- What the guards on webhook addresses let through.
use open_format_3d_viewer.Prelude.{
  String, ◌≡◌, refl, Bool, true, false, ◌&&◌, not, Option, none, some, List, [], ◌∷◌, All, ◌==◌,
  string_eq, if◌then◌else◌, Bool-cases, Option-cases, inl, inr, subst,
}
use text.Mathlib.Text.{starts_with}
use open_format_3d_viewer.Ssrf.{
  Ip, Net, is_blocked, is_in, address_ok, all_ok, resolved_ok, is_safe_public_host,
  validate_webhook_url, UrlError, scheme_not_https, no_hostname, blocked_hostname, blocked_address,
  address_error, first_blocked, resolved_error, worker_names, host_error, webhook_url_error,
}

-- An address that `ipaddress` reads and none of whose flags is set.
abbrev pub IsPublic : Net → String → Type 0
IsPublic net a = (ip : Ip) × (net.ip_address a ≡ some ip) × (is_blocked ip ≡ false)

-- An address that `ipaddress` reads has none of its flags set.
abbrev pub IsNotBlocked : Net → String → Type 0
IsNotBlocked net a = (ip : Ip) → net.ip_address a ≡ some ip → is_blocked ip ≡ false

none-ne-some {ℓ} : {A : Type ℓ} {a : A} → some a ≡ none → ⊥
none-ne-some e = cc

false-ne-true : false ≡ true → ⊥
false-ne-true e = cc

not-true : (b : Bool) → not b ≡ true → b ≡ false
not-true true h = cc
not-true false h = refl

and-true : (a b : Bool) → a && b ≡ true → (a ≡ true) × (b ≡ true)
and-true true b h = (refl, h)
and-true false b h = cc

passed : (a b : Bool) → (if a then false else b) ≡ true → b ≡ true
passed true b h = cc
passed false b h = h

no_error :
    (b : Bool) (e : UrlError) {r : Option UrlError} → (if b then some e else r) ≡ none → r ≡ none
no_error true e h = absurd (none-ne-some h)
no_error false e h = h

no_errors :
    (a b : Bool) (e f : UrlError) {r : Option UrlError}
    → (if a then some e else if b then some f else r) ≡ none
    → r ≡ none
no_errors a b e f h = no_error b f (no_error a e h)

abbrev or_ip : Ip → Option Ip → Ip
or_ip i none = i
or_ip i (some j) = j

if-some :
    (b : Bool) (e : UrlError) (r : Option UrlError) → (if b then some e else r) ≡ none → b ≡ false
if-some true e r h = absurd (none-ne-some h)
if-some false e r h = refl

accepts :
    (a b : Bool) (url accepted : String)
    → (if not a then none else if not b then none else some url) ≡ some accepted
    → (a ≡ true) × ((b ≡ true) × (accepted ≡ url))
accepts true true url accepted h = (refl, (refl, cc))
accepts true false url accepted h = cc
accepts false b url accepted h = cc

module _ (net : Net) where
  address_ok-IsPublic : (a : String) → address_ok net (net.ip_address a) ≡ true → IsPublic net a
  address_ok-IsPublic a h = elim (Option-cases (net.ip_address a)) [
    | inl e ↦ absurd (false-ne-true (rw e at h))
    | inr (ip, e) ↦ (ip, e, not-true (is_blocked ip) (rw e at h))
  ]

  all_ok-IsPublic : (ips : List String) → all_ok net ips ≡ true → All (IsPublic net) ips
  all_ok-IsPublic [] h = tt
  all_ok-IsPublic (a ∷ ips) h =
      let (x, y) = and-true (address_ok net (net.ip_address a)) (all_ok net ips) h in
      (address_ok-IsPublic a x, all_ok-IsPublic ips y)

  -- The host resolves to one address at least, and all of them are public.
  abbrev pub ResolvesPublic : String → Type 0
  ResolvesPublic host =
      (ips : List String) × (net.getaddrinfo host ≡ some ips)
      × ((ips ≡ [] → ⊥) × All (IsPublic net) ips)

  resolved_ok-public :
      (host : String) (r : Option (List String))
      → net.getaddrinfo host ≡ r
      → resolved_ok net r ≡ true
      → ResolvesPublic host
  resolved_ok-public host none e h = cc
  resolved_ok-public host (some []) e h = cc
  resolved_ok-public host (some (a ∷ ips)) e h =
      (a ∷ ips, e, ((λ n. cc), all_ok-IsPublic (a ∷ ips) h))

  is_safe-public :
      (h : Option String)
      → is_safe_public_host net h ≡ true
      → (host : String) × (h ≡ some host) × ResolvesPublic host
  unfolding is_safe_public_host
  is_safe-public none e = cc
  is_safe-public (some host) e =
      (host, refl, resolved_ok-public host (net.getaddrinfo host) refl (passed _ _ e))

  -- A webhook's address is accepted unchanged, and it has a host that resolves, and all of the
  -- addresses that the host resolves to are read and public.
  pub validate_webhook_url-public :
      (url accepted : String)
      → validate_webhook_url net url ≡ some accepted
      → (accepted ≡ url) × ((host : String) × (net.hostname url ≡ some host) × ResolvesPublic host)
  unfolding validate_webhook_url
  validate_webhook_url-public url accepted h =
      let (s, k) =
        accepts (starts_with url "https://") (is_safe_public_host net (net.hostname url)) url
          accepted h in
      (k.1, is_safe-public (net.hostname url) k.0)

  address_error-none :
      (o : Option Ip) (next : Option UrlError)
      → address_error net o next ≡ none
      → ((ip : Ip) → o ≡ some ip → is_blocked ip ≡ false) × (next ≡ none)
  address_error-none none next h = ((λ ip e. cc), h)
  address_error-none (some i) next h = (
    (λ ip e.
        subst (λ o. is_blocked (or_ip i o) ≡ false) e
          (if-some (is_blocked i) blocked_address next h)),
    no_error (is_blocked i) blocked_address h,
  )

  first_blocked-none :
      (ips : List String) → first_blocked net ips ≡ none → All (IsNotBlocked net) ips
  first_blocked-none [] h = tt
  first_blocked-none (a ∷ ips) h =
      let (x, y) = address_error-none (net.ip_address a) (first_blocked net ips) h in
      (x, first_blocked-none ips y)

  -- The host resolves, and of its addresses those that are read are not blocked.
  abbrev pub ResolvesUnblocked : String → Type 0
  ResolvesUnblocked host =
      (ips : List String) × (net.getaddrinfo host ≡ some ips) × All (IsNotBlocked net) ips

  resolved_error-none :
      (host : String) (r : Option (List String))
      → net.getaddrinfo host ≡ r
      → resolved_error net r ≡ none
      → ResolvesUnblocked host
  resolved_error-none host none e h = absurd (none-ne-some h)
  resolved_error-none host (some ips) e h = (ips, e, first_blocked-none ips h)

  host_error-none :
      (h : Option String)
      → host_error net h ≡ none
      → (host : String) × (h ≡ some host) × ResolvesUnblocked host
  host_error-none none e = absurd (none-ne-some e)
  host_error-none (some host) e = (
    host,
    refl,
    resolved_error-none host (net.getaddrinfo host) refl (
        no_errors (host == "") (is_in (net.lower host) worker_names) no_hostname blocked_hostname
          e),
  )

  -- Before a delivery nothing is let through that resolves to a blocked address: the host resolves,
  -- and of its addresses those that are read are not blocked.
  pub webhook_url_error-none :
      (url : String)
      → webhook_url_error net url ≡ none
      → (host : String) × (net.hostname url ≡ some host) × ResolvesUnblocked host
  unfolding webhook_url_error
  webhook_url_error-none url h =
      host_error-none (net.hostname url)
        (no_error (not (net.scheme url == "https")) scheme_not_https h)

  address_ok-error :
      (o : Option Ip) (next : Option UrlError)
      → address_ok net o ≡ true
      → next ≡ none
      → address_error net o next ≡ none
  address_ok-error none next h e = cc
  address_ok-error (some ip) next h e = rw (not-true (is_blocked ip) h) e

  all_ok-error : (ips : List String) → all_ok net ips ≡ true → first_blocked net ips ≡ none
  all_ok-error [] h = refl
  all_ok-error (a ∷ ips) h =
      let (x, y) = and-true (address_ok net (net.ip_address a)) (all_ok net ips) h in
      address_ok-error (net.ip_address a) (first_blocked net ips) x (all_ok-error ips y)

  resolved_ok-error :
      (r : Option (List String)) → resolved_ok net r ≡ true → resolved_error net r ≡ none
  resolved_ok-error none h = cc
  resolved_ok-error (some []) h = cc
  resolved_ok-error (some (a ∷ ips)) h = all_ok-error (a ∷ ips) h

  safe-host_error :
      (h : Option String)
      → is_safe_public_host net h ≡ true
      → ((host : String) → h ≡ some host → is_in (net.lower host) worker_names ≡ false)
      → host_error net h ≡ none
  unfolding is_safe_public_host
  safe-host_error none e n = cc
  safe-host_error (some host) e n = elim (Bool-cases (host == "")) [
    | inl b ↦ absurd (false-ne-true (rw b at e))
    | inr b ↦
        rw (b, n host refl)
          (resolved_ok-error (net.getaddrinfo host)
            (passed _ (resolved_ok net (net.getaddrinfo host)) e))
  ]

  -- As long as names resolve as they did, an address that could be registered is let through at
  -- delivery, unless its host is one of the names that only the worker blocks.
  pub registered-delivered :
      (url : String)
      → validate_webhook_url net url ≡ some url
      → ((host : String)
          → net.hostname url ≡ some host
          → is_in (net.lower host) worker_names ≡ false)
      → webhook_url_error net url ≡ none
  unfolding validate_webhook_url webhook_url_error
  registered-delivered url h n =
      let (s, k) =
        accepts (starts_with url "https://") (is_safe_public_host net (net.hostname url)) url url
          h in
      rw (string_eq.complete (net.scheme url) "https" (net.https-scheme url s))
        (safe-host_error (net.hostname url) k.0 n)
