-- ===== src/Gate.antt =====
-- Who a request is served for: middleware/auth_middleware.py, middleware/csrf_middleware.py with
-- core/csrf.py, and `get_current_user` of core/dependencies.py with services/api_key.py. The JWT
-- library, SHA-256, Python's UUID parser and FastAPI's `HTTPBearer` are the fields of `Library`.
pub mod Credentials
pub mod Csrf
pub mod Granted
pub mod Tests
use Prim.Native.Char.{Char, code}
use Prim.Native.String
use text.Mathlib.Text.{starts_with}
use open_format_3d_viewer.Prelude.{
  ℕ, zero, suc, String, Bool, true, false, ◌&&◌, ◌||◌, not, Option, none, some, List, [], ◌∷◌, any,
  select, ◌==◌, string_eq, nat_eq, if◌then◌else◌, ◌≡◌,
}
use open_format_3d_viewer.Core.Exceptions.{Exception, authentication, not_found}
use open_format_3d_viewer.Core.Rows.{User}
use open_format_3d_viewer.Core.Session.{Result, ok, raised, scalar_one_or_none}

-- `s[n:]`
abbrev pub from_char : ℕ → String → String
from_char zero s = s
from_char (suc n) String.[] = String.[]
from_char (suc n) (String.◌∷◌ c s) = from_char n s

abbrev has_slash : String → Bool
has_slash String.[] = false
has_slash (String.◌∷◌ c s) = code c == 47 || has_slash s

pub record Request : Type 0 where
  pub method : String
  pub path : String
  pub authorization : Option String
  pub csrf_header : Option String
  pub access_cookie : Option String
  pub refresh_cookie : Option String
  pub csrf_cookie : Option String

-- What the code reads of a token's payload.
pub record Claims : Type 0 where
  pub token_type : Option String
  pub sub : Option String

pub record ApiKey : Type 0 where
  pub user_id : ℕ
  pub key_hash : String
  pub revoked : Bool

abbrev pub or_empty : Option String → String
or_empty none = ""
or_empty (some s) = s

-- `HTTPBearer` gives the text after the scheme "Bearer", whatever the scheme's case, and none
-- without such a header.
pub record Library : Type 0 where
  pub decode_token : String → Option Claims
  pub hash_key : String → String
  pub uuid : String → Option ℕ
  pub bearer : Option String → Option String
  pub bearer-header :
      (h : Option String)
      → starts_with (or_empty h) "Bearer " ≡ true
      → (from_char 7 (or_empty h) ≡ "" → ⊥)
      → bearer h ≡ some (from_char 7 (or_empty h))

pub record Tables : Type 0 where
  pub users : List User
  pub api_keys : List ApiKey

abbrev pub is_share_link : String → Bool
is_share_link path =
    starts_with path "/v1/share/"
    && not (from_char 10 path == "")
    && not (has_slash (from_char 10 path))

unfoldable pub is_excluded : (path method : String) → Bool
is_excluded path method =
    if not (starts_with path "/v1/")
    then true
    else if starts_with path "/v1/auth/"
    then true
    else if is_share_link path
    then method == "GET"
    else false

-- The request is answered with 401, or goes on; `request.state.auth_via_cookie` is false where the
-- middleware does not set it.
pub data Gated : Type 0 where
  unauthorized : Gated
  passes : (auth_via_cookie : Bool) → Gated

abbrev pub is_access : Option String → Bool
is_access none = false
is_access (some t) = t == "access"

abbrev pub named : Option String → Bool
named none = false
named (some s) = not (s == "")

abbrev pub gate_claims : (auth_via_cookie : Bool) → Option Claims → Gated
gate_claims via none = unauthorized
gate_claims via (some payload) =
    if not (is_access payload.token_type)
    then unauthorized
    else if not (named payload.sub)
    then unauthorized
    else passes via

abbrev pub present : Option String → Bool
present none = false
present (some s) = true

module _ (lib : Library) where
  abbrev pub gate_token : (auth_via_cookie is_api_key : Bool) → Option String → Gated
  gate_token via is_api_key none = unauthorized
  gate_token via is_api_key (some token) =
      if token == ""
      then unauthorized
      else if is_api_key
      then passes false
      else gate_claims via (lib.decode_token token)

  -- `if auth_header.startswith("Bearer ")`
  abbrev pub gate_header : Bool → Request → Gated
  gate_header true r =
      let token = from_char 7 (or_empty r.authorization) in
      gate_token false (starts_with token "ofv_") (some token)
  gate_header false r = gate_token (present r.access_cookie) false r.access_cookie

  unfoldable pub auth_dispatch : Request → Gated
  unfolding is_excluded
  auth_dispatch r =
      if is_excluded r.path r.method
      then passes false
      else gate_header (starts_with (or_empty r.authorization) "Bearer ") r

abbrev pub is_safe_method : String → Bool
is_safe_method m = any (λ s. s == m) ("GET" ∷ "HEAD" ∷ "OPTIONS" ∷ [])

abbrev pub is_refresh_path : String → Bool
is_refresh_path p = any (λ s. s == p) ("/v1/auth/refresh" ∷ "/v1/auth/logout" ∷ [])

unfoldable pub requires_csrf_check : (auth_via_cookie : Bool) → Request → Bool
requires_csrf_check auth_via_cookie r =
    if is_safe_method r.method
    then false
    else if starts_with (or_empty r.authorization) "Bearer "
    then false
    else if auth_via_cookie
    then true
    else is_refresh_path r.path && present r.refresh_cookie

-- `secrets.compare_digest` of two ASCII texts is their equality.
abbrev pub tokens_match : Option String → Option String → Bool
tokens_match (some c) (some h) = if c == "" || h == "" then false else c == h
tokens_match (some c) none = false
tokens_match none h = false

unfoldable pub validate_csrf : Request → Bool
validate_csrf r = tokens_match r.csrf_cookie r.csrf_header

-- Where the token of `get_current_user` comes from.
pub data Credential : Type 0 where
  header cookie : (token : String) → Credential

pub data Response : Type 0 where
  http_401 http_403 : Response
  error : Exception → Response
  served : Credential → User → Response

-- `if credentials: …`, `if not token: …`
abbrev from_cookie : Option String → Option Credential
from_cookie none = none
from_cookie (some token) = if token == "" then none else some (cookie token)

abbrev pub pick_token : (credentials access_cookie : Option String) → Option Credential
pick_token none c = from_cookie c
pick_token (some token) c = if token == "" then from_cookie c else some (header token)

abbrev pub optional : Credential → Result (Option User) → Response
optional c (raised e) = error e
optional c (ok none) = http_401
optional c (ok (some u)) = served c u

module _ (lib : Library) (db : Tables) where
  abbrev pub key_owner : Result (Option ApiKey) → Result (Option User)
  key_owner (raised e) = raised e
  key_owner (ok none) = ok none
  key_owner (ok (some k)) = scalar_one_or_none (select (λ u. u.id == k.user_id) db.users)

  unfoldable pub validate_api_key : String → Result (Option User)
  unfolding scalar_one_or_none
  validate_api_key raw_key =
      if not (starts_with raw_key "ofv_")
      then ok none
      else key_owner (
          scalar_one_or_none
            (select (λ k. k.key_hash == lib.hash_key raw_key && not k.revoked) db.api_keys))

  abbrev pub or_missing : Credential → Result (Option User) → Response
  or_missing c (raised e) = error e
  or_missing c (ok none) = error (not_found "User not found")
  or_missing c (ok (some u)) = served c u

  abbrev pub get_user_by_id : Credential → Option ℕ → Response
  get_user_by_id c none = error (authentication "Invalid token subject")
  get_user_by_id c (some uid) =
      or_missing c (scalar_one_or_none (select (λ u. u.id == uid) db.users))

  abbrev pub user_of_claims : Credential → Option Claims → Response
  user_of_claims c none = http_401
  user_of_claims c (some payload) =
      if not (is_access payload.token_type)
      then http_401
      else if not (named payload.sub)
      then http_401
      else get_user_by_id c (lib.uuid (or_empty payload.sub))

  -- A cookie is not read as an API key.
  abbrev pub resolve : Option Credential → Response
  resolve none = http_401
  resolve (some (cookie token)) = user_of_claims (cookie token) (lib.decode_token token)
  resolve (some (header token)) =
      if starts_with token "ofv_"
      then optional (header token) (validate_api_key token)
      else user_of_claims (header token) (lib.decode_token token)

  unfoldable pub get_current_user : Request → Response
  unfolding validate_api_key
  get_current_user r = resolve (pick_token (lib.bearer r.authorization) r.access_cookie)

  abbrev pub csrf_dispatch : Request → Gated → Response
  csrf_dispatch r unauthorized = http_401
  csrf_dispatch r (passes via) =
      if not (requires_csrf_check via r)
      then get_current_user r
      else if not (validate_csrf r)
      then http_403
      else get_current_user r

  -- `AuthMiddleware`, then `CSRFMiddleware`, then the user of a route that depends on `get_current_user`.
  unfoldable pub serve : Request → Response
  unfolding auth_dispatch
  serve r = csrf_dispatch r (auth_dispatch lib r)
