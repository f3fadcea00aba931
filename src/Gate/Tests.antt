-- ===== src/Gate/Tests.antt =====
-- Runs of the gate with one user and one token.
use mathlib.Core.List.{Mem}
use text.Mathlib.Text.{starts_with}
use open_format_3d_viewer.Prelude.{
  String, ◌≡◌, refl, ap, Bool, true, false, Option, none, some, [], ◌∷◌, if◌then◌else◌, ◌==◌,
  string_eq,
}
use open_format_3d_viewer.Core.Rows.{User}
use open_format_3d_viewer.Core.Session.{scalar_one_or_none}
use open_format_3d_viewer.Gate.{
  Credential, pick_token, Request, Library, Tables, cookie, served, serve, get_current_user,
  auth_dispatch, or_empty, from_char, is_excluded, requires_csrf_check, validate_csrf,
}
use open_format_3d_viewer.Gate.Granted.{Granted, serve-Granted}
use open_format_3d_viewer.Gate.Csrf.{DoubleSubmit, serve-DoubleSubmit}

abbrev pub ann : User
ann = record {
  id = 1;
  email = "ann@example.com";
  password_hash = none;
  name = none;
  plan = "free";
  provider = none;
  provider_user_id = none;
}

-- The bearer of a header is the rest of it after "Bearer ".
abbrev pub plain_bearer : Bool → Option String → Option String
plain_bearer true h = some (from_char 7 (or_empty h))
plain_bearer false h = none

abbrev pub one_token : Library
one_token = record {
  decode_token = λ t.
      if t == "jwt" then some (record { token_type = some "access"; sub = some "1" }) else none;
  hash_key = λ k. k;
  uuid = λ s. some 1;
  bearer = λ h. plain_bearer (starts_with (or_empty h) "Bearer ") h;
  bearer-header = λ h s n. ap (λ b. plain_bearer b h) s;
}

abbrev pub one_user : Tables
one_user = record { users = ann ∷ []; api_keys = [] }

abbrev delete_request : Request
delete_request = record {
  method = "DELETE";
  path = "/v1/projects/1";
  authorization = none;
  csrf_header = some "t";
  access_cookie = some "jwt";
  refresh_cookie = none;
  csrf_cookie = some "t";
}

cookie_served : serve one_token one_user delete_request ≡ served (cookie "jwt") ann
unfolding serve auth_dispatch is_excluded requires_csrf_check validate_csrf get_current_user
    scalar_one_or_none
cookie_served = refl

project_gated : is_excluded "/v1/projects/1" "DELETE" ≡ false
unfolding is_excluded
project_gated = refl

serve-DoubleSubmit_example : DoubleSubmit delete_request
serve-DoubleSubmit_example =
    serve-DoubleSubmit one_token one_user delete_request "jwt" ann project_gated refl cookie_served

serve-Granted_example :
    (c : Credential) × (pick_token none (some "jwt") ≡ some c)
    × (Granted one_token one_user c ann × Mem ann (ann ∷ []))
serve-Granted_example =
    serve-Granted one_token one_user delete_request (cookie "jwt") ann cookie_served
