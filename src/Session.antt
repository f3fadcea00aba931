-- ===== src/Session.antt =====
-- Refresh tokens: services/auth.py with core/redis.py. Redis is the list of its refresh keys; a key's
-- expiry is a `logout` at some time. The JWT library and the UUID parser are the fields of `Tokens`;
-- `issued` counts the tokens that were created, in place of the random `jti` of each.
pub mod Rotation
mod Tests
use open_format_3d_viewer.Prelude.{
  ℕ, suc, ◌+◌, ◌≤◌, ◌≡◌, String, Bool, true, false, not, Option, none, some, List, [], ◌∷◌, select,
  ◌==◌, string_eq, nat_eq, if◌then◌else◌,
}
use open_format_3d_viewer.Core.Exceptions.{Exception, authentication, not_found}
use open_format_3d_viewer.Core.Rows.{User}
use open_format_3d_viewer.Core.Session.{Result, ok, raised, scalar_one_or_none}
use open_format_3d_viewer.Gate.{Claims, named, or_empty}

pub record Tokens : Type 0 where
  pub decode_token : String → Option Claims
  pub create_access_token : (subject : String) → String
  pub create_refresh_token : (subject : String) (jti : ℕ) → String
  pub uuid : String → Option ℕ

pub record State : Type 0 where
  pub refresh_keys : List (String × String)
  pub users : List User
  pub issued : ℕ

pub record TokenResponse : Type 0 where
  pub access_token : String
  pub refresh_token : String

unfoldable pub lookup : String → List (String × String) → Option String
lookup token [] = none
lookup token ((t, user_id) ∷ keys) =
    let rest = lookup token keys in if t == token then some user_id else rest

abbrev pub delete_refresh_token : String → State → State
delete_refresh_token token s = record s {
  refresh_keys = select (λ k. not (k.0 == token)) s.refresh_keys;
}

-- `GETDEL`
abbrev pub consume_refresh_token : String → State → Option String × State
consume_refresh_token token s = (lookup token s.refresh_keys, delete_refresh_token token s)

abbrev pub is_refresh : Option String → Bool
is_refresh none = false
is_refresh (some t) = t == "refresh"

-- What clients do: log in or register, refresh, log out.
pub data Op : Type 0 where
  login : (user_id : String) → Op
  refresh logout : (token : String) → Op

module _ (lib : Tokens) where
  abbrev pub issue_tokens : (user_id : String) → State → TokenResponse × State
  issue_tokens user_id s =
      let token = lib.create_refresh_token user_id s.issued in
      let cleared = delete_refresh_token token s in
      (
        record { access_token = lib.create_access_token user_id; refresh_token = token },
        record cleared {
          refresh_keys = (token, user_id) ∷ cleared.refresh_keys;
          issued = suc s.issued;
        },
      )

  abbrev or_not_found : Result (Option User) → Result User
  or_not_found (raised e) = raised e
  or_not_found (ok none) = raised (not_found "User not found")
  or_not_found (ok (some u)) = ok u

  abbrev pub user_by_id : Option ℕ → State → Result User
  user_by_id none s = raised (authentication "Invalid token subject")
  user_by_id (some uid) s = or_not_found (scalar_one_or_none (select (λ u. u.id == uid) s.users))

  abbrev pub with_user : TokenResponse × State → Result User → Result (TokenResponse × User) × State
  with_user (tokens, s) (raised e) = (raised e, s)
  with_user (tokens, s) (ok u) = (ok (tokens, u), s)

  -- The tokens are issued before the user is looked up.
  abbrev pub issued_for : (user_id : String) → State → Result (TokenResponse × User) × State
  issued_for user_id s = with_user (issue_tokens user_id s) (user_by_id (lib.uuid user_id) s)

  abbrev pub revoked : State → Result (TokenResponse × User) × State
  revoked s = (raised (authentication "Refresh token revoked or expired"), s)

  abbrev pub consumed :
      (user_id : String) → Option String × State → Result (TokenResponse × User) × State
  consumed user_id (none, s) = revoked s
  consumed user_id (some stored, s) = if stored == user_id then issued_for user_id s else revoked s

  abbrev pub decoded :
      (token : String) → Option Claims → State → Result (TokenResponse × User) × State
  decoded token none s = (raised (authentication "Invalid refresh token"), s)
  decoded token (some payload) s =
      if not (is_refresh payload.token_type)
      then (raised (authentication "Invalid token type"), s)
      else if not (named payload.sub)
      then (raised (authentication "Invalid refresh token"), s)
      else consumed (or_empty payload.sub) (consume_refresh_token token s)

  unfoldable pub refresh_access_token : String → State → Result (TokenResponse × User) × State
  unfolding scalar_one_or_none
  refresh_access_token token s = decoded token (lib.decode_token token) s

  abbrev pub step : Op → State → State
  step (login user_id) s = (issue_tokens user_id s).1
  step (refresh token) s = (refresh_access_token token s).1
  step (logout token) s = delete_refresh_token token s

  unfoldable pub run : List Op → State → State
  run [] s = s
  run (op ∷ ops) s = run ops (step op s)
