-- ===== src/Session/Tests.antt =====
-- Runs with one user, whose first refresh token is "t0".
use open_format_3d_viewer.Prelude.{◌≡◌, refl, none, some, List, [], ◌∷◌, string_eq}
use open_format_3d_viewer.Core.Rows.{User}
use open_format_3d_viewer.Core.Session.{ok, scalar_one_or_none}
use open_format_3d_viewer.Session.{
  Tokens, State, TokenResponse, lookup, delete_refresh_token, refresh_access_token, Op, login,
  refresh, run,
}
use open_format_3d_viewer.Session.Rotation.{Raises, refresh-once, logout-final}

abbrev bob : User
bob = record {
  id = 1;
  email = "bob@example.com";
  password_hash = none;
  name = none;
  plan = "free";
  provider = none;
  provider_user_id = none;
}

abbrev signed : Tokens
signed = record {
  decode_token = λ t. some (record { token_type = some "refresh"; sub = some "1" });
  create_access_token = λ u. "access";
  create_refresh_token = λ u n. "t1";
  uuid = λ s. some 1;
}

abbrev logged_in : State
logged_in = record { refresh_keys = ("t0", "1") ∷ []; users = bob ∷ []; issued = 1 }

abbrev rotated : TokenResponse × User
rotated = (record { access_token = "access"; refresh_token = "t1" }, bob)

first_accepted : (refresh_access_token signed "t0" logged_in).0 ≡ ok rotated
unfolding refresh_access_token lookup scalar_one_or_none
first_accepted = refl

abbrev later : List Op
later = refresh "t1" ∷ login "1" ∷ []

refresh-once_example : Raises signed "t0" (
    refresh_access_token signed "t0"
      (run signed later (refresh_access_token signed "t0" logged_in).1))
refresh-once_example =
    refresh-once signed "t0" logged_in rotated later (λ u n l. refl) first_accepted

logout-final_example :
    Raises signed "t0"
      (refresh_access_token signed "t0" (run signed later (delete_refresh_token "t0" logged_in)))
logout-final_example = logout-final signed "t0" logged_in later (λ u n l. refl)
