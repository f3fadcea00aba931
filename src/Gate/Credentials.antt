-- ===== src/Gate/Credentials.antt =====
-- What a served request was authenticated by.
use text.Mathlib.Text.{starts_with}
use open_format_3d_viewer.Prelude.{
  ℕ, String, ◌≡◌, refl, select, nat_eq, Bool, true, false, not, Option, none, some, ◌==◌, string_eq,
  if◌then◌else◌,
}
use open_format_3d_viewer.Core.Rows.{User}
use open_format_3d_viewer.Core.Session.{Result, ok, raised, scalar_one_or_none}
use open_format_3d_viewer.Gate.{
  Claims, Library, Tables, Credential, header, Response, served, or_empty, resolve, optional,
  or_missing, get_user_by_id, user_of_claims, is_access, named, validate_api_key,
}

module _ (lib : Library) (db : Tables) where
  -- A response is served by the credential that was picked, if it is served.
  abbrev pub By : Credential → Response → Type 0
  By c (served d u) = d ≡ c
  By c r = Unit

  By-optional : (c : Credential) (r : Result (Option User)) → By c (optional c r)
  By-optional c (raised e) = tt
  By-optional c (ok none) = tt
  By-optional c (ok (some u)) = refl

  By-or_missing : (c : Credential) (r : Result (Option User)) → By c (or_missing lib db c r)
  By-or_missing c (raised e) = tt
  By-or_missing c (ok none) = tt
  By-or_missing c (ok (some u)) = refl

  By-get_user_by_id : (c : Credential) (o : Option ℕ) → By c (get_user_by_id lib db c o)
  By-get_user_by_id c none = tt
  By-get_user_by_id c (some uid) =
      By-or_missing c (scalar_one_or_none (select (λ u. u.id == uid) db.users))

  By-if : (c : Credential) (b : Bool) (r s : Response) → By c r → By c s → By c (if b then r else s)
  By-if c true r s h k = h
  By-if c false r s h k = k

  By-claims : (c : Credential) (o : Option Claims) → By c (user_of_claims lib db c o)
  By-claims c none = tt
  By-claims c (some p) =
      By-if c (not (is_access p.token_type)) _ _ tt
        (By-if c (not (named p.sub)) _ _ tt (By-get_user_by_id c (lib.uuid (or_empty p.sub))))

  pub By-header : (token : String) → By (header token) (resolve lib db (some (header token)))
  By-header token =
      By-if (header token) (starts_with token "ofv_") _ _
        (By-optional (header token) (validate_api_key lib db token))
        (By-claims (header token) (lib.decode_token token))
