-- ===== src/Gate/Granted.antt =====
-- Whom a served request acts for.
use text.Mathlib.Text.{starts_with}
use mathlib.Core.List.{Mem, mem-cons_self, mem-cons_of_mem}
use open_format_3d_viewer.Prelude.{
  ℕ, String, ◌≡◌, refl, subst, Bool, true, false, ◌&&◌, not, Option, none, some, List, [], ◌∷◌,
  select, ap, ◌==◌, nat_eq, string_eq, if◌then◌else◌, Bool-cases, inl, inr,
}
use open_format_3d_viewer.Core.Rows.{User}
use open_format_3d_viewer.Core.Session.{Result, ok, raised, scalar_one_or_none, scalar-some}
use open_format_3d_viewer.Gate.{
  Request, Claims, ApiKey, Library, Tables, Credential, header, cookie, Response, served, is_access,
  named, or_empty, key_owner, validate_api_key, optional, or_missing, get_user_by_id,
  user_of_claims, resolve, pick_token, get_current_user, serve, auth_dispatch,
}
use open_format_3d_viewer.Gate.Csrf.{dispatch-user, served-ne-401}

abbrev first_or : {A : Type 0} → A → List A → A
first_or d [] = d
first_or d (x ∷ xs) = x

-- The row that is the only one selected passes the test and is in the table.
only-Mem :
    {A : Type 0} (p : A → Bool) (rows : List A) (x : A)
    → select p rows ≡ x ∷ []
    → (p x ≡ true) × Mem x rows
only-Mem p [] x e = cc
only-Mem p (y ∷ rows) x e = elim (Bool-cases (p y)) [
  | inl b ↦
      let s : y ≡ x = ap (first_or y) (rw b at e) in
      (subst (λ z. p z ≡ true) s b, subst (λ z. Mem z (y ∷ rows)) s mem-cons_self)
  | inr b ↦ let (t, m) = only-Mem p rows x (rw b at e) in (t, mem-cons_of_mem y m)
]

-- A token of type "access" whose subject is the user's id.
abbrev pub AccessToken : Library → (token : String) → User → Type 0
AccessToken lib token u =
    (payload : Claims) × (lib.decode_token token ≡ some payload)
    × ((is_access payload.token_type ≡ true)
        × ((uid : ℕ) × (lib.uuid (or_empty payload.sub) ≡ some uid) × ((u.id == uid) ≡ true)))

-- An API key of the table that is the user's, is not revoked, and has the token's hash.
abbrev pub KeyOf : Library → Tables → (token : String) → User → Type 0
KeyOf lib db token u =
    (k : ApiKey) × (Mem k db.api_keys
      × (((k.key_hash == lib.hash_key token && not k.revoked) ≡ true)
          × ((u.id == k.user_id) ≡ true)))

abbrev HeaderGrants : Bool → Library → Tables → (token : String) → User → Type 0
HeaderGrants true lib db token u = KeyOf lib db token u
HeaderGrants false lib db token u = AccessToken lib token u

-- A header is read as an API key where it begins with "ofv_", a cookie never.
abbrev pub Granted : Library → Tables → Credential → User → Type 0
Granted lib db (header token) u = HeaderGrants (starts_with token "ofv_") lib db token u
Granted lib db (cookie token) u = AccessToken lib token u

abbrev user_of : User → Response → User
user_of d (served c u) = u
user_of d r = d

served-user : {c d : Credential} {u v : User} → served c u ≡ served d v → u ≡ v
served-user {c} {d} {u} {v} e = ap (user_of u) e

module _ (lib : Library) (db : Tables) where
  row-served :
      (c : Credential) (uid : ℕ) (r : Result (Option User)) {d : Credential} {u : User}
      → scalar_one_or_none (select (λ v. v.id == uid) db.users) ≡ r
      → or_missing lib db c r ≡ served d u
      → ((u.id == uid) ≡ true) × Mem u db.users
  row-served c uid (raised e) s h = cc
  row-served c uid (ok none) s h = cc
  row-served c uid (ok (some v)) s h =
      subst (λ w. ((w.id == uid) ≡ true) × Mem w db.users) (served-user h)
        (only-Mem (λ w. w.id == uid) db.users v (scalar-some _ v s))

  id-served :
      (c : Credential) (o : Option ℕ) {d : Credential} {u : User}
      → get_user_by_id lib db c o ≡ served d u
      → ((uid : ℕ) × (o ≡ some uid) × ((u.id == uid) ≡ true)) × Mem u db.users
  id-served c none h = cc
  id-served c (some uid) h =
      let (i, m) =
        row-served c uid (scalar_one_or_none (select (λ v. v.id == uid) db.users)) refl h in
      ((uid, refl, i), m)

  claims-served :
      (c : Credential) (token : String) (o : Option Claims) {d : Credential} {u : User}
      → lib.decode_token token ≡ o
      → user_of_claims lib db c o ≡ served d u
      → AccessToken lib token u × Mem u db.users
  claims-served c token none e h = cc
  claims-served c token (some p) e h = elim (Bool-cases (is_access p.token_type)) [
    | inr a ↦ absurd (served-ne-401 (rw a at h))
    | inl a ↦ elim (Bool-cases (named p.sub)) [
      | inr n ↦ absurd (served-ne-401 (rw (a, n) at h))
      | inl n ↦
          let (i, m) = id-served c (lib.uuid (or_empty p.sub)) (rw (a, n) at h) in
          ((p, e, (a, i)), m)
    ]
  ]

  owner-served :
      (c : Credential) (token : String) (r : Result (Option ApiKey)) {d : Credential} {u : User}
      → scalar_one_or_none
          (select (λ k. k.key_hash == lib.hash_key token && not k.revoked) db.api_keys)
        ≡ r
      → optional c (key_owner lib db r) ≡ served d u
      → KeyOf lib db token u × Mem u db.users
  owner-served c token (raised e) s h = cc
  owner-served c token (ok none) s h = cc
  owner-served c token (ok (some k)) s h =
      let (i, m) =
        user-served c k.user_id (scalar_one_or_none (select (λ u. u.id == k.user_id) db.users)) refl
          h in
      let (passes, key) = only-Mem _ db.api_keys k (scalar-some _ k s) in
      ((k, (key, (passes, i))), m)
    where
      user-served :
          (c : Credential) (uid : ℕ) (r : Result (Option User)) {d : Credential} {u : User}
          → scalar_one_or_none (select (λ v. v.id == uid) db.users) ≡ r
          → optional c r ≡ served d u
          → ((u.id == uid) ≡ true) × Mem u db.users
      user-served c uid (raised e) s h = cc
      user-served c uid (ok none) s h = cc
      user-served c uid (ok (some v)) s h =
          subst (λ w. ((w.id == uid) ≡ true) × Mem w db.users) (served-user h)
            (only-Mem (λ w. w.id == uid) db.users v (scalar-some _ v s))

  header-served :
      (b : Bool) (token : String) {d : Credential} {u : User}
      → starts_with token "ofv_" ≡ b
      → (if b
          then optional (header token) (validate_api_key lib db token)
          else user_of_claims lib db (header token) (lib.decode_token token))
        ≡ served d u
      → HeaderGrants b lib db token u × Mem u db.users
  unfolding validate_api_key
  header-served true token s h =
      owner-served (header token) token
        (scalar_one_or_none
          (select (λ k. k.key_hash == lib.hash_key token && not k.revoked) db.api_keys))
        refl (rw s at h)
  header-served false token s h = claims-served (header token) token (lib.decode_token token) refl h

  resolve-Granted :
      (o : Option Credential) {d : Credential} {u : User}
      → resolve lib db o ≡ served d u
      → (c : Credential) × (o ≡ some c) × (Granted lib db c u × Mem u db.users)
  resolve-Granted none h = cc
  resolve-Granted (some (cookie token)) h =
      (cookie token, refl, claims-served (cookie token) token (lib.decode_token token) refl h)
  resolve-Granted (some (header token)) h =
      (header token, refl, header-served (starts_with token "ofv_") token refl h)

  -- A served request acts for a user of the table, for whom the credential that was picked stands:
  -- an access token with the user's id as its subject, or, in a header only, an API key of the
  -- table that is the user's and is not revoked.
  pub serve-Granted :
      (r : Request) (d : Credential) (u : User)
      → serve lib db r ≡ served d u
      → (c : Credential) × (pick_token (lib.bearer r.authorization) r.access_cookie ≡ some c)
        × (Granted lib db c u × Mem u db.users)
  unfolding serve get_current_user
  serve-Granted r d u h =
      resolve-Granted (pick_token (lib.bearer r.authorization) r.access_cookie)
        (dispatch-user lib db r (auth_dispatch lib r) h)
