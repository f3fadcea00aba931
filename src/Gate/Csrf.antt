-- ===== src/Gate/Csrf.antt =====
-- Which requests the double submit cookie protects.
use text.Mathlib.Text.{starts_with}
use open_format_3d_viewer.Prelude.{
  String, ◌≡◌, refl, sym, ap, subst, ◌∙◌, nat_eq, ◌&&◌, Bool, true, false, ◌||◌, not, Option, none,
  some, ◌==◌, string_eq, if◌then◌else◌, Bool-cases, inl, inr,
}
use open_format_3d_viewer.Core.Rows.{User}
use open_format_3d_viewer.Gate.{
  Request, Claims, Library, Tables, is_excluded, Gated, unauthorized, passes, gate_claims,
  gate_token, auth_dispatch, is_safe_method, is_refresh_path, requires_csrf_check, validate_csrf,
  tokens_match, Credential, header, cookie, http_401, http_403, served, get_current_user,
  csrf_dispatch, serve, or_empty, from_char, resolve, pick_token, present, is_access, named,
  gate_header,
}
use open_format_3d_viewer.Gate.Credentials.{By, By-header}

-- The request carries one token, which is not empty, both as its cookie and as its header.
abbrev pub DoubleSubmit : Request → Type 0
DoubleSubmit r =
    (c : String) × (r.csrf_cookie ≡ some c) × ((r.csrf_header ≡ some c) × ((c == "") ≡ false))

served-ne-403 : {c : Credential} {u : User} → http_403 ≡ served c u → ⊥
served-ne-403 e = cc

pub served-ne-401 : {c : Credential} {u : User} → http_401 ≡ served c u → ⊥
served-ne-401 e = cc

false-ne-true : false ≡ true → ⊥
false-ne-true e = cc

header-ne-cookie : {s t : String} → cookie s ≡ header t → ⊥
header-ne-cookie e = cc

both-set : (a b e : Bool) → (if a || b then false else e) ≡ true → (a ≡ false) × (e ≡ true)
both-set true b e h = cc
both-set false true e h = cc
both-set false false e h = (refl, h)

-- The test on cross-site requests, as a test on its conditions.
checked_if :
    (a b c : Bool)
    → a ≡ false
    → b ≡ false
    → (if a then false else if b then false else if true then true else c) ≡ true
checked_if a b c h k = rw (h, k) refl

match-same :
    (a b : Option String)
    → tokens_match a b ≡ true
    → (c : String) × (a ≡ some c) × ((b ≡ some c) × ((c == "") ≡ false))
match-same none b h = cc
match-same (some c) none h = cc
match-same (some c) (some d) h =
    let (a, b) = both-set (c == "") (d == "") (c == d) h in
    (c, refl, (ap some (sym (string_eq.sound c d b)), a))

validate_csrf-DoubleSubmit : (r : Request) → validate_csrf r ≡ true → DoubleSubmit r
unfolding validate_csrf
validate_csrf-DoubleSubmit r h = match-same r.csrf_cookie r.csrf_header h

module _ (lib : Library) (db : Tables) (r : Request) where
  checked :
      (via : Bool) {c : Credential} {u : User}
      → csrf_dispatch lib db r (passes via) ≡ served c u
      → requires_csrf_check via r ≡ true
      → DoubleSubmit r
  checked via h q = elim (Bool-cases (validate_csrf r)) [
    | inl b ↦ validate_csrf-DoubleSubmit r b
    | inr b ↦ absurd (served-ne-403 (rw (q, b) at h))
  ]

  -- What is served is what `get_current_user` answers.
  pub dispatch-user :
      (g : Gated) {c : Credential} {u : User}
      → csrf_dispatch lib db r g ≡ served c u
      → get_current_user lib db r ≡ served c u
  dispatch-user unauthorized h = absurd (served-ne-401 h)
  dispatch-user (passes via) h = elim (Bool-cases (requires_csrf_check via r)) [
    | inl q ↦ elim (Bool-cases (validate_csrf r)) [
      | inl b ↦ rw (q, b) at h
      | inr b ↦ absurd (served-ne-403 (rw (q, b) at h))
    ]
    | inr q ↦ rw q at h
  ]

  not_empty : (token : String) → (token == "") ≡ false → token ≡ "" → ⊥
  not_empty token b q = false-ne-true (sym b ∙ string_eq.complete token "" q)

  -- A Bearer header that the gate lets through is the credential, not the cookie.
  bearer_header-user :
      (token : String) (u : User)
      → starts_with (or_empty r.authorization) "Bearer " ≡ true
      → ((from_char 7 (or_empty r.authorization) == "") ≡ false)
      → get_current_user lib db r ≡ served (cookie token) u
      → ⊥
  unfolding get_current_user
  bearer_header-user token u s b h =
      let t : String = from_char 7 (or_empty r.authorization) in
      let c : pick_token (lib.bearer r.authorization) r.access_cookie ≡ some (header t) =
        rw (lib.bearer-header r.authorization s (not_empty t b), b) refl in
      header-ne-cookie
        (subst (By lib db (header t)) (ap (resolve lib db) (sym c) ∙ h) (By-header lib db t))

  bearer_header-dispatch :
      (token : String) (u : User)
      → starts_with (or_empty r.authorization) "Bearer " ≡ true
      → csrf_dispatch lib db r (gate_header lib true r) ≡ served (cookie token) u
      → ⊥
  bearer_header-dispatch token u s h =
      elim (Bool-cases (from_char 7 (or_empty r.authorization) == "")) [
        | inl b ↦ served-ne-401 (rw b at h)
        | inr b ↦ bearer_header-user token u s b (dispatch-user (gate_header lib true r) h)
      ]

  claims-dispatch :
      (o : Option Claims) {c : Credential} {u : User}
      → csrf_dispatch lib db r (gate_claims true o) ≡ served c u
      → csrf_dispatch lib db r (passes true) ≡ served c u
  claims-dispatch none h = absurd (served-ne-401 h)
  claims-dispatch (some p) h = elim (Bool-cases (not (is_access p.token_type))) [
    | inl b ↦ absurd (served-ne-401 (rw b at h))
    | inr b ↦ elim (Bool-cases (not (named p.sub))) [
      | inl n ↦ absurd (served-ne-401 (rw (b, n) at h))
      | inr n ↦ rw (b, n) at h
    ]
  ]

  -- A request that the gate lets through on the cookie is flagged.
  cookie-dispatch :
      (o : Option String) {c : Credential} {u : User}
      → csrf_dispatch lib db r (gate_token lib (present o) false o) ≡ served c u
      → csrf_dispatch lib db r (passes true) ≡ served c u
  cookie-dispatch none h = absurd (served-ne-401 h)
  cookie-dispatch (some t) h = elim (Bool-cases (t == "")) [
    | inl b ↦ absurd (served-ne-401 (rw b at h))
    | inr b ↦ claims-dispatch (lib.decode_token t) (rw b at h)
  ]

  header-dispatch :
      (b : Bool) (token : String) (u : User)
      → starts_with (or_empty r.authorization) "Bearer " ≡ b
      → is_safe_method r.method ≡ false
      → csrf_dispatch lib db r (gate_header lib b r) ≡ served (cookie token) u
      → DoubleSubmit r
  unfolding requires_csrf_check
  header-dispatch true token u s m h = absurd (bearer_header-dispatch token u s h)
  header-dispatch false token u s m h = checked true (cookie-dispatch r.access_cookie h) (
      checked_if (is_safe_method r.method) (starts_with (or_empty r.authorization) "Bearer ")
        (is_refresh_path r.path && present r.refresh_cookie) m s)

  -- A request to a path that the authentication gate covers, with a method other than GET, HEAD and
  -- OPTIONS, that is served for the user of the access cookie carries the CSRF token twice, as its
  -- cookie and as its header.
  pub serve-DoubleSubmit :
      (token : String) (u : User)
      → is_excluded r.path r.method ≡ false
      → is_safe_method r.method ≡ false
      → serve lib db r ≡ served (cookie token) u
      → DoubleSubmit r
  unfolding serve auth_dispatch
  serve-DoubleSubmit token u e m h =
      header-dispatch (starts_with (or_empty r.authorization) "Bearer ") token u refl m (rw e at h)
