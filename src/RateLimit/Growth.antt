-- ===== src/RateLimit/Growth.antt =====
-- What a request does to the counters: the identification leaves them, the limiter adds one to one.
use Prim.Native.String.{◌++◌}
use text.Mathlib.Text.{starts_with}
use open_format_3d_viewer.Prelude.{
  ℕ, suc, ◌+◌, ◌≤◌, ◌<◌, ◌≡◌, refl, ◌∙◌, String, Bool, true, false, Option, none, some, List, ◌==◌,
  nat_eq, string_eq, if◌then◌else◌, Bool-cases, inl, inr, arith,
}
use open_format_3d_viewer.Core.Rows.{User}
use open_format_3d_viewer.Gate.{Claims, Library, or_empty, from_char}
use open_format_3d_viewer.RateLimit.{
  Redis, Settings, Arrival, hour_bucket, rate_limit_key, is_brute_force_path, is_exempt,
  auth_per_hour, or_unknown, enforce_limit, get_user_plan, cached_plan, loaded_plan, plan_in_db,
  as_user, by_subject, by_claims, by_token, by_header, identify_request, plan_limit, limited,
  identified, dispatch,
}
use open_format_3d_viewer.RateLimit.Refinement.{Steady, Steady-enforce_limit}

module _ (R : Redis) where
  -- The limiter's numbers are as before.
  abbrev Same : R.Keys → R.Keys → Type 0
  Same s t =
      (i : String) (b at : ℕ)
      → R.value (rate_limit_key i b) at t ≡ R.value (rate_limit_key i b) at s

  -- A key's number is steady and has not fallen.
  abbrev pub Grown : (key : String) (end now n : ℕ) → R.Keys → Type 0
  Grown key end now n s = (m : ℕ) × ((n ≤ m) × Steady R key end now m s)

  if_grows : (b : Bool) (n : ℕ) → n ≤ (if b then suc n else n)
  if_grows true n = omega arith
  if_grows false n = omega arith

  module _ (lib : Library) (users : List User) where
    Same-loaded :
        (u : String) (now : ℕ) (o : Option String) (s : R.Keys)
        → Same s (loaded_plan R lib users u now o s).1
    Same-loaded u now none s i b at = refl
    Same-loaded u now (some plan) s i b at = R.value-set_plan u plan i b now at s

    Same-cached :
        (u : String) (now : ℕ) (o : Option String) (s : R.Keys)
        → Same s (cached_plan R lib users u now o s).1
    Same-cached u now none s i b at = Same-loaded u now (plan_in_db users (lib.uuid u)) s i b at
    Same-cached u now (some plan) s i b at = elim (Bool-cases (plan == "")) [
      | inl e ↦ rw e (Same-loaded u now (plan_in_db users (lib.uuid u)) s i b at)
      | inr e ↦ rw e refl
    ]

    Same-as_user :
        (u : String) (x : String × R.Keys) (s : R.Keys)
        → Same s x.1
        → Same s (as_user R lib users u x).1
    Same-as_user u (plan, t) s h = h

    Same-subject :
        (a : Arrival) (o : Option String) (s : R.Keys) → Same s (by_subject R lib users a o s).1
    unfolding get_user_plan
    Same-subject a none s i b at = refl
    Same-subject a (some u) s i b at = elim (Bool-cases (u == "")) [
      | inl e ↦ rw e refl
      | inr e ↦ rw e (
          Same-as_user u (get_user_plan R lib users u a.now s) s
            (Same-cached u a.now (R.get_plan u a.now s) s) i b at)
    ]

    Same-claims :
        (a : Arrival) (o : Option Claims) (s : R.Keys) → Same s (by_claims R lib users a o s).1
    Same-claims a none s i b at = refl
    Same-claims a (some p) s i b at = Same-subject a p.sub s i b at

    Same-token :
        (a : Arrival) (o : Option String) (s : R.Keys) → Same s (by_token R lib users a o s).1
    Same-token a none s i b at = refl
    Same-token a (some token) s i b at = elim (Bool-cases (token == "")) [
      | inl e ↦ rw e refl
      | inr e ↦ rw e (Same-claims a (lib.decode_token token) s i b at)
    ]

    Same-header :
        (a : Arrival) (token : String) (s : R.Keys) → Same s (by_header R lib users a token s).1
    Same-header a token s i b at = elim (Bool-cases (starts_with token "ofv_")) [
      | inl e ↦ rw e refl
      | inr e ↦ rw e (Same-token a (some token) s i b at)
    ]

    Same-identify_request : (a : Arrival) (s : R.Keys) → Same s (identify_request R lib users a s).1
    unfolding identify_request
    Same-identify_request a s i b at =
        elim (Bool-cases (starts_with (or_empty a.request.authorization) "Bearer ")) [
          | inl e ↦ rw e (Same-header a (from_char 7 (or_empty a.request.authorization)) s i b at)
          | inr e ↦ rw e (Same-token a a.request.access_cookie s i b at)
        ]

  module _ (cfg : Settings) (lib : Library) (users : List User) (identifier : String)
      (bucket end n : ℕ) where
    abbrev key : String
    key = rate_limit_key identifier bucket

    Grown-enforce_limit :
        (now : ℕ) (i : String) (limit : ℕ) (s : R.Keys)
        → now < end
        → end ≤ now + 3600
        → Steady R key end now n s
        → Grown key end now n (enforce_limit R now i limit s).1
    Grown-enforce_limit now i limit s e l h = (
      (if rate_limit_key i (hour_bucket now) == key then suc n else n),
      (
        if_grows (rate_limit_key i (hour_bucket now) == key) n,
        Steady-enforce_limit R i limit key end now n s e l h,
      ),
    )

    Grown-limited :
        (now : ℕ) (i : String) (o : Option ℕ) (s : R.Keys)
        → now < end
        → end ≤ now + 3600
        → Steady R key end now n s
        → Grown key end now n (limited R cfg lib users now i o s).1
    Grown-limited now i none s e l h = (n, (omega arith, h))
    Grown-limited now i (some limit) s e l h = Grown-enforce_limit now i limit s e l h

    Grown-identified :
        (a : Arrival) (x : (String × String) × R.Keys)
        → a.now < end
        → end ≤ a.now + 3600
        → Steady R key end a.now n x.1
        → Grown key end a.now n (identified R cfg lib users a x).1
    Grown-identified a ((i, plan), s) e l h = Grown-limited a.now i (plan_limit cfg plan) s e l h

    pub Grown-dispatch :
        (a : Arrival) (s : R.Keys)
        → a.now < end
        → end ≤ a.now + 3600
        → Steady R key end a.now n s
        → Grown key end a.now n (dispatch R cfg lib users a s).1
    unfolding dispatch
    Grown-dispatch a s e l h = elim (Bool-cases (is_exempt a.request.path)) [
      | inl b ↦ rw b (n, (omega arith, h))
      | inr b ↦ elim (Bool-cases (is_brute_force_path a.request.path)) [
        | inl c ↦
            rw (b, c)
              (Grown-enforce_limit a.now ("authip:" ++ or_unknown a.host) auth_per_hour s e l h)
        | inr c ↦
            rw (b, c)
              (Grown-identified a (identify_request R lib users a s) e l
                (λ t x y. Same-identify_request lib users a s identifier bucket t ∙ h t x y))
      ]
    ]
