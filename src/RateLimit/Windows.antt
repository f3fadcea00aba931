-- ===== src/RateLimit/Windows.antt =====
-- Logins and registrations of one client within an hour.
use Prim.Native.String.{◌++◌}
use open_format_3d_viewer.Prelude.{
  ℕ, suc, some, ◌+◌, ◌-◌, ◌*◌, ◌≤◌, ◌<◌, ◌≡◌, refl, String, Bool, true, false, ◌&&◌, List, [], ◌∷◌,
  ltb, ◌==◌, nat_eq, string_eq, if◌then◌else◌, Bool-cases, inl, inr, arith, not,
}
use open_format_3d_viewer.Core.Rows.{User}
use open_format_3d_viewer.Gate.{Library}
use open_format_3d_viewer.RateLimit.{
  Redis, Settings, Arrival, Outcome, counted, hour_bucket, rate_limit_key, is_brute_force_path,
  is_exempt, auth_per_hour, or_unknown, enforce_limit, dispatch,
}
use open_format_3d_viewer.RateLimit.Refinement.{
  as_value, value-incr, Steady, Steady-later, Steady-enforce_limit, hour_bucket_lem,
}
use open_format_3d_viewer.RateLimit.Growth.{Grown-dispatch}

-- The arrivals come one after the other, all in the hour from 3600 * q seconds on.
abbrev pub ArriveInHour : (q now : ℕ) → List Arrival → Type 0
ArriveInHour q now [] = Unit
ArriveInHour q now (a ∷ rest) =
    (now ≤ a.now) × ((a.now < q * 3600 + 3600) × ArriveInHour q a.now rest)

abbrev is_counted : Outcome → Bool
is_counted (counted l r t) = true
is_counted o = false

false-ne-true : false ≡ true → ⊥
false-ne-true e = cc

pub not-true : (b : Bool) → not b ≡ true → b ≡ false
not-true true h = cc
not-true false h = refl

pub and-true : (a b : Bool) → a && b ≡ true → (a ≡ true) × (b ≡ true)
and-true true b h = (refl, h)
and-true false b h = cc

module _ (R : Redis) (cfg : Settings) (lib : Library) (users : List User) (host : String) where
  abbrev login_key : ℕ → String
  login_key q = rate_limit_key ("authip:" ++ host) (q * 3600)

  -- A login or a registration of the client.
  abbrev pub is_login : Arrival → Bool
  is_login a =
      not (is_exempt a.request.path)
      && (is_brute_force_path a.request.path && or_unknown a.host == host)

  -- The logins and registrations of the client that are let through.
  abbrev pub logins : List Arrival → R.Keys → ℕ
  logins [] s = 0
  logins (a ∷ rest) s =
      let (outcome, t) = dispatch R cfg lib users a s in
      let later = logins rest t in if is_login a && is_counted outcome then suc later else later

  dispatch-login :
      (a : Arrival) (s : R.Keys)
      → is_login a ≡ true
      → dispatch R cfg lib users a s ≡ enforce_limit R a.now ("authip:" ++ host) auth_per_hour s
  unfolding dispatch
  dispatch-login a s l =
      let (e, bh) = and-true (not (is_exempt a.request.path)) _ l in
      let (b, h) = and-true (is_brute_force_path a.request.path) (or_unknown a.host == host) bh in
      rw (not-true (is_exempt a.request.path) e, b, string_eq.sound (or_unknown a.host) host h) refl

  -- What is let through is not over the limit.
  counted-below :
      (now n limit : ℕ) (i : String) (s : R.Keys)
      → R.value (rate_limit_key i (hour_bucket now)) now s ≡ as_value n
      → is_counted (enforce_limit R now i limit s).0 ≡ true
      → suc n ≤ limit
  unfolding enforce_limit
  counted-below now n limit i s v c =
      let k = rate_limit_key i (hour_bucket now) in
      let w : R.value k now (R.incr k now s) ≡ some (suc n) =
        value-incr R i (hour_bucket now) now now n s (omega arith) v v in
      elim (Bool-cases (ltb limit (suc n))) [
        | inl b ↦ absurd (false-ne-true (rw (w, b) at c))
        | inr b ↦ ground (arith, b)
      ]

  login-passes :
      (q : ℕ) (a : Arrival) (n : ℕ) (s : R.Keys)
      → q * 3600 ≤ a.now
      → a.now < q * 3600 + 3600
      → Steady R (login_key q) (q * 3600 + 3600) a.now n s
      → is_login a ≡ true
      → is_counted (dispatch R cfg lib users a s).0 ≡ true
      → (suc n ≤ 10)
        × Steady R (login_key q) (q * 3600 + 3600) a.now (suc n) (dispatch R cfg lib users a s).1
  login-passes q a n s x y h l c =
      let d = dispatch-login a s l in
      let e = hour_bucket_lem q a.now x y in
      let v : R.value (rate_limit_key ("authip:" ++ host) (hour_bucket a.now)) a.now s
          ≡ as_value n =
        rw e (h a.now (omega arith) y) in
      let after =
        Steady-enforce_limit R ("authip:" ++ host) auth_per_hour (login_key q) (q * 3600 + 3600)
          a.now n s y (omega (arith, x)) h in
      let same = string_eq.complete (login_key q) (login_key q) refl in
      (
        counted-below a.now n auth_per_hour ("authip:" ++ host) s v (rw d at c),
        rw d (rw (e, same) at after),
      )

  logins_from :
      (q now n : ℕ) (arrivals : List Arrival) (s : R.Keys)
      → q * 3600 ≤ now
      → Steady R (login_key q) (q * 3600 + 3600) now n s
      → ArriveInHour q now arrivals
      → logins arrivals s ≤ 10 - n
  logins_from q now n [] s b h o = omega arith
  logins_from q now n (a ∷ rest) s b h o =
      let y : q * 3600 ≤ a.now = omega (arith, b, o.0) in
      let later : Steady R (login_key q) (q * 3600 + 3600) a.now n s =
        Steady-later R (login_key q) (q * 3600 + 3600) now a.now n s o.0 h in
      elim (Bool-cases (is_login a && is_counted (dispatch R cfg lib users a s).0)) [
        | inl t ↦
            let (l, c) = and-true (is_login a) (is_counted (dispatch R cfg lib users a s).0) t in
            let (m, after) = login-passes q a n s y o.1.0 later l c in
            rw t (
              omega (
                arith,
                m,
                logins_from q a.now (suc n) rest (dispatch R cfg lib users a s).1 y after o.1.1,
              ))
        | inr t ↦
            let (m, (grown, after)) =
              Grown-dispatch R cfg lib users ("authip:" ++ host) (q * 3600) (q * 3600 + 3600) n a s
                o.1.0 (omega (arith, y)) later in
            rw t (
              omega (
                arith,
                grown,
                logins_from q a.now m rest (dispatch R cfg lib users a s).1 y after o.1.1,
              ))
      ]

  -- Within any clock hour at most ten logins and registrations of a client are let through, whatever
  -- other requests arrive from whomever, if the client's login counter is not yet set at the hour's
  -- start.
  pub logins_bound :
      (q : ℕ) (arrivals : List Arrival) (s : R.Keys)
      → Steady R (rate_limit_key ("authip:" ++ host) (q * 3600)) (q * 3600 + 3600) (q * 3600) 0 s
      → ArriveInHour q (q * 3600) arrivals
      → logins arrivals s ≤ 10
  logins_bound q arrivals s h o = logins_from q (q * 3600) 0 arrivals s (omega arith) h o
