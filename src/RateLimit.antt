-- ===== src/RateLimit.antt =====
-- middleware/rate_limit.py. Redis is the record `Redis` of its commands and what they keep; a time is
-- in seconds. The database is a list of users.
pub mod Growth
pub mod Windows
pub mod Refinement
pub mod Evasion
mod Tests
use Prim.Native.String.{◌++◌}
use text.Mathlib.Text.{starts_with}
use open_format_3d_viewer.Prelude.{
  ℕ, zero, suc, ◌+◌, ◌-◌, ◌*◌, ◌/◌, ◌≤◌, ◌<◌, ◌≡◌, String, Bool, true, false, not, Option, none,
  some, List, [], ◌∷◌, select, any, ltb, ◌==◌, nat_eq, string_eq, if◌then◌else◌, clip, decimal,
}
use open_format_3d_viewer.Core.Rows.{User}
use open_format_3d_viewer.Core.Session.{Result, ok, raised, scalar_one_or_none}
use open_format_3d_viewer.Gate.{Request, Claims, Library, or_empty, from_char}

abbrev pub hour_bucket : ℕ → ℕ
hour_bucket now = now / 3600 * 3600

abbrev pub rate_limit_key : (identifier : String) → (hour_bucket : ℕ) → String
rate_limit_key identifier bucket = "ratelimit:" ++ identifier ++ ":" ++ decimal bucket

abbrev pub or_0 : Option ℕ → ℕ
or_0 none = 0
or_0 (some n) = n

-- `value k t s` is the number under a key at a time, `none` where the key is missing or has expired by
-- then; `INCR` takes a missing key for 0, keeps the expiry of a key that is there, and answers the number
-- after it; `EXPIRE` lets the key expire after some seconds, instead of when it would have before.
-- `GET plan:…` and `SET plan:… EX 300` are commands on other keys than the limiter's, which hold numbers
-- only.
pub record Redis : Type 1 where
  pub Keys : Type 0
  pub value : String → (now : ℕ) → Keys → Option ℕ
  pub incr : String → (now : ℕ) → Keys → Keys
  pub expire : String → (now seconds : ℕ) → Keys → Keys
  pub get_plan : String → (now : ℕ) → Keys → Option String
  pub set_plan : String → (plan : String) → (now : ℕ) → Keys → Keys
  pub value-incr :
      (identifier : String) (bucket now t : ℕ) (o : Option ℕ) (s : Keys)
      → now ≤ t
      → value (rate_limit_key identifier bucket) now s ≡ o
      → value (rate_limit_key identifier bucket) t s ≡ o
      → value (rate_limit_key identifier bucket) t (incr (rate_limit_key identifier bucket) now s)
        ≡ some (suc (or_0 o))
  pub incr-other :
      (k l : String) (now t : ℕ) (s : Keys)
      → (k == l) ≡ false
      → value l t (incr k now s) ≡ value l t s
  pub value-expire :
      (k : String) (now seconds t : ℕ) (s : Keys)
      → now ≤ t
      → t < now + seconds
      → value k t (expire k now seconds s) ≡ value k now s
  pub expire-other :
      (k l : String) (now seconds t : ℕ) (s : Keys)
      → (k == l) ≡ false
      → value l t (expire k now seconds s) ≡ value l t s
  pub value-set_plan :
      (user_id plan identifier : String) (bucket now t : ℕ) (s : Keys)
      → value (rate_limit_key identifier bucket) t (set_plan user_id plan now s)
        ≡ value (rate_limit_key identifier bucket) t s

-- The settings RATE_LIMIT_FREE_PER_HOUR and RATE_LIMIT_PRO_PER_HOUR.
pub record Settings : Type 0 where
  pub free_per_hour : ℕ
  pub pro_per_hour : ℕ

-- A request with its client's host and the time at which it arrives.
pub record Arrival : Type 0 where
  pub request : Request
  pub host : Option String
  pub now : ℕ

pub data Outcome : Type 0 where
  unlimited exempt : Outcome
  counted : (limit remaining reset : ℕ) → Outcome
  rejected : (limit reset : ℕ) → Outcome

abbrev pub exempt_paths : List String
exempt_paths =
    "/health" ∷ "/v1/auth/refresh" ∷ "/v1/auth/google" ∷ "/v1/auth/google/callback" ∷ "/docs"
    ∷ "/openapi.json" ∷ "/redoc" ∷ []

abbrev pub is_brute_force_path : String → Bool
is_brute_force_path path = any (λ p. p == path) ("/v1/auth/login" ∷ "/v1/auth/register" ∷ [])

abbrev pub is_exempt : String → Bool
is_exempt path = if starts_with path "/internal/" then true else any (λ p. p == path) exempt_paths

abbrev pub auth_per_hour : ℕ
auth_per_hour = 10

abbrev pub or_unknown : Option String → String
or_unknown none = "unknown"
or_unknown (some host) = host

module _ (R : Redis) where
  -- `EXPIRE` where the count is 1.
  abbrev pub set_ttl : (count : ℕ) → (key : String) → (now : ℕ) → R.Keys → R.Keys
  set_ttl count key now s = if count == 1 then R.expire key now 3600 s else s

  unfoldable pub enforce_limit :
      (now : ℕ) → (identifier : String) → (limit : ℕ) → R.Keys → Outcome × R.Keys
  enforce_limit now identifier limit s =
      let key = rate_limit_key identifier (hour_bucket now) in
      let incremented = R.incr key now s in
      let count = or_0 (R.value key now incremented) in
      (
        if ltb limit count
            then rejected limit (hour_bucket now + 3600)
            else counted limit (limit - count) (hour_bucket now + 3600),
        set_ttl count key now incremented,
      )

abbrev or_free : Option String → String
or_free none = "free"
or_free (some plan) = if plan == "" then "free" else plan

abbrev plan_row : Result (Option User) → Option String
plan_row (raised e) = none
plan_row (ok none) = some "free"
plan_row (ok (some u)) = some (or_free (some u.plan))

module _ (users : List User) where
  -- `uuid.UUID` or the query may raise, and then the answer is `none`.
  abbrev plan_in_db : Option ℕ → Option String
  plan_in_db none = none
  plan_in_db (some uid) = plan_row (scalar_one_or_none (select (λ u. u.id == uid) users))

module _ (R : Redis) (lib : Library) (users : List User) where
  abbrev loaded_plan : (user_id : String) → (now : ℕ) → Option String → R.Keys → String × R.Keys
  loaded_plan user_id now none s = ("free", s)
  loaded_plan user_id now (some plan) s = (plan, R.set_plan user_id plan now s)

  abbrev cached_plan : (user_id : String) → (now : ℕ) → Option String → R.Keys → String × R.Keys
  cached_plan user_id now none s = loaded_plan user_id now (plan_in_db users (lib.uuid user_id)) s
  cached_plan user_id now (some plan) s =
      if plan == ""
      then loaded_plan user_id now (plan_in_db users (lib.uuid user_id)) s
      else (plan, s)

  unfoldable pub get_user_plan : (user_id : String) → (now : ℕ) → R.Keys → String × R.Keys
  unfolding scalar_one_or_none
  get_user_plan user_id now s = cached_plan user_id now (R.get_plan user_id now s) s

  abbrev pub as_user : (user_id : String) → String × R.Keys → (String × String) × R.Keys
  as_user user_id (plan, s) = (("user:" ++ user_id, plan), s)

  abbrev pub by_ip : Arrival → R.Keys → (String × String) × R.Keys
  by_ip a s = (("ip:" ++ or_unknown a.host, "free"), s)

  abbrev pub by_subject : Arrival → Option String → R.Keys → (String × String) × R.Keys
  by_subject a none s = by_ip a s
  by_subject a (some user_id) s =
      if user_id == "" then by_ip a s else as_user user_id (get_user_plan user_id a.now s)

  abbrev pub by_claims : Arrival → Option Claims → R.Keys → (String × String) × R.Keys
  by_claims a none s = by_ip a s
  by_claims a (some payload) s = by_subject a payload.sub s

  abbrev pub by_token : Arrival → Option String → R.Keys → (String × String) × R.Keys
  by_token a none s = by_ip a s
  by_token a (some token) s =
      if token == "" then by_ip a s else by_claims a (lib.decode_token token) s

  abbrev pub by_header : Arrival → (token : String) → R.Keys → (String × String) × R.Keys
  by_header a token s =
      if starts_with token "ofv_"
      then (("apikey:" ++ clip 16 (lib.hash_key token), "free"), s)
      else by_token a (some token) s

  -- The identifier and the plan.
  unfoldable pub identify_request : Arrival → R.Keys → (String × String) × R.Keys
  unfolding get_user_plan
  identify_request a s =
      if starts_with (or_empty a.request.authorization) "Bearer "
      then by_header a (from_char 7 (or_empty a.request.authorization)) s
      else by_token a a.request.access_cookie s

-- `PLAN_LIMITS.get(plan, …)`; `none` is no limit.
abbrev pub plan_limit : Settings → String → Option ℕ
plan_limit cfg plan =
    if plan == "enterprise"
    then none
    else if plan == "pro"
    then some cfg.pro_per_hour
    else some cfg.free_per_hour

module _ (R : Redis) (cfg : Settings) (lib : Library) (users : List User) where
  abbrev pub limited : (now : ℕ) → (identifier : String) → Option ℕ → R.Keys → Outcome × R.Keys
  limited now identifier none s = (unlimited, s)
  limited now identifier (some limit) s = enforce_limit R now identifier limit s

  abbrev pub identified : Arrival → (String × String) × R.Keys → Outcome × R.Keys
  identified a ((identifier, plan), s) = limited a.now identifier (plan_limit cfg plan) s

  unfoldable pub dispatch : Arrival → R.Keys → Outcome × R.Keys
  unfolding enforce_limit identify_request
  dispatch a s =
      if is_exempt a.request.path
      then (exempt, s)
      else if is_brute_force_path a.request.path
      then enforce_limit R a.now ("authip:" ++ or_unknown a.host) auth_per_hour s
      else identified a (identify_request R lib users a s)
