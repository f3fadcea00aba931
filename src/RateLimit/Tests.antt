-- ===== src/RateLimit/Tests.antt =====
-- Runs of the limiter on a Redis that keeps a number and an expiry for each key.
use Prim.Native.String.{◌++◌}
use open_format_3d_viewer.Prelude.{
  ℕ, suc, ◌+◌, ◌≤◌, ◌<◌, ◌≡◌, refl, ap, sym, String, true, false, none, some, List, [], ◌∷◌, ltb,
  Option, ◌∙◌, Bool-cases, inl, inr, ◌==◌, nat_eq, string_eq, if◌then◌else◌, arith,
}
use open_format_3d_viewer.Gate.{Request, Library}
use open_format_3d_viewer.Gate.Tests.{one_token, ann}
use open_format_3d_viewer.RateLimit.{
  Redis, rate_limit_key, Settings, Arrival, or_0, counted, rejected,
}
use open_format_3d_viewer.RateLimit.Refinement.{Call, enforce_all, enforce-refines}
use open_format_3d_viewer.RateLimit.Windows.{logins, logins_bound}

-- A key's number, and the time at which it expires, if it does.
abbrev Cell : Type 0
Cell = Option (ℕ × Option ℕ)

abbrev alive : (now : ℕ) → Cell → Option ℕ
alive t none = none
alive t (some (n, none)) = some n
alive t (some (n, some e)) = if ltb t e then some n else none

abbrev bump : (now : ℕ) → Cell → Cell
bump now none = some (1, none)
bump now (some (n, none)) = some (suc n, none)
bump now (some (n, some e)) = if ltb now e then some (suc n, some e) else some (1, none)

abbrev renew : (now seconds : ℕ) → Cell → Cell
renew now seconds none = none
renew now seconds (some (n, none)) = some (n, some (now + seconds))
renew now seconds (some (n, some e)) =
    if ltb now e then some (n, some (now + seconds)) else some (n, some e)

ltb-true : (a b : ℕ) → a < b → ltb a b ≡ true
ltb-true a b h = ground (arith, h)

later-false : (now t e : ℕ) → now ≤ t → ltb now e ≡ false → ltb t e ≡ false
later-false now t e h x = ground (arith, h, x)

alive-bump :
    (now t : ℕ) (o : Option ℕ) (c : Cell)
    → now ≤ t
    → alive now c ≡ o
    → alive t c ≡ o
    → alive t (bump now c) ≡ some (suc (or_0 o))
alive-bump now t o none h a b = ap (λ x. some (suc (or_0 x))) a
alive-bump now t o (some (n, none)) h a b = ap (λ x. some (suc (or_0 x))) a
alive-bump now t o (some (n, some e)) h a b = elim (Bool-cases (ltb now e)) [
  | inr x ↦ rw x (ap (λ y. some (suc (or_0 y))) (rw x at a))
  | inl x ↦ elim (Bool-cases (ltb t e)) [
    | inl y ↦ rw (x, y) (ap (λ z. some (suc (or_0 z))) (rw x at a))
    | inr y ↦ absurd (none-ne-some ((rw y at b) ∙ sym (rw x at a)))
  ]
]
  where
    none-ne-some : {m : ℕ} → none ≡ some m → ⊥
    none-ne-some e = cc

alive-renew :
    (now seconds t : ℕ) (c : Cell)
    → now ≤ t
    → t < now + seconds
    → alive t (renew now seconds c) ≡ alive now c
alive-renew now seconds t none h l = refl
alive-renew now seconds t (some (n, none)) h l = rw (ltb-true t (now + seconds) l) refl
alive-renew now seconds t (some (n, some e)) h l = elim (Bool-cases (ltb now e)) [
  | inl x ↦ rw (x, ltb-true t (now + seconds) l) refl
  | inr x ↦ rw (x, later-false now t e h x) refl
]

abbrev numbers : Redis
numbers = record {
  Keys = String → Cell;
  value = λ k t s. alive t (s k);
  incr = λ k now s l. if k == l then bump now (s l) else s l;
  expire = λ k now seconds s l. if k == l then renew now seconds (s l) else s l;
  get_plan = λ u now s. none;
  set_plan = λ u plan now s. s;
  value-incr = λ i b now t o s h x y.
      rw (string_eq.complete (rate_limit_key i b) (rate_limit_key i b) refl)
        (alive-bump now t o (s (rate_limit_key i b)) h x y);
  incr-other = λ k l now t s h. rw h refl;
  value-expire = λ k now seconds t s h l.
      rw (string_eq.complete k k refl) (alive-renew now seconds t (s k) h l);
  expire-other = λ k l now seconds t s h. rw h refl;
  value-set_plan = λ u plan i b now t s. refl;
}

abbrev cfg : Settings
cfg = record { free_per_hour = 100; pro_per_hour = 10000 }

abbrev unused : String → Cell
unused k = none

abbrev two_calls : List Call
two_calls =
    record { now = 7200; identifier = "ip:1.2.3.4"; limit = 1 }
    ∷ record { now = 7300; identifier = "ip:1.2.3.4"; limit = 1 }
    ∷ []

enforce-refines_example :
    enforce_all numbers two_calls unused ≡ counted 1 0 10800 ∷ rejected 1 10800 ∷ []
enforce-refines_example =
    enforce-refines numbers 2 two_calls unused (λ i t a b. refl)
      (omega arith, (omega arith, (omega arith, (omega arith, tt))))

abbrev login_request : Request
login_request = record {
  method = "POST";
  path = "/v1/auth/login";
  authorization = none;
  csrf_header = none;
  access_cookie = none;
  refresh_cookie = none;
  csrf_cookie = none;
}

abbrev login_at : ℕ → Arrival
login_at t = record { request = login_request; host = some "1.2.3.4"; now = t }

abbrev two_logins : List Arrival
two_logins = login_at 7200 ∷ login_at 7201 ∷ []

logins_bound_example : logins numbers cfg one_token (ann ∷ []) "1.2.3.4" two_logins unused ≤ 10
logins_bound_example =
    logins_bound numbers cfg one_token (ann ∷ []) "1.2.3.4" 2 two_logins unused (λ t a b. refl)
      (omega arith, (omega arith, (omega arith, (omega arith, tt))))

abbrev forged : String → ℕ → Arrival
forged token t = record {
  request = record login_request {
    path = "/v1/projects";
    authorization = some ("Bearer " ++ token);
  };
  host = some "1.2.3.4";
  now = t;
}

-- The hash of a token is the token here.
abbrev plain_hash : Library
plain_hash = record one_token { hash_key = λ token. token }

abbrev two_forged : List Arrival
two_forged = forged "ofv_1" 7200 ∷ forged "ofv_2" 7201 ∷ []
