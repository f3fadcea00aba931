-- ===== src/RateLimit/Refinement.antt =====
-- The counters of an hour, and a specification of the limiter without Redis.
use Prim.Native.String.{◌++◌}
use mathlib.Core.Path.{ap₂}
use text.Mathlib.TextLemmas.{append_cancel_left, append_cancel_right}
use open_format_3d_viewer.Prelude.{
  ℕ, zero, suc, Option, none, some, ◌+◌, ◌-◌, ◌*◌, ◌≤◌, ◌<◌, ◌≡◌, refl, sym, ap, ◌∙◌, subst, String,
  Bool, true, false, not, List, [], ◌∷◌, ltb, ◌==◌, nat_eq, string_eq, if◌then◌else◌, Bool-cases,
  inl, inr, arith, decimal,
}
use open_format_3d_viewer.RateLimit.{
  Redis, or_0, Outcome, counted, rejected, hour_bucket, rate_limit_key, set_ttl, enforce_limit,
}

-- A count as the key's number: a key is missing as long as nothing was counted.
abbrev pub as_value : ℕ → Option ℕ
as_value zero = none
as_value (suc n) = some (suc n)

pub or_0-as_value : (n : ℕ) → or_0 (as_value n) ≡ n
or_0-as_value zero = refl
or_0-as_value (suc n) = refl

-- The key has a count at every time from now to the end of the hour.
abbrev pub Steady : (R : Redis) → (key : String) → (end now n : ℕ) → R.Keys → Type 0
Steady R key end now n s = (t : ℕ) → now ≤ t → t < end → R.value key t s ≡ as_value n

module _ (R : Redis) where
  pub Steady-later :
      (key : String) (end now later n : ℕ) (s : R.Keys)
      → now ≤ later
      → Steady R key end now n s
      → Steady R key end later n s
  Steady-later key end now later n s l h t a b = h t (omega (arith, l, a)) b

  pub value-incr :
      (identifier : String) (bucket now t n : ℕ) (s : R.Keys)
      → now ≤ t
      → R.value (rate_limit_key identifier bucket) now s ≡ as_value n
      → R.value (rate_limit_key identifier bucket) t s ≡ as_value n
      → R.value
          (rate_limit_key identifier bucket)
          t
          (R.incr (rate_limit_key identifier bucket) now s)
        ≡ some (suc n)
  value-incr identifier bucket now t n s a x y =
      R.value-incr identifier bucket now t (as_value n) s a x y
      ∙ ap (λ m. some (suc m)) (or_0-as_value n)

  -- `INCR` counts its own key and no other.
  pub Steady-incr :
      (identifier : String) (bucket : ℕ) (key : String) (end now n : ℕ) (s : R.Keys)
      → now < end
      → Steady R key end now n s
      → Steady R key end now
          (if rate_limit_key identifier bucket == key then suc n else n)
          (R.incr (rate_limit_key identifier bucket) now s)
  Steady-incr identifier bucket key end now n s e h t a b =
      let k = rate_limit_key identifier bucket in
      elim (Bool-cases (k == key)) [
        | inl same ↦
            let p : k ≡ key = string_eq.sound k key same in
            let at_key : (x : ℕ) → R.value key x s ≡ as_value n → R.value k x s ≡ as_value n =
              λ x v. subst (λ l. R.value l x s ≡ as_value n) (sym p) v in
            rw same (
              subst (λ l. R.value l t (R.incr k now s) ≡ some (suc n)) p
                (value-incr identifier bucket now t n s a (at_key now (h now (omega arith) e))
                  (at_key t (h t a b))))
        | inr other ↦ rw other (R.incr-other k key now t s other ∙ h t a b)
      ]

  Steady-set_ttl :
      (count : ℕ) (k key : String) (end now n : ℕ) (s : R.Keys)
      → end ≤ now + 3600
      → Steady R key end now n s
      → Steady R key end now n (set_ttl R count k now s)
  Steady-set_ttl count k key end now n s e h t a b = elim (Bool-cases (count == 1)) [
    | inl one ↦ elim (Bool-cases (k == key)) [
      | inl same ↦
          let p : k ≡ key = string_eq.sound k key same in
          rw one (
            subst (λ x. R.value key t (R.expire x now 3600 s) ≡ as_value n) (sym p)
              (R.value-expire key now 3600 t s a (omega (arith, e, b))
                ∙ h now (omega arith) (omega (arith, a, b))))
      | inr other ↦ rw one (R.expire-other k key now 3600 t s other ∙ h t a b)
    ]
    | inr more ↦ rw more (h t a b)
  ]

  -- A request counts its own key and no other, until the end of the hour.
  pub Steady-enforce_limit :
      (identifier : String) (limit : ℕ) (key : String) (end now n : ℕ) (s : R.Keys)
      → now < end
      → end ≤ now + 3600
      → Steady R key end now n s
      → Steady R key end now
          (if rate_limit_key identifier (hour_bucket now) == key then suc n else n)
          (enforce_limit R now identifier limit s).1
  unfolding enforce_limit
  Steady-enforce_limit identifier limit key end now n s e l h =
      let k = rate_limit_key identifier (hour_bucket now) in
      Steady-set_ttl (or_0 (R.value k now (R.incr k now s))) k key end now
        (if k == key then suc n else n) (R.incr k now s) l
        (Steady-incr identifier (hour_bucket now) key end now n s e h)

-- A call of `_enforce_limit`.
pub record Call : Type 0 where
  pub now : ℕ
  pub identifier : String
  pub limit : ℕ

abbrev pub enforce_all : (R : Redis) → List Call → R.Keys → List Outcome
enforce_all R [] s = []
enforce_all R (c ∷ cs) s =
    let (outcome, t) = enforce_limit R c.now c.identifier c.limit s in outcome ∷ enforce_all R cs t

abbrev pub times : String → List String → ℕ
times i [] = 0
times i (p ∷ past) = if p == i then suc (times i past) else times i past

-- A call is let through if fewer calls than its limit came before it with its identifier.
abbrev pub limit_by_count : (reset : ℕ) → (past : List String) → List Call → List Outcome
limit_by_count reset past [] = []
limit_by_count reset past (c ∷ cs) =
    (if ltb (times c.identifier past) c.limit
      then counted c.limit (c.limit - suc (times c.identifier past)) reset
      else rejected c.limit reset)
    ∷ limit_by_count reset (c.identifier ∷ past) cs

-- The calls come one after the other, all in the hour from 3600 * q seconds on.
abbrev pub InHour : (q now : ℕ) → List Call → Type 0
InHour q now [] = Unit
InHour q now (c ∷ cs) = (now ≤ c.now) × ((c.now < q * 3600 + 3600) × InHour q c.now cs)

pub hour_bucket_lem :
    (q now : ℕ) → q * 3600 ≤ now → now < q * 3600 + 3600 → hour_bucket now ≡ q * 3600
hour_bucket_lem q now a b = omega (arith, a, b)

false-ne-true : false ≡ true → ⊥
false-ne-true e = cc

same_key : (i j : String) (b : ℕ) → (rate_limit_key i b == rate_limit_key j b) ≡ (i == j)
same_key i j b = elim (Bool-cases (i == j)) [
  | inl t ↦ rw t (
      string_eq.complete (rate_limit_key i b) (rate_limit_key j b)
        (ap (λ x. rate_limit_key x b) (string_eq.sound i j t)))
  | inr f ↦ elim (Bool-cases (rate_limit_key i b == rate_limit_key j b)) [
    | inr g ↦ rw f g
    | inl g ↦
        let e : i ≡ j = append_cancel_right i j (":" ++ decimal b) (
          append_cancel_left "ratelimit:" (i ++ ":" ++ decimal b) (j ++ ":" ++ decimal b)
            (string_eq.sound (rate_limit_key i b) (rate_limit_key j b) g)) in
        absurd (false-ne-true (sym f ∙ string_eq.complete i j e))
  ]
]

over_limit : (limit n : ℕ) → ltb limit (suc n) ≡ not (ltb n limit)
over_limit limit n = ground arith

if-not {ℓ} : {A : Type ℓ} (b : Bool) (x y : A) → (if not b then x else y) ≡ (if b then y else x)
if-not true x y = refl
if-not false x y = refl

module _ (R : Redis) (q : ℕ) where
  abbrev Counts : ℕ → List String → R.Keys → Type 0
  Counts now past s =
      (i : String) → Steady R (rate_limit_key i (q * 3600)) (q * 3600 + 3600) now (times i past) s

  outcome :
      (now : ℕ) (i : String) (limit : ℕ) (past : List String) (s : R.Keys)
      → q * 3600 ≤ now
      → now < q * 3600 + 3600
      → Counts now past s
      → (enforce_limit R now i limit s).0 ≡ (
          if ltb (times i past) limit
          then counted limit (limit - suc (times i past)) (q * 3600 + 3600)
          else rejected limit (q * 3600 + 3600))
  unfolding enforce_limit
  outcome now i limit past s a b h =
      let n = times i past in
      let k = rate_limit_key i (q * 3600) in
      let start = h i now (omega arith) b in
      let v : R.value k now (R.incr k now s) ≡ some (suc n) =
        value-incr R i (q * 3600) now now n s (omega arith) start start in
      rw (hour_bucket_lem q now a b, v, over_limit limit n)
        (if-not (ltb n limit) (rejected limit (q * 3600 + 3600))
          (counted limit (limit - suc n) (q * 3600 + 3600)))

  Counts-call :
      (now : ℕ) (i : String) (limit : ℕ) (past : List String) (s : R.Keys)
      → q * 3600 ≤ now
      → now < q * 3600 + 3600
      → Counts now past s
      → Counts now (i ∷ past) (enforce_limit R now i limit s).1
  Counts-call now i limit past s a b h j =
      let r =
        Steady-enforce_limit R i limit (rate_limit_key j (q * 3600)) (q * 3600 + 3600) now
          (times j past) s b (omega (arith, a)) (h j) in
      rw (hour_bucket_lem q now a b, same_key i j (q * 3600)) at r

  enforce_from :
      (now : ℕ) (past : List String) (cs : List Call) (s : R.Keys)
      → q * 3600 ≤ now
      → Counts now past s
      → InHour q now cs
      → enforce_all R cs s ≡ limit_by_count (q * 3600 + 3600) past cs
  enforce_from now past [] s a h o = refl
  enforce_from now past (c ∷ cs) s a h o =
      let later : Counts c.now past s = λ i.
        Steady-later R (rate_limit_key i (q * 3600)) (q * 3600 + 3600) now c.now (times i past) s
          o.0 (h i) in
      let a2 : q * 3600 ≤ c.now = omega (arith, a, o.0) in
      ap₂ (λ x xs. x ∷ xs) (outcome c.now c.identifier c.limit past s a2 o.1.0 later)
        (enforce_from c.now (c.identifier ∷ past) cs
          (enforce_limit R c.now c.identifier c.limit s).1 a2
          (Counts-call c.now c.identifier c.limit past s a2 o.1.0 later) o.1.1)

  -- No identifier has a count for the hour.
  abbrev pub Unused : R.Keys → Type 0
  Unused s = (i : String) → Steady R (rate_limit_key i (q * 3600)) (q * 3600 + 3600) (q * 3600) 0 s

  -- Within an hour the limiter on Redis answers as the specification that counts the earlier calls
  -- with the same identifier: with the same limit, remaining calls and reset time, whatever the
  -- identifiers, limits and times, if at the start of the hour no identifier has a count for it.
  pub enforce-refines :
      (cs : List Call) (s : R.Keys)
      → Unused s
      → InHour q (q * 3600) cs
      → enforce_all R cs s ≡ limit_by_count (q * 3600 + 3600) [] cs
  enforce-refines cs s u o = enforce_from (q * 3600) [] cs s (omega arith) u o
