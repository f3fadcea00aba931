-- ===== src/Prelude/Lists.antt =====
-- Lists measured by native numbers, Boolean searches, and predicates by recursion.
use Prim.Native.Nat.{ℕ, zero, suc, ◌+◌, ◌-◌, min}
use mathlib.Core.Path.{◌≡◌, refl, ap, subst}
use mathlib.Core.Logic.{inl, inr}
use mathlib.Core.Bool.{Bool, true, false, ◌||◌}
use mathlib.Core.List.{List, [], ◌∷◌, ◌++◌}
use native.Mathlib.Omega.{arith}
use open_format_3d_viewer.Prelude.Tests.{if◌then◌else◌, Bool-cases}

module _ {ℓ} {A : Type ℓ} where
  abbrev pub length : List A → ℕ
  length [] = 0
  length (x ∷ xs) = suc (length xs)

  abbrev pub take : ℕ → List A → List A
  take zero xs = []
  take (suc n) [] = []
  take (suc n) (x ∷ xs) = x ∷ take n xs

  abbrev pub drop : ℕ → List A → List A
  drop zero xs = xs
  drop (suc n) [] = []
  drop (suc n) (x ∷ xs) = drop n xs

  pub length-append : (xs ys : List A) → length (xs ++ ys) ≡ length xs + length ys
  length-append [] ys = omega arith
  length-append (x ∷ xs) ys = omega (arith, length-append xs ys)

  pub take-append-drop : (n : ℕ) (xs : List A) → take n xs ++ drop n xs ≡ xs
  take-append-drop zero xs = refl
  take-append-drop (suc n) [] = refl
  take-append-drop (suc n) (x ∷ xs) = ap (λ r. x ∷ r) (take-append-drop n xs)

  pub length-take : (n : ℕ) (xs : List A) → length (take n xs) ≡ min n (length xs)
  length-take zero xs = omega arith
  length-take (suc n) [] = omega arith
  length-take (suc n) (x ∷ xs) = omega (arith, length-take n xs)

  pub length-drop : (n : ℕ) (xs : List A) → length (drop n xs) ≡ length xs - n
  length-drop zero xs = omega arith
  length-drop (suc n) [] = omega arith
  length-drop (suc n) (x ∷ xs) = omega (arith, length-drop n xs)

module _ {ℓ} {A : Type ℓ} where
  -- `select … where p`, and `any(p(x) for x in xs)`
  abbrev pub select : (A → Bool) → List A → List A
  select p [] = []
  select p (x ∷ xs) = let rest = select p xs in if p x then x ∷ rest else rest

  abbrev pub any : (A → Bool) → List A → Bool
  any p [] = false
  any p (x ∷ xs) = p x || any p xs

  abbrev pub All {κ} : (A → Type κ) → List A → Type κ
  All P [] = Unit
  All P (x ∷ xs) = P x × All P xs

module _ {ℓ} {A : Type ℓ} where
  abbrev head_or : A → List A → A
  head_or d [] = d
  head_or d (x ∷ xs) = x

  list-nil-ne-cons : {x : A} {xs : List A} → [] ≡ x ∷ xs → ⊥
  list-nil-ne-cons e = cc

module _ {ℓ κ μ} {A : Type ℓ} (P : A → Type κ) (Q : A → Type μ) (f : (x : A) → P x → Q x) where
  pub All-imp : (xs : List A) → All P xs → All Q xs
  All-imp [] h = tt
  All-imp (x ∷ xs) h = (f x h.0, All-imp xs h.1)

module _ {ℓ κ μ ν} {A : Type ℓ} (P : A → Type κ) (Q : A → Type μ) (R : A → Type ν) where
  pub All-imp2 : ((x : A) → P x → Q x → R x) → (xs : List A) → All P xs → All Q xs → All R xs
  All-imp2 f [] h k = tt
  All-imp2 f (x ∷ xs) h k = (f x h.0 k.0, All-imp2 f xs h.1 k.1)

module _ {ℓ κ} {A : Type ℓ} (P : A → Type κ) where
  pub All-select : (p : A → Bool) (xs : List A) → All P xs → All P (select p xs)
  All-select p [] h = tt
  All-select p (x ∷ xs) h = elim (Bool-cases (p x)) [
    | inl t ↦ rw t (h.0, All-select p xs h.1)
    | inr t ↦ rw t (All-select p xs h.1)
  ]

  -- What heads a selection passes the test and has every property of the rows.
  pub select-head :
      (p : A → Bool) (xs : List A) {y : A} {ys : List A}
      → All P xs
      → select p xs ≡ y ∷ ys
      → (p y ≡ true) × P y
  select-head p [] h e = absurd (list-nil-ne-cons e)
  select-head p (x ∷ xs) {y} {ys} h e = elim (Bool-cases (p x)) [
    | inl t ↦
        let s : x ≡ y = ap (head_or x) (rw t at e) in (subst (λ z. p z ≡ true) s t, subst P s h.0)
    | inr t ↦ select-head p xs h.1 (rw t at e)
  ]

module _ {ℓ} {A : Type ℓ} where
  pub select-passes : (p : A → Bool) (xs : List A) → All (λ x. p x ≡ true) (select p xs)
  select-passes p [] = tt
  select-passes p (x ∷ xs) = elim (Bool-cases (p x)) [
    | inl t ↦ rw t (t, select-passes p xs)
    | inr t ↦ rw t (select-passes p xs)
  ]

  pub any-select_keep :
      (q r : A → Bool) (keep : (x : A) → q x ≡ true → r x ≡ true) (xs : List A)
      → any q xs ≡ true
      → any q (select r xs) ≡ true
  any-select_keep q r keep [] h = h
  any-select_keep q r keep (x ∷ xs) h = ground (arith, keep x, any-select_keep q r keep xs)

  pub select-same :
      (q r : A → Bool) (keep : (x : A) → q x ≡ true → r x ≡ true) (xs : List A)
      → select q (select r xs) ≡ select q xs
  select-same q r keep [] = refl
  select-same q r keep (x ∷ xs) = ground (arith, keep x, select-same q r keep xs)
