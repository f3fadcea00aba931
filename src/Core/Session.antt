-- ===== src/Core/Session.antt =====
-- Code that reads and writes a state and may raise. What was committed before a raise stays.
-- `query` is a `select` on the committed rows, `update` a committed write; a `transaction` whose
-- body raises leaves the state as it was.
use open_format_3d_viewer.Prelude.{
  ◌⊎◌, inl, inr, ◌≡◌, refl, sym, subst, List, [], ◌∷◌, Option, none, some, Bool, true, false,
  if◌then◌else◌, arith,
}
use open_format_3d_viewer.Core.Exceptions.{Exception, no_result_found, multiple_results_found}

pub data Result {ℓ} (A : Type ℓ) : Type ℓ where
  ok : A → Result A
  raised : Exception → Result A

abbrev pub Action {ℓ} : Type ℓ → Type ℓ → Type ℓ
Action S A = S → Result A × S

module _ {ℓ} {S A B : Type ℓ} where
  abbrev pub after : Result A × S → (A → Action S B) → Result B × S
  after (ok a, s) f = f a s
  after (raised e, s) f = (raised e, s)

module _ {ℓ} {S A B : Type ℓ} where
  infixl 5 ◌>>=◌
  abbrev pub ◌>>=◌ : Action S A → (A → Action S B) → Action S B
  ◌>>=◌ m f s = after (m s) f

module _ {ℓ} {S A B : Type ℓ} where
  infixl 5 ◌>>◌
  abbrev pub ◌>>◌ : Action S A → Action S B → Action S B
  m >> k = m >>= λ _. k

module _ {ℓ} {S A : Type ℓ} where
  abbrev pub pure : A → Action S A
  pure a s = (ok a, s)

  abbrev pub raise : Exception → Action S A
  raise e s = (raised e, s)

  abbrev pub query : (S → Result A) → Action S A
  query f s = (f s, s)

  abbrev rolled_back : S → Result A × S → Result A × S
  rolled_back before (ok a, s) = (ok a, s)
  rolled_back before (raised e, s) = (raised e, before)

  abbrev pub transaction : Action S A → Action S A
  transaction m s = rolled_back s (m s)

abbrev pub update {ℓ} : {S : Type ℓ} → (S → S) → Action S Unit
update f s = (ok tt, f s)

pub Result-cases {ℓ} :
    {A : Type ℓ} (r : Result A) → ((e : Exception) × (r ≡ raised e)) ⊎ ((a : A) × (r ≡ ok a))
Result-cases (ok a) = inr (a, refl)
Result-cases (raised e) = inl (e, refl)

-- A last read does not change the state, whatever it returns.
pub after-pure {ℓ} :
    {S A B : Type ℓ} (r : Result A) (s : S) (f : A → B) → (after (r, s) (λ a. pure (f a))).1 ≡ s
after-pure (ok a) s f = refl
after-pure (raised e) s f = refl

-- What goes on alike after each outcome.
pub after-same {ℓ} :
    {S A B : Type ℓ} (x : Result A × S) (f g : A → Action S B)
    → ((a : A) (s : S) → f a s ≡ g a s)
    → after x f ≡ after x g
after-same (ok a, s) f g h = h a s
after-same (raised e, s) f g h = refl

-- After a part that only reads, an invariant is kept if the rest keeps it.
pub after-keeps {ℓ κ} :
    {S A B : Type ℓ} (P : S → Type κ) (x : Result A × S) (f : A → Action S B) {s : S}
    → x.1 ≡ s
    → P s
    → ((a : A) → P (f a s).1)
    → P (after x f).1
after-keeps P (ok a, t) f e h k = subst (λ z. P (f a z).1) (sym e) (k a)
after-keeps P (raised x, t) f e h k = subst P (sym e) h

pub pure-keeps {ℓ κ} :
    {S A B : Type ℓ} (P : S → Type κ) (x : Result A × S) (g : A → B)
    → P x.1
    → P (after x (λ a. pure (g a))).1
pure-keeps P (ok a, t) g h = h
pure-keeps P (raised e, t) g h = h

-- SQLAlchemy's `scalar_one_or_none` and `scalar_one` on the selected rows.
module _ {ℓ} {A : Type ℓ} where
  unfoldable pub scalar_one_or_none : List A → Result (Option A)
  scalar_one_or_none [] = ok none
  scalar_one_or_none (a ∷ []) = ok (some a)
  scalar_one_or_none (a ∷ b ∷ rows) = raised multiple_results_found

  unfoldable pub scalar_one : List A → Result A
  scalar_one [] = raised no_result_found
  scalar_one (a ∷ []) = ok a
  scalar_one (a ∷ b ∷ rows) = raised multiple_results_found

  unfoldable pub first : List A → Option A
  first [] = none
  first (a ∷ rows) = some a

  -- `if not row: raise …`
  unfoldable pub or_raise : Exception → Option A → Result A
  or_raise e none = raised e
  or_raise e (some a) = ok a

  pub scalar-some : (rows : List A) (a : A) → scalar_one_or_none rows ≡ ok (some a) → rows ≡ a ∷ []
  unfolding scalar_one_or_none
  scalar-some [] a e = ground arith
  scalar-some (x ∷ []) a e = ground arith
  scalar-some (x ∷ y ∷ rows) a e = ground arith

-- An action after which a property of the state holds if it held before.
module _ {ℓ κ} {S : Type ℓ} (P : S → Type κ) where
  unfoldable pub Keeps : {A : Type ℓ} → Action S A → Type (ℓ ⊔ κ)
  Keeps m = (s : S) → P s → P (m s).1

  Keeps-after :
      {A B : Type ℓ} (x : Result A × S) (k : A → Action S B)
      → P x.1
      → ((a : A) → Keeps (k a))
      → P (after x k).1
  unfolding Keeps
  Keeps-after (ok a, s) k h f = f a s h
  Keeps-after (raised e, s) k h f = h

  pub Keeps-bind :
      {A B : Type ℓ} (m : Action S A) (k : A → Action S B)
      → Keeps m
      → ((a : A) → Keeps (k a))
      → Keeps (m >>= k)
  unfolding Keeps
  Keeps-bind m k h f s p = Keeps-after (m s) k (h s p) f

  pub Keeps-query : {A : Type ℓ} (f : S → Result A) → Keeps (query f)
  unfolding Keeps
  Keeps-query f s p = p

  pub Keeps-pure : {A : Type ℓ} (a : A) → Keeps (pure a)
  unfolding Keeps
  Keeps-pure a s p = p

  pub Keeps-raise : (A : Type ℓ) (e : Exception) → Keeps {A = A} (raise e)
  unfolding Keeps
  Keeps-raise A e s p = p

  pub Keeps-if :
      {A : Type ℓ} (b : Bool) (m k : Action S A) → Keeps m → Keeps k → Keeps (if b then m else k)
  Keeps-if true m k h g = h
  Keeps-if false m k h g = g

  -- A check that does not read the state.
  pub Keeps-checked :
      {A B : Type ℓ} (r : Result A) (k : A → Action S B)
      → ((a : A) → r ≡ ok a → Keeps (k a))
      → Keeps (query (λ _. r) >>= k)
  unfolding Keeps
  Keeps-checked (ok a) k h s p = h a refl s p
  Keeps-checked (raised e) k h s p = p
