-- ===== src/Core/Members.antt =====
-- Lemmas on the statements on the member table.
use open_format_3d_viewer.Prelude.{
  ℕ, String, ◌≡◌, refl, ap, ◌∙◌, inl, inr, Bool, true, false, not, ◌&&◌, List, [], ◌∷◌, map, ◌==◌,
  nat_eq, string_eq, select, any, All, select-head, All-imp, Bool-cases, arith,
}
use open_format_3d_viewer.Core.Rows.{ProjectMember, set_role}

module _ {ℓ} {A : Type ℓ} where
  -- No two rows clash.
  abbrev pub Distinct : (A → A → Bool) → List A → Type 0
  Distinct clash [] = Unit
  Distinct clash (x ∷ xs) = (any (clash x) xs ≡ false) × Distinct clash xs

  pub any-false : (p : A → Bool) (xs : List A) → any p xs ≡ false → All (λ x. p x ≡ false) xs
  any-false p [] h = tt
  any-false p (x ∷ xs) h = (ground arith, any-false p xs (ground arith))

  pub any-select : (p q : A → Bool) (xs : List A) → any p xs ≡ false → any p (select q xs) ≡ false
  any-select p q [] h = refl
  any-select p q (x ∷ xs) h = ground (arith, any-select p q xs)

  pub any_mono :
      (p q : A → Bool) (h : (x : A) → p x ≡ true → q x ≡ true) (xs : List A)
      → any p xs ≡ true
      → any q xs ≡ true
  any_mono p q h [] e = cc
  any_mono p q h (x ∷ xs) e = ground (arith, h x, any_mono p q h xs)

  pub Distinct-select :
      (clash : A → A → Bool) (q : A → Bool) (xs : List A)
      → Distinct clash xs
      → Distinct clash (select q xs)
  Distinct-select clash q [] d = tt
  Distinct-select clash q (x ∷ xs) d = elim (Bool-cases (q x)) [
    | inl t ↦ rw t (any-select (clash x) q xs d.0, Distinct-select clash q xs d.1)
    | inr t ↦ rw t (Distinct-select clash q xs d.1)
  ]

  pub select-none : (p : A → Bool) (xs : List A) → select p xs ≡ [] → All (λ x. p x ≡ false) xs
  select-none p [] e = tt
  select-none p (x ∷ xs) e = elim (Bool-cases (p x)) [
    | inl t ↦ absurd (ground arith)
    | inr t ↦ (t, select-none p xs (ground arith))
  ]

  -- A single selected row is the only one that passes the test.
  pub select-one :
      (p : A → Bool) (xs : List A) {y : A} → select p xs ≡ y ∷ [] → All (λ x. p x ≡ true → x ≡ y) xs
  select-one p [] e = tt
  select-one p (x ∷ xs) {y} e = elim (Bool-cases (p x)) [
    | inl t ↦ (
      λ _. ground arith,
      All-imp (λ z. p z ≡ false) (λ z. p z ≡ true → z ≡ y) (λ z f g. absurd (cc)) xs
          (select-none p xs (ground arith)),
    )
    | inr t ↦ (λ g. absurd (cc), select-one p xs (ground arith))
  ]

abbrev pub same_id : ProjectMember → ProjectMember → Bool
same_id m x = x.id == m.id

abbrev pub same_pair : ProjectMember → ProjectMember → Bool
same_pair m x = x.project_id == m.project_id && x.user_id == m.user_id

module _ {A : Type 0} (key : A → ℕ) where
  -- A row found by any test is the only row with its primary key.
  pub only_row :
      (p : A → Bool) (ms : List A) {m : A}
      → Distinct (λ y x. key x == key y) ms
      → select p ms ≡ m ∷ []
      → All (λ x. (key x == key m) ≡ true → x ≡ m) ms
  only_row p [] d e = tt
  only_row p (x ∷ xs) {m} d e = elim (Bool-cases (p x)) [
    | inl t ↦
        let s : x ≡ m = ground arith in
        (
          λ _. s,
          All-imp (λ z. (key z == key x) ≡ false) (λ z. (key z == key m) ≡ true → z ≡ m)
              (λ z f g. absurd (ground arith)) xs (any-false (λ z. key z == key x) xs d.0),
        )
    | inr t ↦
        let rest : select p xs ≡ m ∷ [] = ground arith in
        let away =
          select-head (λ z. (key z == key x) ≡ false) p xs (any-false (λ z. key z == key x) xs d.0)
            rest in
        (λ g. absurd (ground arith), only_row p xs d.1 rest)
  ]

  -- A change that leaves the primary keys.
  module _ (f : A → A) (same : (x : A) → key (f x) ≡ key x) where
    any-map : (j : ℕ) (ms : List A) → any (λ x. key x == j) (map f ms) ≡ any (λ x. key x == j) ms
    any-map j [] = refl
    any-map j (m ∷ ms) = rw (same m, any-map j ms) refl

    pub Distinct-map :
        (ms : List A)
        → Distinct (λ y x. key x == key y) ms
        → Distinct (λ y x. key x == key y) (map f ms)
    Distinct-map [] d = tt
    Distinct-map (m ∷ ms) d = (rw (same m, any-map (key m) ms) d.0, Distinct-map ms d.1)

module _ (k : ℕ) (r : String) where
  pub any_id-set_role :
      (j : ℕ) (ms : List ProjectMember)
      → any (λ x. x.id == j) (map (set_role k r) ms) ≡ any (λ x. x.id == j) ms
  any_id-set_role j [] = refl
  any_id-set_role j (m ∷ ms) = ground (arith, any_id-set_role j ms)

  -- A change of role moves nobody.
  pub any_pair-set_role :
      (p u : ℕ) (ms : List ProjectMember)
      → any (λ x. x.project_id == p && x.user_id == u) (map (set_role k r) ms)
        ≡ any (λ x. x.project_id == p && x.user_id == u) ms
  any_pair-set_role p u [] = refl
  any_pair-set_role p u (m ∷ ms) = ground (arith, any_pair-set_role p u ms)

  pub ids-set_role :
      (ms : List ProjectMember) → Distinct same_id ms → Distinct same_id (map (set_role k r) ms)
  ids-set_role [] d = tt
  ids-set_role (m ∷ ms) d = (ground (arith, any_id-set_role m.id ms), ids-set_role ms d.1)

  pub pairs-set_role :
      (ms : List ProjectMember) → Distinct same_pair ms → Distinct same_pair (map (set_role k r) ms)
  pairs-set_role [] d = tt
  pairs-set_role (m ∷ ms) d =
      (ground (arith, any_pair-set_role m.project_id m.user_id ms), pairs-set_role ms d.1)

module _ (q : ProjectMember → Bool) (k : ℕ) where
  -- A row with another key survives the update and the delete.
  pub any-set_role_away :
      (r : String) (ms : List ProjectMember)
      → any (λ m. q m && not (m.id == k)) ms ≡ true
      → any q (map (set_role k r) ms) ≡ true
  any-set_role_away r [] h = cc
  any-set_role_away r (m ∷ ms) h = ground (arith, any-set_role_away r ms)

  pub any-delete_away :
      (ms : List ProjectMember)
      → any (λ m. q m && not (m.id == k)) ms ≡ true
      → any q (select (λ m. not (m.id == k)) ms) ≡ true
  any-delete_away [] h = cc
  any-delete_away (m ∷ ms) h = ground (arith, any-delete_away ms)

  any-away :
      (ms : List ProjectMember)
      → All (λ m. (m.id == k) ≡ true → q m ≡ false) ms
      → any q ms ≡ true
      → any (λ m. q m && not (m.id == k)) ms ≡ true
  any-away [] h e = e
  any-away (m ∷ ms) h e = ground (arith, h.0, any-away ms h.1)

-- If the row that is changed does not pass the test, a row that does has another key.
pub any-other_row :
    (p q : ProjectMember → Bool) (ms : List ProjectMember) {m : ProjectMember}
    → Distinct same_id ms
    → select p ms ≡ m ∷ []
    → q m ≡ false
    → any q ms ≡ true
    → any (λ x. q x && not (x.id == m.id)) ms ≡ true
any-other_row p q ms {m} d e f = any-away q m.id ms (
    All-imp (λ x. (x.id == m.id) ≡ true → x ≡ m) (λ x. (x.id == m.id) ≡ true → q x ≡ false)
      (λ x h g. ap q (h g) ∙ f) ms (only_row (λ x. x.id) p ms d e))

-- A selected row is found by any test that it passes as well.
pub any-selected :
    {A : Type 0} (p q : A → Bool) (ms : List A) {m : A} {rest : List A}
    → select p ms ≡ m ∷ rest
    → q m ≡ true
    → any (λ x. p x && q x) ms ≡ true
any-selected p q [] e h = absurd (ground arith)
any-selected p q (x ∷ xs) {m} {rest} e h = elim (Bool-cases (p x)) [
  | inl t ↦ rw t (ground arith)
  | inr t ↦ rw t (any-selected p q xs (rw t at e) h)
]
