-- ===== src/Projects/Checks.antt =====
-- What the reading parts of services/projects.py establish before anything is written.
use open_format_3d_viewer.Prelude.{
  All, All-imp, ap, ◌∙◌, ℕ, String, ◌≡◌, refl, ◌⊎◌, inl, inr, Bool, true, false, not, ◌&&◌, List,
  [], ◌∷◌, ◌==◌, nat_eq, string_eq, select, any, Bool-cases, Option, none, some,
}
use open_format_3d_viewer.Core.Exceptions.{Exception, conflict, not_found, multiple_results_found}
use open_format_3d_viewer.Core.Session.{ok, raised, scalar_one_or_none, or_raise, first}
use open_format_3d_viewer.Core.Members.{select-one, select-none}
use open_format_3d_viewer.Core.Rows.{Project, ProjectMember, Database}
use open_format_3d_viewer.Projects.Authorization.{is_membership}
use open_format_3d_viewer.Projects.Service.{
  find_member, ensure_not_last_admin, is_other_admin, last_admin, check_role_update, check_remove,
  is_owner,
}

pub first-select {ℓ} :
    {A : Type ℓ} (q : A → Bool) (xs : List A)
    → ((first (select q xs) ≡ none) × (any q xs ≡ false))
      ⊎ ((a : A) × (first (select q xs) ≡ some a) × (any q xs ≡ true))
unfolding first
first-select q [] = inl (refl, refl)
first-select q (x ∷ xs) = elim (Bool-cases (q x)) [
  | inl t ↦ inr (x, rw t, rw t)
  | inr t ↦ rw t (first-select q xs)
]

module _ (p u : ℕ) (db : Database) where
  pub find_member_cases :
      ((e : Exception) × (find_member p u db ≡ (raised e, db)))
      ⊎ ((m : ProjectMember) × (find_member p u db ≡ (ok m, db))
          × (select (is_membership p u) db.members ≡ m ∷ []))
  unfolding find_member scalar_one_or_none or_raise
  find_member_cases = go (select (is_membership p u) db.members) refl
    where
      go :
          (rows : List ProjectMember)
          → select (is_membership p u) db.members ≡ rows
          → ((e : Exception) × (find_member p u db ≡ (raised e, db)))
            ⊎ ((m : ProjectMember) × (find_member p u db ≡ (ok m, db))
                × (select (is_membership p u) db.members ≡ m ∷ []))
      go [] e =
          inl (not_found "This user is not a member of the project", rw (e, scalar_one_or_none))
      go (m ∷ []) e = inr (m, rw (e, scalar_one_or_none), e)
      go (m ∷ n ∷ rows) e = inl (multiple_results_found, rw (e, scalar_one_or_none))

  pub ensure_cases :
      ((ensure_not_last_admin p u db ≡ (raised last_admin, db))
        × (any (is_other_admin p u) db.members ≡ false))
      ⊎ ((ensure_not_last_admin p u db ≡ (ok tt, db))
          × (any (is_other_admin p u) db.members ≡ true))
  unfolding ensure_not_last_admin
  ensure_cases = elim (first-select (is_other_admin p u) db.members) [
    | inl (e, f) ↦ inl (rw (e, ensure_not_last_admin), f)
    | inr (m, e, f) ↦ inr (rw (e, ensure_not_last_admin), f)
  ]

  -- A role update goes on only with the one row of the member, and where it demotes an admin, only
  -- if another one stays.
  pub check_role_update_cases :
      (role : String)
      → ((e : Exception) × (check_role_update p u role db ≡ (raised e, db)))
        ⊎ ((m : ProjectMember) × (check_role_update p u role db ≡ (ok m, db))
            × (select (is_membership p u) db.members ≡ m ∷ [])
            × ((m.role == "admin" && not (role == "admin")) ≡ true
                → any (is_other_admin p u) db.members ≡ true))
  unfolding check_role_update
  check_role_update_cases role = elim find_member_cases [
    | inl (e, f) ↦ inl (e, rw f)
    | inr (m, f, s) ↦ elim (Bool-cases (m.role == "admin" && not (role == "admin"))) [
      | inr keep ↦ inr (m, rw (f, keep), s, λ g. absurd (cc))
      | inl demote ↦ elim ensure_cases [
        | inl (e, no_other) ↦ inl (last_admin, rw (f, demote, e))
        | inr (e, other) ↦ inr (m, rw (f, demote, e), s, λ g. other)
      ]
    ]
  ]

  -- Nobody who owns a project with this id is the user.
  abbrev pub OwnedByOther : Project → Type 0
  OwnedByOther x = (x.id == p) ≡ true → (x.owner_id == u) ≡ false

  find_owner_cases :
      ((e : Exception) × (scalar_one_or_none (select (λ x. x.id == p) db.projects) ≡ raised e))
      ⊎ ((o : Option Project) × (scalar_one_or_none (select (λ x. x.id == p) db.projects) ≡ ok o)
          × (is_owner o u ≡ false → All OwnedByOther db.projects))
  unfolding scalar_one_or_none
  find_owner_cases = go (select (λ x. x.id == p) db.projects) refl
    where
      go :
          (rows : List Project)
          → select (λ x. x.id == p) db.projects ≡ rows
          → ((e : Exception) × (scalar_one_or_none (select (λ x. x.id == p) db.projects)
                ≡ raised e))
            ⊎ ((o : Option Project) × (scalar_one_or_none (select (λ x. x.id == p) db.projects)
                  ≡ ok o)
                × (is_owner o u ≡ false → All OwnedByOther db.projects))
      go [] e = inr (
        none,
        rw (e, scalar_one_or_none),
        λ f.
            All-imp (λ x. (x.id == p) ≡ false) OwnedByOther (λ x g h. absurd (cc)) db.projects
              (select-none _ db.projects e),
      )
      go (o ∷ []) e = inr (
        some o,
        rw (e, scalar_one_or_none),
        λ f.
            All-imp (λ x. (x.id == p) ≡ true → x ≡ o) OwnedByOther
              (λ x g h. ap (λ z. z.owner_id == u) (g h) ∙ f) db.projects
              (select-one _ db.projects e),
      )
      go (o ∷ o' ∷ rows) e = inl (multiple_results_found, rw (e, scalar_one_or_none))

  -- A removal goes on only with the one row of the member, who owns no such project, and where it
  -- removes an admin, only if another one stays.
  pub check_remove_cases :
      ((e : Exception) × (check_remove p u db ≡ (raised e, db)))
      ⊎ ((m : ProjectMember) × (check_remove p u db ≡ (ok m, db))
          × (select (is_membership p u) db.members ≡ m ∷ [])
          × All OwnedByOther db.projects
          × ((m.role == "admin") ≡ true → any (is_other_admin p u) db.members ≡ true))
  unfolding check_remove
  check_remove_cases = elim find_member_cases [
    | inl (e, f) ↦ inl (e, rw f)
    | inr (m, f, s) ↦ elim find_owner_cases [
      | inl (e, g) ↦ inl (e, rw (f, g))
      | inr (o, g, others) ↦ elim (Bool-cases (is_owner o u)) [
        | inl owner ↦
            inl (conflict "The project owner cannot be removed as a member", rw (f, g, owner))
        | inr stranger ↦ elim (Bool-cases (m.role == "admin")) [
          | inr keep ↦ inr (m, rw (f, g, stranger, keep), s, others stranger, λ h. absurd (cc))
          | inl demote ↦ elim ensure_cases [
            | inl (e, no_other) ↦ inl (last_admin, rw (f, g, stranger, demote, e))
            | inr (e, other) ↦
                inr (m, rw (f, g, stranger, demote, e), s, others stranger, λ h. other)
          ]
        ]
      ]
    ]
  ]
