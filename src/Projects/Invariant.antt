-- ===== src/Projects/Invariant.antt =====
-- The invariant of projects: the owner is a member, and there is an admin.
use open_format_3d_viewer.Prelude.{
  ℕ, String, ◌≡◌, ◌⊎◌, inl, inr, Bool, true, not, ◌&&◌, List, [], ◌∷◌, ◌==◌, nat_eq, string_eq, map,
  select, select-head, any, All, All-imp, All-imp2, Bool-cases, arith, ◌∙◌, sym, subst,
}
use open_format_3d_viewer.Core.Session.{after-pure}
use open_format_3d_viewer.Core.Rows.{Project, ProjectMember, Database, set_role, delete_member_row}
use open_format_3d_viewer.Core.Members.{
  Distinct, same_id, same_pair, any-set_role_away, any-delete_away, any-other_row, any_mono,
  ids-set_role, pairs-set_role, any_pair-set_role, Distinct-select,
}
use open_format_3d_viewer.Projects.Authorization.{is_membership}
use open_format_3d_viewer.Projects.Service.{
  is_other_admin, commit_role_update, update_project_member_role, remove_project_member,
}
use open_format_3d_viewer.Projects.Checks.{
  check_role_update_cases, check_remove_cases, OwnedByOther,
}

All-trivial : (ms : List ProjectMember) → All (λ y. Unit {0}) ms
All-trivial [] = tt
All-trivial (m ∷ ms) = (tt, All-trivial ms)

abbrev pub is_admin_of : ℕ → ProjectMember → Bool
is_admin_of p m = m.project_id == p && m.role == "admin"

abbrev pub HasAdmin : List ProjectMember → Project → Type 0
HasAdmin ms p = any (is_admin_of p.id) ms ≡ true

abbrev pub HasOwner : List ProjectMember → Project → Type 0
HasOwner ms p = any (is_membership p.id p.owner_id) ms ≡ true

pub record IsManaged (db : Database) : Type 0 where
  pub ids : Distinct same_id db.members
  pub pairs : Distinct same_pair db.members
  pub admins : All (HasAdmin db.members) db.projects
  pub owners : All (HasOwner db.members) db.projects

module _ (p u : ℕ) (ms : List ProjectMember) {m : ProjectMember} where
  -- Before the row of the user is changed, every project has an admin with another row.
  other_admin_row :
      (x : Project)
      → Distinct same_id ms
      → select (is_membership p u) ms ≡ m ∷ []
      → any (is_other_admin p u) ms ≡ true
      → HasAdmin ms x
      → any (λ y. is_admin_of x.id y && not (y.id == m.id)) ms ≡ true
  other_admin_row x d e o a =
      let found : is_membership p u m ≡ true =
        (select-head (λ y. Unit {0}) (is_membership p u) ms (All-trivial ms) e).0 in
      elim (Bool-cases (x.id == p)) [
        | inl here ↦
            any_mono (λ y. is_other_admin p u y && not (y.id == m.id))
              (λ y. is_admin_of x.id y && not (y.id == m.id)) (λ y h. ground arith) ms
              (any-other_row (is_membership p u) (is_other_admin p u) ms d e (ground arith) o)
        | inr there ↦ any-other_row (is_membership p u) (is_admin_of x.id) ms d e (ground arith) a
      ]

module _ (db : Database) (m : ProjectMember) where
  commit_role_update_cases :
      (role : String)
      → ((commit_role_update role m db).1 ≡ db)
        ⊎ ((commit_role_update role m db).1
            ≡ record db { members = map (set_role m.id role) db.members })
  unfolding commit_role_update
  commit_role_update_cases role = elim (Bool-cases (any (λ x. x.id == m.id) db.members)) [
    | inr gone ↦ inl (rw gone)
    | inl there ↦ inr (rw there (after-pure _ _ _))
  ]

  pub commit_role_update-state :
      (role : String)
      → any (λ x. x.id == m.id) db.members ≡ true
      → (commit_role_update role m db).1
        ≡ record db { members = map (set_role m.id role) db.members }
  unfolding commit_role_update
  commit_role_update-state role there = rw there (after-pure _ _ _)

  -- If every project has an admin besides the row, or the row stays an admin, the update is safe.
  set_role-IsManaged :
      (role : String)
      → IsManaged db
      → ((x : Project) → HasAdmin db.members x → HasAdmin (map (set_role m.id role) db.members) x)
      → IsManaged (record db { members = map (set_role m.id role) db.members })
  set_role-IsManaged role v keep = record {
    ids = ids-set_role m.id role db.members v.ids;
    pairs = pairs-set_role m.id role db.members v.pairs;
    admins = All-imp (HasAdmin db.members) _ keep db.projects v.admins;
    owners =
        All-imp (HasOwner db.members) _
          (λ x h. any_pair-set_role m.id role x.id x.owner_id db.members ∙ h) db.projects v.owners;
  }

any-promote :
    (k p : ℕ) (role : String) (ms : List ProjectMember)
    → (role == "admin") ≡ true
    → any (is_admin_of p) ms ≡ true
    → any (is_admin_of p) (map (set_role k role) ms) ≡ true
any-promote k p role [] r h = cc
any-promote k p role (m ∷ ms) r h = ground (arith, any-promote k p role ms r)

module _ (p u : ℕ) (db : Database) (v : IsManaged db) where
  -- What an admin loses another admin keeps.
  demoted-HasAdmin :
      (role : String) (m : ProjectMember) (x : Project)
      → select (is_membership p u) db.members ≡ m ∷ []
      → ((m.role == "admin" && not (role == "admin")) ≡ true
          → any (is_other_admin p u) db.members ≡ true)
      → HasAdmin db.members x
      → HasAdmin (map (set_role m.id role) db.members) x
  demoted-HasAdmin role m x s other a = elim (Bool-cases (role == "admin")) [
    | inl still ↦ any-promote m.id x.id role db.members still a
    | inr demoting ↦
        any-set_role_away (is_admin_of x.id) m.id role db.members
          (elim (Bool-cases (m.role == "admin")) [
            | inl admin ↦ other_admin_row p u db.members x v.ids s (other (ground arith)) a
            | inr plain ↦
                any-other_row (is_membership p u) (is_admin_of x.id) db.members v.ids s
                  (ground arith) a
          ])
  ]

  -- Updating a member's role leaves every project with an admin and with its owner as a member.
  pub update_project_member_role-IsManaged :
      (role : String) → IsManaged (update_project_member_role p u role db).1
  unfolding update_project_member_role
  update_project_member_role-IsManaged role = elim (check_role_update_cases p u db role) [
    | inl (e, f) ↦ rw f v
    | inr (m, f, s, other) ↦ rw f (elim (commit_role_update_cases db m role) [
      | inl same ↦ subst IsManaged (sym same) v
      | inr new ↦
          subst IsManaged (sym new)
            (set_role-IsManaged db m role v λ x a. demoted-HasAdmin role m x s other a)
    ])
  ]

  removed-HasAdmin :
      (m : ProjectMember) (x : Project)
      → select (is_membership p u) db.members ≡ m ∷ []
      → ((m.role == "admin") ≡ true → any (is_other_admin p u) db.members ≡ true)
      → HasAdmin db.members x
      → HasAdmin (delete_member_row m.id db).members x
  removed-HasAdmin m x s other a =
      any-delete_away (is_admin_of x.id) m.id db.members (elim (Bool-cases (m.role == "admin")) [
        | inl admin ↦ other_admin_row p u db.members x v.ids s (other admin) a
        | inr plain ↦
            any-other_row (is_membership p u) (is_admin_of x.id) db.members v.ids s (ground arith) a
      ])

  removed-HasOwner :
      (m : ProjectMember) (x : Project)
      → select (is_membership p u) db.members ≡ m ∷ []
      → OwnedByOther p u db x
      → HasOwner db.members x
      → HasOwner (delete_member_row m.id db).members x
  removed-HasOwner m x s o h =
      let found : is_membership p u m ≡ true =
        (select-head (λ y. Unit {0}) (is_membership p u) db.members (All-trivial db.members) s).0 in
      any-delete_away (is_membership x.id x.owner_id) m.id db.members (
        any-other_row (is_membership p u) (is_membership x.id x.owner_id) db.members v.ids s
          (ground arith) h)

  -- Removing a member leaves every project with an admin and with its owner as a member.
  pub remove_project_member-IsManaged : IsManaged (remove_project_member p u db).1
  unfolding remove_project_member
  remove_project_member-IsManaged = elim (check_remove_cases p u db) [
    | inl (e, f) ↦ rw f v
    | inr (m, f, s, strangers, other) ↦ rw f (record {
      ids = Distinct-select same_id _ db.members v.ids;
      pairs = Distinct-select same_pair _ db.members v.pairs;
      admins = All-imp (HasAdmin db.members) _ (λ x a. removed-HasAdmin m x s other a) _ v.admins;
      owners =
          All-imp2 (OwnedByOther p u db) (HasOwner db.members) _
            (λ x o h. removed-HasOwner m x s o h) db.projects strangers v.owners;
    })
  ]
