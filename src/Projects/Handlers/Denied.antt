-- ===== src/Projects/Handlers/Denied.antt =====
-- Who may change what.
use mathlib.Core.Bool.{false≢true}
use open_format_3d_viewer.Prelude.{
  ℕ, String, ◌≡◌, refl, sym, ◌∙◌, none, some, ◌⊎◌, inl, inr, Bool, true, false, ◌&&◌, ◌||◌, [], ◌∷◌,
  ◌==◌, nat_eq, string_eq, select, any, Bool-cases, arith,
}
use open_format_3d_viewer.Core.Exceptions.{Exception, not_found, authorization}
use open_format_3d_viewer.Core.Session.{
  Result, ok, raised, after, scalar-some, Result-cases, or_raise, scalar_one_or_none,
}
use open_format_3d_viewer.Core.Rows.{User, ProjectMember, Database}
use open_format_3d_viewer.Projects.Authorization.{
  is_membership, get_project_member, low_role, require_role, check_role, role_hierarchy, level_lt,
}
use open_format_3d_viewer.Core.Members.{any_mono, any-selected}
use open_format_3d_viewer.Projects.Service.{get_project}
use open_format_3d_viewer.Projects.Checks.{first-select}
use open_format_3d_viewer.Projects.Handlers.{
  Call, create, get_one, list_members, invite_member, update_member_role, remove_member, edit,
  delete, handle,
}

-- The caller's membership of the project has a role among the given ones.
abbrev pub holds : (String → Bool) → ℕ → User → Database → Bool
holds roles p caller db = any (λ m. is_membership p caller.id m && roles m.role) db.members

-- Who may send a request, told by the member table alone.
unfoldable pub may : Call → User → Database → Bool
may (create p id given) caller db = true
may (get_one p) caller db = holds (λ r. true) p caller db
may (list_members p) caller db = holds (λ r. true) p caller db
may (invite_member id p given) caller db = holds (λ r. r == "admin") p caller db
may (update_member_role p u role) caller db = holds (λ r. r == "admin") p caller db
may (remove_member p u) caller db = holds (λ r. r == "admin") p caller db
may (edit p given) caller db = holds (λ r. r == "editor" || r == "admin") p caller db
may (delete p) caller db = holds (λ r. r == "admin") p caller db

pub at_least_editor :
    (r : String)
    → level_lt (role_hierarchy r) (role_hierarchy "editor") ≡ false
    → (r == "editor" || r == "admin") ≡ true
unfolding level_lt role_hierarchy
at_least_editor r h = ground arith

pub at_least_admin :
    (r : String)
    → level_lt (role_hierarchy r) (role_hierarchy "admin") ≡ false
    → (r == "admin") ≡ true
unfolding level_lt role_hierarchy
at_least_admin r h = ground arith

module _ (p : ℕ) (caller : User) (db : Database) where
  pub get_project_member_cases :
      ((e : Exception) × (get_project_member p caller db ≡ (raised e, db)))
      ⊎ ((m : ProjectMember) × (get_project_member p caller db ≡ (ok m, db))
          × (select (is_membership p caller.id) db.members ≡ m ∷ []))
  unfolding get_project_member or_raise
  get_project_member_cases =
      elim (Result-cases (scalar_one_or_none (select (λ x. x.id == p) db.projects))) [
        | inl (e, f) ↦ inl (e, rw f)
        | inr (none, f) ↦ inl (not_found "Project not found", rw (f, or_raise))
        | inr (some x, f) ↦
            elim (Result-cases
              (scalar_one_or_none (select (is_membership p caller.id) db.members))) [
                | inl (e, g) ↦ inl (e, rw (f, g))
                | inr (none, g) ↦
                    inl (authorization "You are not a member of this project", rw (f, g))
                | inr (some m, g) ↦ inr (m, rw (f, g), scalar-some _ m g)
              ]
      ]

  pub require_role_cases :
      (role : String)
      → ((e : Exception) × (require_role role p caller db ≡ (raised e, db)))
        ⊎ ((m : ProjectMember) × (require_role role p caller db ≡ (ok m, db))
            × (select (is_membership p caller.id) db.members ≡ m ∷ [])
            × (level_lt (role_hierarchy m.role) (role_hierarchy role) ≡ false))
  unfolding require_role check_role
  require_role_cases role = elim get_project_member_cases [
    | inl (e, f) ↦ inl (e, rw f)
    | inr (m, f, s) ↦ elim (Bool-cases (level_lt (role_hierarchy m.role) (role_hierarchy role))) [
      | inl low ↦ inl (low_role role m.role, rw (f, low))
      | inr high ↦ inr (m, rw (f, high), s, high)
    ]
  ]

  -- A role check that the member table does not bear out is refused before the service runs.
  guarded-denied :
      {B : Type 0} (role : String) (rest : ProjectMember → Database → Result B × Database)
      (roles : String → Bool)
      → ((r : String) → level_lt (role_hierarchy r) (role_hierarchy role) ≡ false → roles r ≡ true)
      → holds roles p caller db ≡ false
      → (e : Exception) × (after (require_role role p caller db) rest ≡ (raised e, db))
  guarded-denied role rest roles enough h = elim (require_role_cases role) [
    | inl (e, f) ↦ (e, rw f)
    | inr (m, f, s, level) ↦ absurd (
        false≢true (
          sym h
          ∙ any-selected (is_membership p caller.id) (λ x. roles x.role) db.members s
              (enough m.role level)))
  ]

  member-denied :
      {B : Type 0} (rest : ProjectMember → Database → Result B × Database)
      → holds (λ r. true) p caller db ≡ false
      → (e : Exception) × (after (get_project_member p caller db) rest ≡ (raised e, db))
  member-denied rest h = elim get_project_member_cases [
    | inl (e, f) ↦ (e, rw f)
    | inr (m, f, s) ↦ absurd (
        false≢true (sym h ∙ any-selected (is_membership p caller.id) (λ x. true) db.members s refl))
  ]

  get_project-denied :
      holds (λ r. true) p caller db ≡ false
      → (e : Exception) × (get_project p caller db ≡ (raised e, db))
  unfolding get_project
  get_project-denied h = elim (first-select (λ x. x.id == p) db.projects) [
    | inl (e, f) ↦ (not_found "Project not found", rw (e, get_project))
    | inr (x, e, f) ↦ elim (first-select (is_membership p caller.id) db.members) [
      | inl (e', g) ↦ (not_found "Project not found", rw (e, get_project) (rw (e', get_project)))
      | inr (m, e', g) ↦ absurd (
          false≢true
            (sym h ∙ any_mono (is_membership p caller.id) _ (λ y t. ground arith) db.members g))
    ]
  ]

-- A request that the caller may not send raises, and leaves the database as it was: only members
-- see a project and its members, only editors and admins edit it, and only admins delete it or
-- invite, update or remove its members.
pub handle-denied :
    (c : Call) (caller : User) (now : ℕ) (db : Database)
    → may c caller db ≡ false
    → (e : Exception) × (handle c caller now db ≡ (raised e, db))
unfolding handle may
handle-denied (create p id given) caller now db h = absurd (false≢true (sym h))
handle-denied (get_one p) caller now db h =
    let (e, f) = get_project-denied p caller db h in (e, rw f)
handle-denied (list_members p) caller now db h = member-denied p caller db _ h
handle-denied (invite_member id p given) caller now db h =
    guarded-denied p caller db "admin" _ (λ r. r == "admin") at_least_admin h
handle-denied (update_member_role p u role) caller now db h =
    guarded-denied p caller db "admin" _ (λ r. r == "admin") at_least_admin h
handle-denied (remove_member p u) caller now db h =
    guarded-denied p caller db "admin" _ (λ r. r == "admin") at_least_admin h
handle-denied (edit p given) caller now db h =
    guarded-denied p caller db "editor" _ (λ r. r == "editor" || r == "admin") at_least_editor h
handle-denied (delete p) caller now db h =
    guarded-denied p caller db "admin" _ (λ r. r == "admin") at_least_admin h
