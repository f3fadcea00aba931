-- ===== src/Projects/Race.antt =====
-- Two role updates of services/projects.py whose checks both run before either commits: nothing in
-- the service or in the schema serialises them.
use mathlib.Core.Bool.{false≢true}
use open_format_3d_viewer.Prelude.{
  ℕ, String, ◌≡◌, refl, sym, ◌∙◌, Bool, true, false, not, ◌&&◌, List, [], ◌∷◌, map, ◌==◌, nat_eq,
  string_eq, select, any, arith, inl, inr,
}
use open_format_3d_viewer.Core.Session.{ok, scalar_one_or_none, or_raise}
use open_format_3d_viewer.Core.Rows.{ProjectMember, Database, set_role}
use open_format_3d_viewer.Core.Members.{any_mono, any-selected, any_id-set_role}
use open_format_3d_viewer.Projects.Authorization.{is_membership}
use open_format_3d_viewer.Projects.Service.{
  find_member, is_other_admin, check_role_update, commit_role_update,
}
use open_format_3d_viewer.Projects.Checks.{ensure_cases}
use open_format_3d_viewer.Projects.Invariant.{is_admin_of, commit_role_update-state}

-- The rows of the two users are the only admins of the project.
abbrev pub only_admins : (p i j : ℕ) → ProjectMember → Bool
only_admins p i j m = is_admin_of p m && not (m.id == i) && not (m.id == j)

demoted :
    (p i j : ℕ) (role : String) (ms : List ProjectMember)
    → (role == "admin") ≡ false
    → any (only_admins p i j) ms ≡ false
    → any (is_admin_of p) (map (set_role j role) (map (set_role i role) ms)) ≡ false
demoted p i j role [] r h = refl
demoted p i j role (m ∷ ms) r h = ground (arith, demoted p i j role ms r)

module _ (p a b : ℕ) (role : String) (db : Database) {ma mb : ProjectMember}
    (found_a : select (is_membership p a) db.members ≡ ma ∷ [])
    (found_b : select (is_membership p b) db.members ≡ mb ∷ [])
    (admin_a : (ma.role == "admin") ≡ true) (admin_b : (mb.role == "admin") ≡ true)
    (distinct : (a == b) ≡ false) (lower : (role == "admin") ≡ false) where
  -- The other admin is there when the check runs.
  check_passes : check_role_update p a role db ≡ (ok ma, db)
  unfolding check_role_update find_member scalar_one_or_none or_raise
  check_passes =
      let other : any (is_other_admin p a) db.members ≡ true =
        any_mono (λ x. is_membership p b x && x.role == "admin") _ (λ y t. ground arith) db.members
          (any-selected (is_membership p b) (λ x. x.role == "admin") db.members found_b admin_b) in
      elim (ensure_cases p a db) [
        | inl (e, f) ↦ absurd (false≢true (sym f ∙ other))
        | inr (e, f) ↦ rw (found_a, scalar_one_or_none) (rw (admin_a, lower, e))
      ]

module _ (db : Database) (p : ℕ) {m : ProjectMember} (t : ProjectMember → Bool) where
  row_there : select t db.members ≡ m ∷ [] → any (λ x. x.id == m.id) db.members ≡ true
  row_there e =
      any_mono (λ x. t x && x.id == m.id) _ (λ y h. ground arith) db.members
        (any-selected t (λ x. x.id == m.id) db.members e (ground arith))

-- For every project with exactly two admins and every lower role: if both admins are demoted by
-- requests that check before either commits, both checks pass, and the project is left with no
-- admin.
pub concurrent_demotions :
    (p a b : ℕ) (role : String) (db : Database) (ma mb : ProjectMember)
    → select (is_membership p a) db.members ≡ ma ∷ []
    → select (is_membership p b) db.members ≡ mb ∷ []
    → (ma.role == "admin") ≡ true
    → (mb.role == "admin") ≡ true
    → (a == b) ≡ false
    → (role == "admin") ≡ false
    → any (only_admins p ma.id mb.id) db.members ≡ false
    → (check_role_update p a role db ≡ (ok ma, db))
      × (check_role_update p b role db ≡ (ok mb, db))
      × (any
            (is_admin_of p)
            (commit_role_update role mb (commit_role_update role ma db).1).1.members
          ≡ false)
concurrent_demotions p a b role db ma mb fa fb aa ab ne lower only = (
  check_passes p a b role db fa fb aa ab ne lower,
  check_passes p b a role db fb fa ab aa (ground arith) lower,
  rw (commit_role_update-state db ma role (row_there db p (is_membership p a) fa)) (
      rw
        (commit_role_update-state (record db { members = map (set_role ma.id role) db.members }) mb
          role
          (any_id-set_role ma.id role mb.id db.members ∙ row_there db p (is_membership p b) fb))
        (demoted p ma.id mb.id role db.members lower only)),
)
