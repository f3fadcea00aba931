-- ===== src/Projects/Creation.antt =====
-- The invariant of projects, for the services that add, edit and delete rows.
use open_format_3d_viewer.Prelude.{
  ℕ, ◌≡◌, refl, ◌⊎◌, inl, inr, true, false, not, List, [], ◌∷◌, ◌==◌, nat_eq, string_eq, map,
  select, any, All, All-imp, All-imp2, All-select, Bool-cases, select-head, select-passes,
  any-select_keep, if◌then◌else◌, arith,
}
use open_format_3d_viewer.Core.Exceptions.{
  Exception, integrity_error, not_found, multiple_results_found,
}
use open_format_3d_viewer.Core.Session.{after-keeps, ok, raised, scalar_one_or_none, or_raise}
use open_format_3d_viewer.Core.Rows.{
  User, Project, ProjectMember, Database, insert_member, insert_project, member_conflicts,
  project_conflicts, update_project_row, delete_project_row,
}
use open_format_3d_viewer.Core.Members.{same_id, same_pair, Distinct-select}
use open_format_3d_viewer.Projects.Authorization.{is_membership}
use open_format_3d_viewer.Projects.Service.{
  ProjectCreate, ProjectUpdate, ProjectMemberInvite, create_project, commit_invite, check_invite,
  invite_project_member, find_project, update_project, delete_project, edited,
}
use open_format_3d_viewer.Projects.Invariant.{IsManaged, HasAdmin, HasOwner, is_admin_of}

-- Adding a member that the constraints admit.
insert-IsManaged :
    (m : ProjectMember) (db : Database)
    → IsManaged db
    → member_conflicts m db ≡ false
    → IsManaged (record db { members = m ∷ db.members })
unfolding member_conflicts
insert-IsManaged m db v h = record {
  ids = (ground arith, v.ids);
  pairs = (ground arith, v.pairs);
  admins = All-imp (HasAdmin db.members) _ (λ x a. ground arith) db.projects v.admins;
  owners = All-imp (HasOwner db.members) _ (λ x a. ground arith) db.projects v.owners;
}

module _ (m : ProjectMember) (db : Database) where
  pub insert_member_cases :
      (insert_member m db ≡ (raised integrity_error, db))
      ⊎ ((insert_member m db ≡ (ok tt, record db { members = m ∷ db.members }))
          × (member_conflicts m db ≡ false))
  unfolding insert_member
  insert_member_cases = elim (Bool-cases (member_conflicts m db)) [
    | inl t ↦ inl (rw t)
    | inr t ↦ inr (rw t, t)
  ]

insert_project_cases :
    (p : Project) (db : Database)
    → (insert_project p db ≡ (raised integrity_error, db))
      ⊎ (insert_project p db ≡ (ok tt, record db { projects = p ∷ db.projects }))
unfolding insert_project
insert_project_cases p db = elim (Bool-cases (project_conflicts p db)) [
  | inl t ↦ inl (rw t)
  | inr t ↦ inr (rw t)
]

-- A new project with its owner as an admin.
create-IsManaged :
    (p : Project) (m : ProjectMember) (db : Database)
    → IsManaged db
    → is_admin_of p.id m ≡ true
    → is_membership p.id p.owner_id m ≡ true
    → member_conflicts m (record db { projects = p ∷ db.projects }) ≡ false
    → IsManaged (record db { projects = p ∷ db.projects; members = m ∷ db.members })
unfolding member_conflicts
create-IsManaged p m db v a o h = record {
  ids = (ground arith, v.ids);
  pairs = (ground arith, v.pairs);
  admins = (
    ground arith,
    All-imp (HasAdmin db.members) (HasAdmin (m ∷ db.members)) (λ x k. ground arith) db.projects
        v.admins,
  );
  owners = (
    ground arith,
    All-imp (HasOwner db.members) (HasOwner (m ∷ db.members)) (λ x k. ground arith) db.projects
        v.owners,
  );
}

-- Creating a project leaves every project, the new one included, with its owner and an admin.
pub create_project-IsManaged :
    (project_id member_id now : ℕ) (given : ProjectCreate) (owner : User) (db : Database)
    → IsManaged db
    → IsManaged (create_project project_id member_id now given owner db).1
unfolding create_project
create_project-IsManaged project_id member_id now given owner db v =
    let p : Project = record {
      id = project_id;
      owner_id = owner.id;
      name = given.name;
      description = given.description;
      created_at = now;
      updated_at = now;
    } in
    let m : ProjectMember = record {
      id = member_id;
      project_id = project_id;
      user_id = owner.id;
      role = "admin";
    } in
    elim (insert_project_cases p db) [
      | inl e ↦ rw e v
      | inr e ↦ elim (insert_member_cases m (record db { projects = p ∷ db.projects })) [
        | inl f ↦ rw (e, f) v
        | inr (f, k) ↦ rw (e, f) (create-IsManaged p m db v (ground arith) (ground arith) k)
      ]
    ]

commit_invite-IsManaged :
    (member_id p : ℕ) (given : ProjectMemberInvite) (user : User) (db : Database)
    → IsManaged db
    → IsManaged (commit_invite member_id p given user db).1
unfolding commit_invite
commit_invite-IsManaged member_id p given user db v =
    let m : ProjectMember = record {
      id = member_id;
      project_id = p;
      user_id = user.id;
      role = given.role;
    } in
    elim (insert_member_cases m db) [
      | inl e ↦ rw e v
      | inr (e, k) ↦ rw e (insert-IsManaged m db v k)
    ]

-- The reads of an invitation change nothing.
pub check_invite-state :
    (p : ℕ) (given : ProjectMemberInvite) (db : Database) → (check_invite p given db).1 ≡ db
unfolding check_invite
check_invite-state p given db = ground arith

-- Inviting a member leaves every project with its owner and an admin.
pub invite_project_member-IsManaged :
    (member_id p : ℕ) (given : ProjectMemberInvite) (db : Database)
    → IsManaged db
    → IsManaged (invite_project_member member_id p given db).1
unfolding invite_project_member
invite_project_member-IsManaged member_id p given db v =
    after-keeps IsManaged (check_invite p given db) (commit_invite member_id p given)
      (check_invite-state p given db) v
      (λ user. commit_invite-IsManaged member_id p given user db v)

find_project_cases :
    (p : ℕ) (db : Database)
    → ((e : Exception) × (find_project p db ≡ (raised e, db)))
      ⊎ ((x : Project) × (find_project p db ≡ (ok x, db))
          × (select (λ y. y.id == p) db.projects ≡ x ∷ []))
unfolding find_project scalar_one_or_none or_raise
find_project_cases p db = go (select (λ y. y.id == p) db.projects) refl
  where
    go :
        (rows : List Project)
        → select (λ y. y.id == p) db.projects ≡ rows
        → ((e : Exception) × (find_project p db ≡ (raised e, db)))
          ⊎ ((x : Project) × (find_project p db ≡ (ok x, db))
              × (select (λ y. y.id == p) db.projects ≡ x ∷ []))
    go [] e = inl (not_found "Project not found", rw (e, scalar_one_or_none))
    go (x ∷ []) e = inr (x, rw (e, scalar_one_or_none), e)
    go (x ∷ y ∷ rows) e = inl (multiple_results_found, rw (e, scalar_one_or_none))

All-replace :
    (P : Project → Type 0) (new : Project) (ps : List Project)
    → P new
    → All P ps
    → All P (map (λ x. if x.id == new.id then new else x) ps)
All-replace P new [] n h = tt
All-replace P new (x ∷ ps) n h = elim (Bool-cases (x.id == new.id)) [
  | inl t ↦ rw t (n, All-replace P new ps n h.1)
  | inr t ↦ rw t (h.0, All-replace P new ps n h.1)
]

-- Editing a project's name and description changes neither its owner nor its members.
pub update_project-IsManaged :
    (p now : ℕ) (given : ProjectUpdate) (db : Database)
    → IsManaged db
    → IsManaged (update_project p now given db).1
unfolding update_project update_project_row
update_project-IsManaged p now given db v = elim (find_project_cases p db) [
  | inl (e, f) ↦ rw f v
  | inr (x, f, s) ↦ rw f (elim (Bool-cases (any (λ y. y.id == x.id) db.projects)) [
    | inr t ↦ rw t v
    | inl t ↦ rw t (record {
      ids = v.ids;
      pairs = v.pairs;
      admins =
          All-replace (HasAdmin db.members) (edited now given x) db.projects
            (select-head (HasAdmin db.members) _ db.projects v.admins s).1 v.admins;
      owners =
          All-replace (HasOwner db.members) (edited now given x) db.projects
            (select-head (HasOwner db.members) _ db.projects v.owners s).1 v.owners;
    })
  ])
]

-- Deleting a project and its members leaves every other project as it was.
delete_row-IsManaged : (k : ℕ) (db : Database) → IsManaged db → IsManaged (delete_project_row k db)
delete_row-IsManaged k db v = record {
  ids = Distinct-select same_id _ db.members v.ids;
  pairs = Distinct-select same_pair _ db.members v.pairs;
  admins =
      All-imp2 (λ x. not (x.id == k) ≡ true) (HasAdmin db.members) _
        (λ x n h. any-select_keep (is_admin_of x.id) _ (λ y t. ground arith) db.members h) _
        (select-passes _ db.projects) (All-select (HasAdmin db.members) _ db.projects v.admins);
  owners =
      All-imp2 (λ x. not (x.id == k) ≡ true) (HasOwner db.members) _
        (λ x n h.
          any-select_keep (is_membership x.id x.owner_id) _ (λ y t. ground arith) db.members h)
        _ (select-passes _ db.projects) (All-select (HasOwner db.members) _ db.projects v.owners);
}

pub delete_project-IsManaged :
    (p : ℕ) (db : Database) → IsManaged db → IsManaged (delete_project p db).1
unfolding delete_project
delete_project-IsManaged p db v = elim (find_project_cases p db) [
  | inl (e, f) ↦ rw f v
  | inr (x, f, s) ↦ rw f (delete_row-IsManaged x.id db v)
]
