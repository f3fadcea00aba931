-- ===== src/Projects/Service.antt =====
-- apps/api/app/services/projects.py, but for the cursor helpers and `list_projects` (Paging).
-- A fresh UUID and the time of the call are arguments.
use Prim.Native.String.{◌++◌}
use open_format_3d_viewer.Prelude.{
  ℕ, String, Bool, ◌&&◌, not, Option, none, some, ◌==◌, nat_eq, string_eq, select, if◌then◌else◌,
}
use open_format_3d_viewer.Core.Exceptions.{Exception, not_found, conflict, integrity_error}
use open_format_3d_viewer.Core.Session.{
  Result, ok, raised, Action, pure, raise, query, update, transaction, ◌>>=◌, ◌>>◌,
  scalar_one_or_none, scalar_one, first, or_raise,
}
use open_format_3d_viewer.Core.Rows.{
  User, Project, ProjectMember, Database, insert_member, insert_project, update_member_row,
  delete_member_row, update_project_row, delete_project_row,
}
use open_format_3d_viewer.Projects.Authorization.{is_membership}

-- schemas/projects.py, after validation
pub record ProjectCreate : Type 0 where
  pub name : String
  pub description : Option String

pub record ProjectUpdate : Type 0 where
  pub name : Option String
  pub description : Option String

pub record ProjectMemberInvite : Type 0 where
  pub email : String
  pub role : String

pub record ProjectResponse : Type 0 where
  pub id : ℕ
  pub owner_id : ℕ
  pub name : String
  pub description : Option String
  pub created_at : ℕ
  pub updated_at : ℕ
  pub role : Option String

pub record ProjectMemberResponse : Type 0 where
  pub user_id : ℕ
  pub role : String
  pub email : String
  pub name : Option String

abbrev pub to_response : Project → Option String → ProjectResponse
to_response project role = record {
  id = project.id;
  owner_id = project.owner_id;
  name = project.name;
  description = project.description;
  created_at = project.created_at;
  updated_at = project.updated_at;
  role = role;
}

abbrev pub member_response : ProjectMember → User → ProjectMemberResponse
member_response member user = record {
  user_id = member.user_id;
  role = member.role;
  email = user.email;
  name = user.name;
}

unfoldable pub create_project :
    (project_id member_id now : ℕ) → ProjectCreate → User → Action Database ProjectResponse
create_project project_id member_id now given owner = transaction (do
  let project : Project = record {
    id = project_id;
    owner_id = owner.id;
    name = given.name;
    description = given.description;
    created_at = now;
    updated_at = now;
  }
  insert_project project
  insert_member
      (record { id = member_id; project_id = project_id; user_id = owner.id; role = "admin" })
  pure (to_response project (some "admin")))

abbrev already_member : Exception
already_member = conflict "This user is already a member of the project"

-- `if result.scalar_one_or_none(): raise ConflictException(…)`
abbrev refuse_member : Option ProjectMember → Action Database Unit
refuse_member none = pure tt
refuse_member (some m) = raise already_member

-- The part of `invite_project_member` that reads.
unfoldable pub check_invite : ℕ → ProjectMemberInvite → Action Database User
check_invite project_id given = do
  found ← query (λ db. scalar_one_or_none (select (λ u. u.email == given.email) db.users))
  user ←
      query (λ db. or_raise (not_found ("No user found with email '" ++ given.email ++ "'")) found)
  old ← query (λ db. scalar_one_or_none (select (is_membership project_id user.id) db.members))
  refuse_member old
  pure user

-- `except IntegrityError: … raise ConflictException(…)`; other errors pass.
abbrev conflict_on_integrity : {A : Type 0} → Result A × Database → Result A × Database
conflict_on_integrity (raised integrity_error, db) = (raised already_member, db)
conflict_on_integrity (r, db) = (r, db)

-- The part that writes.
unfoldable pub commit_invite :
    (member_id project_id : ℕ) → ProjectMemberInvite → User → Action Database ProjectMemberResponse
commit_invite member_id project_id given user db =
    let member : ProjectMember = record {
      id = member_id;
      project_id = project_id;
      user_id = user.id;
      role = given.role;
    } in
    conflict_on_integrity ((do insert_member member; pure (member_response member user)) db)

unfoldable pub invite_project_member :
    (member_id project_id : ℕ) → ProjectMemberInvite → Action Database ProjectMemberResponse
unfolding check_invite commit_invite
invite_project_member member_id project_id given = do
  user ← check_invite project_id given
  commit_invite member_id project_id given user

-- Another admin of the project than the excluded user.
abbrev pub is_other_admin : ℕ → ℕ → ProjectMember → Bool
is_other_admin project_id excluding_user_id m =
    m.project_id == project_id && m.role == "admin" && not (m.user_id == excluding_user_id)

abbrev pub last_admin : Exception
last_admin =
    conflict
      ("Cannot remove the project's last admin — " ++ "promote another member to admin first")

abbrev some_admin : Option ProjectMember → Action Database Unit
some_admin none = raise last_admin
some_admin (some m) = pure tt

unfoldable pub ensure_not_last_admin : (project_id excluding_user_id : ℕ) → Action Database Unit
unfolding first
ensure_not_last_admin project_id excluding_user_id db =
    some_admin (first (select (is_other_admin project_id excluding_user_id) db.members)) db

unfoldable pub find_member : (project_id user_id : ℕ) → Action Database ProjectMember
find_member project_id user_id = do
  found ← query (λ db. scalar_one_or_none (select (is_membership project_id user_id) db.members))
  query (λ db. or_raise (not_found "This user is not a member of the project") found)

-- The part of `update_project_member_role` that reads.
unfoldable pub check_role_update : (project_id user_id : ℕ) → String → Action Database ProjectMember
unfolding find_member ensure_not_last_admin
check_role_update project_id user_id role = do
  member ← find_member project_id user_id
  if member.role == "admin" && not (role == "admin")
      then ensure_not_last_admin project_id user_id
      else pure tt
  pure member

-- The part that writes, and the row of the user for the response.
unfoldable pub commit_role_update : String → ProjectMember → Action Database ProjectMemberResponse
unfolding update_member_row
commit_role_update role member = do
  update_member_row member.id role
  user ← query (λ db. scalar_one (select (λ u. u.id == member.user_id) db.users))
  pure (member_response (record member { role = role }) user)

unfoldable pub update_project_member_role :
    (project_id user_id : ℕ) → String → Action Database ProjectMemberResponse
unfolding check_role_update commit_role_update
update_project_member_role project_id user_id role = do
  member ← check_role_update project_id user_id role
  commit_role_update role member

-- `owner_id == user_id`, where the project's row may be gone
abbrev pub is_owner : Option Project → ℕ → Bool
is_owner none user_id = Bool.false
is_owner (some p) user_id = p.owner_id == user_id

-- The part of `remove_project_member` that reads.
unfoldable pub check_remove : (project_id user_id : ℕ) → Action Database ProjectMember
unfolding find_member ensure_not_last_admin
check_remove project_id user_id = do
  member ← find_member project_id user_id
  project ← query (λ db. scalar_one_or_none (select (λ p. p.id == project_id) db.projects))
  if is_owner project user_id
      then raise (conflict "The project owner cannot be removed as a member")
      else pure tt
  if member.role == "admin" then ensure_not_last_admin project_id user_id else pure tt
  pure member

unfoldable pub remove_project_member : (project_id user_id : ℕ) → Action Database Unit
unfolding check_remove
remove_project_member project_id user_id = do
  member ← check_remove project_id user_id
  update (delete_member_row member.id)

-- The first row of the join of the project with the user's membership.
unfoldable pub get_project : ℕ → User → Action Database ProjectResponse
unfolding first
get_project project_id user db = elim (first (select (λ p. p.id == project_id) db.projects)) [
  | none ↦ (raised (not_found "Project not found"), db)
  | some project ↦ elim (first (select (is_membership project_id user.id) db.members)) [
    | none ↦ (raised (not_found "Project not found"), db)
    | some member ↦ (ok (to_response project (some member.role)), db)
  ]
]

abbrev pub given_or : {A : Type 0} → Option A → A → A
given_or none a = a
given_or (some b) a = b

abbrev pub edited : ℕ → ProjectUpdate → Project → Project
edited now given project = record project {
  name = given_or given.name project.name;
  description = elim given.description [ none ↦ project.description | some d ↦ some d ];
  updated_at = now;
}

unfoldable pub find_project : ℕ → Action Database Project
find_project project_id = do
  found ← query (λ db. scalar_one_or_none (select (λ p. p.id == project_id) db.projects))
  query (λ db. or_raise (not_found "Project not found") found)

unfoldable pub update_project :
    (project_id now : ℕ) → ProjectUpdate → Action Database ProjectResponse
unfolding find_project update_project_row
update_project project_id now given = do
  project ← find_project project_id
  update_project_row (edited now given project)
  pure (to_response (edited now given project) none)

unfoldable pub delete_project : ℕ → Action Database Unit
unfolding find_project
delete_project project_id = do
  project ← find_project project_id
  update (delete_project_row project.id)
