-- ===== src/Core/Rows.antt =====
-- apps/api/app/models: a record for each table that the services read, and the tables that
-- services/projects.py works on with their constraints. Identifiers (UUIDs) and timestamps are
-- numbers in the order in which PostgreSQL compares them.
use open_format_3d_viewer.Prelude.{
  ℕ, String, Bool, ◌&&◌, ◌||◌, not, Option, List, ◌∷◌, map, any, select, ◌==◌, nat_eq, string_eq,
  if◌then◌else◌,
}
use open_format_3d_viewer.Core.Exceptions.{integrity_error, stale_data}
use open_format_3d_viewer.Core.Session.{Action, ok, raised}

-- models/user.py
pub record User : Type 0 where
  pub id : ℕ
  pub email : String
  pub password_hash : Option String
  pub name : Option String
  pub plan : String
  pub provider : Option String
  pub provider_user_id : Option String

-- models/project.py
pub record Project : Type 0 where
  pub id : ℕ
  pub owner_id : ℕ
  pub name : String
  pub description : Option String
  pub created_at : ℕ
  pub updated_at : ℕ

-- models/project_member.py; `joined_at` is set by the database and never read
pub record ProjectMember : Type 0 where
  pub id : ℕ
  pub project_id : ℕ
  pub user_id : ℕ
  pub role : String

pub record Database : Type 0 where
  pub users : List User
  pub projects : List Project
  pub members : List ProjectMember

-- The primary key, `uq_project_members_project_user` and the two foreign keys.
unfoldable pub member_conflicts : ProjectMember → Database → Bool
member_conflicts m db =
    any (λ x. x.id == m.id) db.members
    || any (λ x. x.project_id == m.project_id && x.user_id == m.user_id) db.members
    || not (any (λ p. p.id == m.project_id) db.projects)
    || not (any (λ u. u.id == m.user_id) db.users)

unfoldable pub insert_member : ProjectMember → Action Database Unit
unfolding member_conflicts
insert_member m db =
    if member_conflicts m db
    then (raised integrity_error, db)
    else (ok tt, record db { members = m ∷ db.members })

-- The primary key and the foreign key to the owner.
unfoldable pub project_conflicts : Project → Database → Bool
project_conflicts p db =
    any (λ x. x.id == p.id) db.projects || not (any (λ u. u.id == p.owner_id) db.users)

unfoldable pub insert_project : Project → Action Database Unit
unfolding project_conflicts
insert_project p db =
    if project_conflicts p db
    then (raised integrity_error, db)
    else (ok tt, record db { projects = p ∷ db.projects })

-- `UPDATE … WHERE id = …` and `DELETE … WHERE id = …` as the session flushes them: an update that
-- matches no row is an error, a delete that matches none is not.
abbrev pub set_role : ℕ → String → ProjectMember → ProjectMember
set_role k r m = if m.id == k then record m { role = r } else m

unfoldable pub update_member_row : ℕ → String → Action Database Unit
update_member_row k r db =
    if any (λ m. m.id == k) db.members
    then (ok tt, record db { members = map (set_role k r) db.members })
    else (raised stale_data, db)

abbrev pub delete_member_row : ℕ → Database → Database
delete_member_row k db = record db { members = select (λ m. not (m.id == k)) db.members }

unfoldable pub update_project_row : Project → Action Database Unit
update_project_row p db =
    if any (λ x. x.id == p.id) db.projects
    then (ok tt, record db { projects = map (λ x. if x.id == p.id then p else x) db.projects })
    else (raised stale_data, db)

-- `ondelete="CASCADE"` takes the project's members with it.
abbrev pub delete_project_row : ℕ → Database → Database
delete_project_row k db = record db {
  projects = select (λ x. not (x.id == k)) db.projects;
  members = select (λ m. not (m.project_id == k)) db.members;
}
