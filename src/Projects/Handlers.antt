-- ===== src/Projects/Handlers.antt =====
-- apps/api/app/routers/projects.py: the routes that name one project or create one, each with the
-- role that its dependency requires. The caller is the user of `get_current_user`.
pub mod Managed
pub mod Denied
use open_format_3d_viewer.Prelude.{
  ℕ, String, Option, none, some, List, [], ◌∷◌, ◌++◌, ◌==◌, nat_eq, select,
}
use open_format_3d_viewer.Core.Session.{Action, Result, ok, raised, pure, query, ◌>>=◌, ◌>>◌}
use open_format_3d_viewer.Core.Rows.{User, ProjectMember, Database}
use open_format_3d_viewer.Projects.Authorization.{get_project_member, require_role}
use open_format_3d_viewer.Projects.Service.{
  ProjectCreate, ProjectUpdate, ProjectMemberInvite, ProjectResponse, ProjectMemberResponse,
  member_response, create_project, get_project, invite_project_member, update_project_member_role,
  remove_project_member, update_project, delete_project,
}

-- The rows of the inner join of a project's members with the users.
abbrev joined : ProjectMember → List User → List ProjectMemberResponse
joined m [] = []
joined m (u ∷ us) = member_response m u ∷ joined m us

abbrev join_users : List User → List ProjectMember → List ProjectMemberResponse
join_users us [] = []
join_users us (m ∷ ms) = joined m (select (λ u. u.id == m.user_id) us) ++ join_users us ms

unfoldable pub list_project_members : ℕ → Action Database (List ProjectMemberResponse)
list_project_members project_id =
    query (λ db. ok (join_users db.users (select (λ m. m.project_id == project_id) db.members)))

-- A request with the fresh identifiers that its handler draws.
pub data Call : Type 0 where
  create : (project_id member_id : ℕ) → ProjectCreate → Call
  get_one : (project_id : ℕ) → Call
  list_members : (project_id : ℕ) → Call
  invite_member : (member_id project_id : ℕ) → ProjectMemberInvite → Call
  update_member_role : (project_id user_id : ℕ) → String → Call
  remove_member : (project_id user_id : ℕ) → Call
  edit : (project_id : ℕ) → ProjectUpdate → Call
  delete : (project_id : ℕ) → Call

pub data Reply : Type 0 where
  project : ProjectResponse → Reply
  member : ProjectMemberResponse → Reply
  members : List ProjectMemberResponse → Reply
  no_content : Reply

unfoldable pub handle : Call → User → ℕ → Action Database Reply
handle (create p id given) caller now = do
  created ← create_project p id now given caller
  pure (project created)
handle (get_one p) caller now = do found ← get_project p caller; pure (project found)
handle (list_members p) caller now = do
  m ← get_project_member p caller
  found ← list_project_members p
  pure (members found)
handle (invite_member id p given) caller now = do
  m ← require_role "admin" p caller
  added ← invite_project_member id p given
  pure (member added)
handle (update_member_role p u role) caller now = do
  m ← require_role "admin" p caller
  updated ← update_project_member_role p u role
  pure (member updated)
handle (remove_member p u) caller now = do
  m ← require_role "admin" p caller
  removed ← remove_project_member p u
  pure no_content
handle (edit p given) caller now = do
  m ← require_role "editor" p caller
  updated ← update_project p now given
  pure (project (record updated { role = some m.role }))
handle (delete p) caller now = do
  m ← require_role "admin" p caller
  deleted ← delete_project p
  pure no_content

-- Requests one after the other; an error ends only its own request.
unfoldable pub run : List (Call × User × ℕ) → Database → Database
run [] db = db
run ((c, caller, now) ∷ rest) db = run rest (handle c caller now db).1
