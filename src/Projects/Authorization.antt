-- ===== src/Projects/Authorization.antt =====
-- apps/api/app/core/authorization.py: membership and the role hierarchy.
use Prim.Native.String.{◌++◌}
use open_format_3d_viewer.Prelude.{
  ℕ, String, Bool, ◌&&◌, Option, none, some, ◌==◌, nat_eq, string_eq, select, ltb, if◌then◌else◌,
}
use open_format_3d_viewer.Core.Exceptions.{Exception, not_found, authorization}
use open_format_3d_viewer.Core.Session.{
  Action, pure, raise, query, ◌>>=◌, scalar_one_or_none, or_raise,
}
use open_format_3d_viewer.Core.Rows.{User, ProjectMember, Database}

-- `ROLE_HIERARCHY.get(role)`
unfoldable pub role_hierarchy : String → Option ℕ
role_hierarchy role =
    if role == "viewer"
    then some 0
    else if role == "editor"
    then some 1
    else if role == "admin"
    then some 2
    else none

-- `user_level < required_level`: the default of a user's level is -1, below every level, and that
-- of a required level is 0.
unfoldable pub level_lt : Option ℕ → Option ℕ → Bool
level_lt none required = Bool.true
level_lt (some user) none = ltb user 0
level_lt (some user) (some required) = ltb user required

-- The rows of `select(ProjectMember).where(project_id == …, user_id == …)`.
abbrev pub is_membership : ℕ → ℕ → ProjectMember → Bool
is_membership project_id user_id m = m.project_id == project_id && m.user_id == user_id

unfoldable pub get_project_member : ℕ → User → Action Database ProjectMember
get_project_member project_id user = do
  found ← query (λ db. scalar_one_or_none (select (λ p. p.id == project_id) db.projects))
  project ← query (λ db. or_raise (not_found "Project not found") found)
  member ← query (λ db. scalar_one_or_none (select (is_membership project_id user.id) db.members))
  query (λ db. or_raise (authorization "You are not a member of this project") member)

abbrev pub low_role : (required_role role : String) → Exception
low_role required_role role =
    authorization
      ("This action requires '" ++ required_role ++ "' role. " ++ "Your role is '" ++ role ++ "'.")

unfoldable pub check_role : String → ProjectMember → Action Database ProjectMember
check_role required_role member =
    if level_lt (role_hierarchy member.role) (role_hierarchy required_role)
    then raise (low_role required_role member.role)
    else pure member

-- The dependency that `require_role(required_role)` returns.
unfoldable pub require_role : String → ℕ → User → Action Database ProjectMember
unfolding check_role get_project_member
require_role required_role project_id current_user = do
  member ← get_project_member project_id current_user
  check_role required_role member

unfoldable pub require_role_for_project : ℕ → String → User → Action Database ProjectMember
unfolding check_role get_project_member
require_role_for_project project_id min_role user = do
  member ← get_project_member project_id user
  check_role min_role member
