-- ===== src/Projects/Handlers/Managed.antt =====
-- Histories of requests, and the invariant of projects.
use open_format_3d_viewer.Prelude.{String, sym, subst, some, ℕ, ◌≡◌, List, [], ◌∷◌, arith}
use open_format_3d_viewer.Core.Session.{after-keeps, pure-keeps, ◌>>=◌, pure, after, Action}
use open_format_3d_viewer.Core.Rows.{User, ProjectMember, Database}
use open_format_3d_viewer.Projects.Authorization.{get_project_member, require_role, check_role}
use open_format_3d_viewer.Projects.Invariant.{
  IsManaged, update_project_member_role-IsManaged, remove_project_member-IsManaged,
}
use open_format_3d_viewer.Projects.Creation.{
  create_project-IsManaged, invite_project_member-IsManaged, update_project-IsManaged,
  delete_project-IsManaged,
}
use open_format_3d_viewer.Projects.Service.{
  get_project, create_project, invite_project_member, update_project_member_role,
  remove_project_member, update_project, delete_project,
}
use open_format_3d_viewer.Projects.Handlers.{
  Call, create, get_one, list_members, invite_member, update_member_role, remove_member, edit,
  delete, handle, run, list_project_members, members, member, project, no_content,
}

module _ (p : ℕ) (caller : User) (db : Database) where
  get_project_member-state : (get_project_member p caller db).1 ≡ db
  unfolding get_project_member
  get_project_member-state = ground arith

  get_project-state : (get_project p caller db).1 ≡ db
  unfolding get_project
  get_project-state = ground arith

  require_role-state : (role : String) → (require_role role p caller db).1 ≡ db
  unfolding require_role check_role
  require_role-state role = ground (arith, get_project_member-state)

  -- A handler behind a role check keeps the invariant if its service does.
  guarded-IsManaged :
      {A B : Type 0} (role : String) (service : Action Database A) (reply : ProjectMember → A → B)
      → IsManaged db
      → IsManaged (service db).1
      → IsManaged (after (require_role role p caller db) (λ m. service >>= λ a. pure (reply m a))).1
  guarded-IsManaged role service reply v k =
      after-keeps IsManaged (require_role role p caller db) _ (require_role-state role) v
        (λ m. pure-keeps IsManaged (service db) (reply m) k)

-- Every request, accepted or refused, leaves every project with its owner and an admin.
pub handle-IsManaged :
    (c : Call) (caller : User) (now : ℕ) (db : Database)
    → IsManaged db
    → IsManaged (handle c caller now db).1
unfolding handle
handle-IsManaged (create p id given) caller now db v =
    pure-keeps IsManaged (create_project p id now given caller db) _
      (create_project-IsManaged p id now given caller db v)
handle-IsManaged (get_one p) caller now db v =
    pure-keeps IsManaged (get_project p caller db) _
      (subst IsManaged (sym (get_project-state p caller db)) v)
handle-IsManaged (list_members p) caller now db v =
    after-keeps IsManaged (get_project_member p caller db) _ (get_project_member-state p caller db)
      v
      (λ m.
        pure-keeps IsManaged (list_project_members p db) members (unfold list_project_members in v))
handle-IsManaged (invite_member id p given) caller now db v =
    guarded-IsManaged p caller db "admin" (invite_project_member id p given) (λ m a. member a) v
      (invite_project_member-IsManaged id p given db v)
handle-IsManaged (update_member_role p u role) caller now db v =
    guarded-IsManaged p caller db "admin" (update_project_member_role p u role) (λ m a. member a) v
      (update_project_member_role-IsManaged p u db v role)
handle-IsManaged (remove_member p u) caller now db v =
    guarded-IsManaged p caller db "admin" (remove_project_member p u) (λ m a. no_content) v
      (remove_project_member-IsManaged p u db v)
handle-IsManaged (edit p given) caller now db v =
    guarded-IsManaged p caller db "editor" (update_project p now given)
      (λ m a. project (record a { role = some m.role })) v
      (update_project-IsManaged p now given db v)
handle-IsManaged (delete p) caller now db v =
    guarded-IsManaged p caller db "admin" (delete_project p) (λ m a. no_content) v
      (delete_project-IsManaged p db v)

-- From a managed database, whatever the requests and whoever sends them, served one after the
-- other, every project keeps its owner as a member and at least one admin, and the keys of the
-- member table stay distinct.
pub run-IsManaged :
    (cs : List (Call × User × ℕ)) (db : Database) → IsManaged db → IsManaged (run cs db)
unfolding run
run-IsManaged [] db v = v
run-IsManaged ((c, caller, now) ∷ cs) db v =
    run-IsManaged cs (handle c caller now db).1 (handle-IsManaged c caller now db v)
