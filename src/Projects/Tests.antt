-- ===== src/Projects/Tests.antt =====
-- The theorems on projects at concrete databases, and runs of the handlers.
use open_format_3d_viewer.Prelude.{ℕ, ◌≡◌, refl, false, none, List, [], ◌∷◌, any}
use open_format_3d_viewer.Core.Exceptions.{Exception}
use open_format_3d_viewer.Core.Session.{ok, raised, scalar_one, scalar_one_or_none, or_raise, first}
use open_format_3d_viewer.Core.Rows.{User, Project, ProjectMember, Database}
use open_format_3d_viewer.Projects.Authorization.{require_role, role_hierarchy, level_lt}
use open_format_3d_viewer.Projects.Service.{
  check_role_update, commit_role_update, last_admin, update_project_member_role,
}
use open_format_3d_viewer.Projects.Invariant.{IsManaged, is_admin_of}
use open_format_3d_viewer.Projects.Handlers.{
  Call, create, update_member_role, remove_member, delete, handle, run,
}
use open_format_3d_viewer.Projects.Handlers.Managed.{run-IsManaged}
use open_format_3d_viewer.Projects.Handlers.Denied.{may, handle-denied}
use open_format_3d_viewer.Projects.Race.{concurrent_demotions}

abbrev pub account : ℕ → User
account n = record {
  id = n;
  email = "u@example.com";
  password_hash = none;
  name = none;
  plan = "free";
  provider = none;
  provider_user_id = none;
}

abbrev pub tower : Project
tower = record {
  id = 10;
  owner_id = 1;
  name = "Tower";
  description = none;
  created_at = 0;
  updated_at = 0;
}

abbrev pub admin_row : ℕ → ℕ → ProjectMember
admin_row k u = record { id = k; project_id = 10; user_id = u; role = "admin" }

abbrev pub two_admins : Database
two_admins = record {
  users = account 1 ∷ account 2 ∷ account 3 ∷ [];
  projects = tower ∷ [];
  members = admin_row 100 1 ∷ admin_row 101 2 ∷ [];
}

two_admins-IsManaged : IsManaged two_admins
two_admins-IsManaged = record {
  ids = (refl, (refl, tt));
  pairs = (refl, (refl, tt));
  admins = (refl, tt);
  owners = (refl, tt);
}

-- The second request would demote the last admin, the third would remove the owner.
abbrev history : List (Call × User × ℕ)
history =
    (update_member_role 10 2 "viewer", account 1, 5)
    ∷ (update_member_role 10 1 "viewer", account 1, 6)
    ∷ (remove_member 10 1, account 1, 7)
    ∷ (create 11 102 (record { name = "Bridge"; description = none }), account 3, 8)
    ∷ []

run-IsManaged_example : IsManaged (run history two_admins)
run-IsManaged_example = run-IsManaged history two_admins two_admins-IsManaged

last_admin_stays :
    (handle
      (update_member_role 10 1 "viewer")
      (account 1)
      6
      (run ((update_member_role 10 2 "viewer", account 1, 5) ∷ []) two_admins)).0
    ≡ raised last_admin
unfolding handle run require_role role_hierarchy level_lt scalar_one_or_none or_raise first
    update_project_member_role scalar_one
last_admin_stays = refl

handle-denied_example :
    (e : Exception) × (handle (delete 10) (account 3) 9 two_admins ≡ (raised e, two_admins))
unfolding may
handle-denied_example = handle-denied (delete 10) (account 3) 9 two_admins refl

concurrent_demotions_example :
    (check_role_update 10 1 "viewer" two_admins ≡ (ok (admin_row 100 1), two_admins))
    × (check_role_update 10 2 "viewer" two_admins ≡ (ok (admin_row 101 2), two_admins))
    × (any
          (is_admin_of 10)
          (commit_role_update "viewer"
            (admin_row 101 2)
            (commit_role_update "viewer" (admin_row 100 1) two_admins).1).1.members
        ≡ false)
concurrent_demotions_example =
    concurrent_demotions 10 1 2 "viewer" two_admins (admin_row 100 1) (admin_row 101 2) refl refl
      refl refl refl refl refl
