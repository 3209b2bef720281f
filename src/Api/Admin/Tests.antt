-- ===== src/Api/Admin/Tests.antt =====
-- An administrator promotes a user.
use deploy_hub.Prelude.{none, [], ◌∷◌}
use deploy_hub.Api.World.{World, admin, user}
use deploy_hub.Api.Access.{User}
use deploy_hub.Api.Admin.{update_user_role}
use deploy_hub.Api.Admin.Roles.{ChangedOrUndone, update_user_role-Changed}

abbrev root : User
root = record { user_id = "root"; role = admin }

abbrev start : World
start = record {
  users =
      record { id = "bob"; email = none; role = user }
      ∷ record { id = "root"; email = none; role = admin }
      ∷ [];
  projects = [];
  members = [];
  deployments = [];
  audit_logs = [];
  stream = [];
  published = [];
}

update_user_role-Changed_example :
    ChangedOrUndone "bob" "admin" root start
      (update_user_role "bob" "admin" root none none none start)
update_user_role-Changed_example = update_user_role-Changed "bob" "admin" root none none none start
