-- ===== src/Api/Admin.antt =====
-- `update_user_role` and `list_users` of api/main.py.
pub mod Roles
mod Tests
use deploy_hub.Prelude.{
  String, ◌==◌, if◌then◌else◌, Bool, true, false, Option, none, some, List, [], ◌∷◌, map, contains,
}
use deploy_hub.Action.{
  Exn, http_exception, Outcome, Action, Result, ok, raised, pure, raise, ◌>>◌, call, try_catch,
}
use deploy_hub.Api.World.{
  World, Role, admin, user, Account, transaction, AuditEvent, log_audit_event,
}
use deploy_hub.Api.Access.{User, is_admin, find_user}

forbidden : Exn
forbidden = http_exception 403 "Forbidden"

-- `body.role not in ["admin", "user"]`.
unfoldable pub role_named : String → Option Role
role_named s = if s == "admin" then some admin else if s == "user" then some user else none

-- `UPDATE users SET role = %s WHERE id = %s`.
abbrev pub set_role : String → Role → Account → Account
set_role k r a = if a.id == k then record a { role = r } else a

unfoldable pub update_users : String → Role → List Account → List Account
update_users k r = map (set_role k r)

-- `RETURNING id` and its first row.
unfoldable pub return_id : Option Account → Outcome → Action World Unit
return_id none commit = raise (http_exception 404 "User not found")
return_id (some a) commit = call commit (λ w. w)

-- `except HTTPException: raise`.
unfoldable pub role_failed : Exn → Action World Unit
role_failed (http_exception n s) = raise (http_exception n s)
role_failed e = raise (http_exception 500 "Database error")

unfoldable pub role_event : String → User → AuditEvent
role_event k u = record {
  project_id = none;
  user_id = u.user_id;
  action = "UPDATE_ROLE";
  resource_type = "user";
  resource_id = k;
}

-- `connect` is of get_connection and the UPDATE.
change_role : String → Role → User → Outcome → Outcome → Outcome → Action World Unit
unfolding update_users return_id role_failed role_event log_audit_event find_user
change_role k r u connect commit audit =
    try_catch
      (transaction connect
        λ w. return_id (find_user k w.users) commit (record w { users = update_users k r w.users }))
      role_failed
    >> log_audit_event audit (role_event k u)

-- A role that is no role is refused after the caller is found to be an administrator.
with_role : Option Role → String → User → Outcome → Outcome → Outcome → Action World Unit
unfolding change_role
with_role none k u connect commit audit =
    raise (http_exception 400 "Invalid role. Must be 'admin' or 'user'.")
with_role (some r) k u connect commit audit = change_role k r u connect commit audit

unfoldable pub update_user_role :
    String → String → User → Outcome → Outcome → Outcome → Action World Unit
unfolding with_role forbidden
update_user_role k role u connect commit audit =
    if is_admin u then with_role (role_named role) k u connect commit audit else raise forbidden

-- The accounts, newest first, for an administrator.
unfoldable pub list_users : Outcome → User → World → Result (List Account)
unfolding forbidden
list_users o u w =
    if is_admin u
    then elim o [ none ↦ ok w.users | some e ↦ raised (http_exception 500 "Database error") ]
    else raised forbidden
