-- ===== src/Api/Members.antt =====
-- `add_project_member`, `remove_project_member` and `delete_project` of api/main.py, behind
-- `verify_project_access`: who may change the members of a project, and delete it.
pub mod Owners
pub mod Invited
pub mod Listed
use deploy_hub.Prelude.{
  ℕ, String, ◌==◌, if◌then◌else◌, Bool, true, false, ◌&&◌, ◌||◌, Option, none, some, List, [], ◌∷◌,
}
use deploy_hub.Action.{
  Exn, http_exception, Outcome, Action, Result, ok, raised, pure, raise, ◌>>=◌, ◌>>◌, try_catch,
  modify, call,
}
use deploy_hub.Schema.{ProjectStatus, terminating, Project, update_project}
use deploy_hub.Api.World.{
  World, Account, Member, MemberRole, owner, editor, viewer, role_in, transaction, AuditEvent,
  log_audit_event,
}
use deploy_hub.Api.Access.{User, is_admin}

abbrev pub is_owner : Option MemberRole → Bool
is_owner none = false
is_owner (some owner) = true
is_owner (some editor) = false
is_owner (some viewer) = false

-- An administrator, or an owner among the project's members.
abbrev pub may_manage : String → User → List Member → Bool
may_manage k u ms = is_admin u || is_owner (role_in k u.user_id ms)

-- "Enforce owner/admin requirement".
require_owner : String → User → String → Action World Unit
unfolding role_in
require_owner k u detail w =
    if may_manage k u w.members then pure tt w else raise (http_exception 403 detail) w

-- `DELETE FROM project_members WHERE project_id = %s AND user_id = %s`.
unfoldable pub delete_member : String → String → List Member → List Member
delete_member k t [] = []
delete_member k t (m ∷ ms) =
    let rest = delete_member k t ms in
    if m.project_id == k && m.user_id == t then rest else m ∷ rest

remove_role : String → String → Outcome → Option MemberRole → Action World Unit
unfolding delete_member
remove_role k t o none = raise (http_exception 404 "Member not found")
remove_role k t o (some owner) = raise (http_exception 403 "Cannot remove the project owner")
remove_role k t o (some r) = call o (λ w. record w { members = delete_member k t w.members })

-- `connect` is of get_connection and the first statement, `delete` of the DELETE and the commit.
unfoldable pub remove_project_member :
    String → String → User → Outcome → Outcome → Action World Unit
unfolding require_owner remove_role
remove_project_member k target u connect delete =
    if target == u.user_id
    then raise (http_exception 403 "Cannot remove yourself from a project")
    else transaction connect (
        require_owner k u "Only project owners can manage members" >> λ w.
        remove_role k target delete (role_in k target w.members) w)

-- The row of a project that is marked for termination.
abbrev pub mark_deleted : ℕ → Project → Project
mark_deleted now p = record p { status = terminating; deleted_at = some now }

require_owner_of : String → User → Outcome → Action World Unit
unfolding require_owner
require_owner_of k u check =
    if is_admin u
    then pure tt
    else transaction check (require_owner k u "Only project owners can delete projects")

-- `check` and `update` are of the two blocks, `now` is NOW().
unfoldable pub delete_project : String → User → Outcome → Outcome → Outcome → ℕ → Action World Unit
unfolding require_owner_of update_project log_audit_event
delete_project k u check update audit now = do
  require_owner_of k u check
  try_catch
      (transaction update
        (modify (λ w. record w { projects = update_project k (mark_deleted now) w.projects })))
      (λ e. raise (http_exception 500 "Failed to delete project"))
  log_audit_event audit (record {
    project_id = some k;
    user_id = u.user_id;
    action = "DELETE";
    resource_type = "project";
    resource_id = k;
  })

-- `SELECT id, email FROM users WHERE email = %s` and its first row.
unfoldable pub find_email : String → List Account → Option Account
find_email e [] = none
find_email e (a ∷ as') =
    if elim a.email [ none ↦ false | some f ↦ f == e ] then some a else find_email e as'

abbrev pub add_member : String → String → MemberRole → World → World
add_member k t r w = record w {
  members = record { project_id = k; user_id = t; role = r } ∷ w.members;
}

-- The INSERT; a second row with the key of another is a UniqueViolation.
insert_member : String → String → MemberRole → Outcome → Option MemberRole → Action World Unit
insert_member k t r o none = call o (add_member k t r)
insert_member k t r o (some s) =
    raise (http_exception 409 "User is already a member of this project")

invite : String → MemberRole → Outcome → Option Account → Action World Account
unfolding insert_member role_in
invite k r o none = raise (http_exception 404 "User not found")
invite k r o (some a) = (λ w. insert_member k a.id r o (role_in k a.id w.members) w) >> pure a

-- `connect` is of get_connection and the SELECTs, `insert` of the INSERT and the commit.
unfoldable pub add_project_member :
    String → String → MemberRole → User → Outcome → Outcome → Action World Account
unfolding require_owner invite find_email
add_project_member k email r u connect insert = transaction connect (
    require_owner k u "Only project owners can manage members" >> λ w.
    invite k r insert (find_email email w.users) w)
