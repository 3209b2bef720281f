-- ===== src/Api/Projects.antt =====
-- `create_project` and `list_projects` of api/main.py. A project is put before those that are there,
-- which is the order of `created_at DESC`.
pub mod Created
pub mod Namespace
use deploy_hub.Prelude.{
  String, ◌==◌, if◌then◌else◌, Bool, true, false, ◌&&◌, Option, none, some, List, [], ◌∷◌, select,
}
use deploy_hub.Action.{
  Exn, http_exception, unique_violation, Outcome, Action, Result, ok, raised, pure, raise, ◌>>=◌,
  ◌>>◌, try_catch, call,
}
use deploy_hub.Schema.{provisioning, Project}
use deploy_hub.Api.World.{World, Member, owner, transaction, AuditEvent, log_audit_event}
use deploy_hub.Api.Access.{User, is_admin, is_live}
use deploy_hub.Api.Projects.Namespace.{is_namespace}

pub record CreateProjectRequest : Type 0 where
  pub name : String
  pub namespace : String

-- The new id and secret, and how the statements go.
pub record Answers : Type 0 where
  pub project_id : String  -- uuid4
  pub webhook_secret : String  -- token_hex
  pub connect : Outcome
  pub insert : Outcome
  pub member : Outcome
  pub commit : Outcome
  pub audit : Outcome

abbrev pub new_project : CreateProjectRequest → User → Answers → Project
new_project body u a = record {
  id = a.project_id;
  owner_id = u.user_id;
  name = body.name;
  namespace = body.namespace;
  status = provisioning;
  webhook_secret = some a.webhook_secret;
  deleted_at = none;
}

abbrev pub first_member : User → Answers → Member
first_member u a = record { project_id = a.project_id; user_id = u.user_id; role = owner }

abbrev pub insert_project : Project → Member → Answers → Action World Project
insert_project p m a =
    call a.insert (λ w. record w { projects = p ∷ w.projects })
    >> call a.member (λ w. record w { members = m ∷ w.members })
    >> call a.commit (λ w. w)
    >> pure p

-- The two `except` clauses.
create_refused : Exn → Exn
create_refused (unique_violation s) = http_exception 409 "A project with this ID already exists"
create_refused _ = http_exception 500 "Failed to create project"

create_event : Project → User → AuditEvent
create_event p u = record {
  project_id = some p.id;
  user_id = u.user_id;
  action = "CREATE";
  resource_type = "project";
  resource_id = p.id;
}

unfoldable store_project : CreateProjectRequest → User → Answers → Action World Project
unfolding create_refused create_event log_audit_event
store_project body u a = do
  p ←
      try_catch (transaction a.connect (insert_project (new_project body u a) (first_member u a) a))
        (λ e. raise (create_refused e))
  log_audit_event a.audit (create_event p u)
  pure p

unfoldable validate_namespace : String → Action World Unit
unfolding is_namespace
validate_namespace v =
    if is_namespace v
    then pure tt
    else raise (
        http_exception 422
          "namespace must be lowercase alphanumeric with hyphens, 3–63 chars, and cannot start or end with a hyphen")

-- The body is validated before the handler runs.
unfoldable pub create_project : CreateProjectRequest → User → Answers → Action World Project
unfolding store_project validate_namespace
create_project body u a = validate_namespace body.namespace >> store_project body u a

-- The rows of the SELECT for this caller.
abbrev pub is_listed : User → Project → Bool
is_listed u p =
    if is_admin u then is_live p.deleted_at else is_live p.deleted_at && p.owner_id == u.user_id

unfoldable pub list_projects : Outcome → User → World → Result (List Project)
list_projects none u w = ok (select (is_listed u) w.projects)
list_projects (some e) u w = raised (http_exception 500 "Failed to list projects")
