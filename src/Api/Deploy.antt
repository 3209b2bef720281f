-- ===== src/Api/Deploy.antt =====
-- `create_deployment` and `rollback_deployment` of api/main.py, behind `verify_project_access`. What
-- the database and Redis answer to one request is its `Answers`.
pub mod Latest
pub mod Laws
pub mod Rows
use Prim.Native.String.{◌++◌ as append}
use deploy_hub.Prelude.{
  ℕ, zero, suc, String, ◌==◌, ltb, if◌then◌else◌, Bool, true, false, ◌&&◌, Option, none, some, List,
  [], ◌∷◌,
}
use deploy_hub.Action.{
  Exn, http_exception, exception, Outcome, Action, Result, ok, raised, pure, raise, ◌>>=◌, ◌>>◌,
  try_catch, modify, call, attempt,
}
use deploy_hub.Text.{truthy, before_first}
use deploy_hub.Schema.{
  State, queued, running, failed, Deployment, update_deployment, ProjectStatus, ready, provisioning,
  terminating, Project,
}
use deploy_hub.Api.World.{World, StreamEntry, AuditEvent, transaction, log_audit_event}
use deploy_hub.Api.Access.{User}

pub record Answers : Type 0 where
  pub deployment_id : String  -- uuid4
  pub now : ℕ
  pub connect : Outcome  -- get_connection and the first statement of its block
  pub insert : Outcome
  pub commit : Outcome
  pub enqueue : Outcome  -- get_redis and XADD
  pub publish : Outcome
  pub mark : Outcome  -- of the block that sets the row to Failed
  pub audit : Outcome

-- `CreateDeploymentRequest`, once its validators have let it through.
pub record CreateDeploymentRequest : Type 0 where
  pub repo_url : String
  pub port : ℕ
  pub branch : Option String

-- The image's name; `ecr` is ECR_REPOSITORY_URL.
unfoldable pub image_uri_of : String → String → String → String
unfolding before_first
image_uri_of ecr project_id deployment_id =
    append (if truthy (some ecr) then before_first b'/' ecr else "local")
      (append "/shipzen-builds/" (append project_id (append ":" deployment_id)))

-- The row that an INSERT of a new deployment adds; health_check_path is the column's default.
abbrev pub new_row : String → String → String → ℕ → ℕ → Answers → Deployment
new_row project_id repo_url image_uri replicas port a = record {
  deployment_id = a.deployment_id;
  project_id = project_id;
  repo_url = repo_url;
  image_uri = image_uri;
  replicas = replicas;
  port = port;
  health_check_path = "/";
  state = queued;
  updated_at = a.now;
  last_error = none;
}

abbrev pub add_row : Deployment → World → World
add_row d w = record w { deployments = d ∷ w.deployments }

abbrev pub add_entry : StreamEntry → World → World
add_entry e w = record w { stream = e ∷ w.stream }

-- The message of the stream for a row.
abbrev pub entry_of : Option String → Bool → Deployment → StreamEntry
entry_of branch is_rollback d = record {
  deployment_id = d.deployment_id;
  project_id = d.project_id;
  repo_url = d.repo_url;
  branch = branch;
  image_name = d.image_uri;
  is_rollback = is_rollback;
}

abbrev pub accepts : ProjectStatus → Bool
accepts ready = true
accepts provisioning = true
accepts _ = false

-- The value of projects.status.
status_name : ProjectStatus → String
status_name ready = "Ready"
status_name provisioning = "Provisioning"
status_name terminating = "Terminating"
status_name ProjectStatus.failed = "Failed"

not_accepting : ProjectStatus → Exn
unfolding status_name
not_accepting s =
    http_exception 409
      (append "Project is in status '" (append (status_name s) "' and cannot accept deployments"))

-- Inserts and commits the row.
unfoldable pub insert_row : Deployment → Answers → Action World Deployment
insert_row d a = call a.insert (add_row d) >> call a.commit (λ w. w) >> pure d

abbrev pub set_failed : String → Deployment → Deployment
set_failed text d = record d { state = failed; last_error = some text }

-- `except Exception` of the XADD: the row is set to Failed, if the database lets it, and the request
-- fails.
unfoldable pub enqueue_failed : String → String → String → Outcome → Action World Unit
unfolding update_deployment
enqueue_failed k text detail mark =
    attempt (
      transaction mark (
        modify
          (λ w. record w { deployments = update_deployment k (set_failed text) w.deployments })))
    >> raise (http_exception 500 detail)

-- The XADD of a new row and its `except` clause.
unfoldable pub enqueue : Option String → String → String → Answers → Deployment → Action World Unit
unfolding enqueue_failed
enqueue branch text detail a d =
    try_catch (call a.enqueue (add_entry (entry_of branch false d)))
      (λ e. enqueue_failed d.deployment_id text detail a.mark)

audit : String → String → String → Answers → Action World Unit
unfolding log_audit_event
audit project_id user_id action a = log_audit_event a.audit (record {
  project_id = some project_id;
  user_id = user_id;
  action = action;
  resource_type = "deployment";
  resource_id = a.deployment_id;
})

insert_new : Deployment → Answers → Action World Deployment
unfolding insert_row
insert_new d a =
    try_catch (transaction a.connect (insert_row d a))
      (λ e. raise (http_exception 500 "Failed to create deployment"))

-- The rest of `create_deployment`, once the project accepts deployments.
submit : String → Project → User → CreateDeploymentRequest → Answers → Action World Deployment
unfolding insert_new enqueue audit image_uri_of
submit ecr p u body a = do
  d ←
      insert_new (new_row p.id body.repo_url (image_uri_of ecr p.id a.deployment_id) 1 body.port a)
        a
  enqueue body.branch "Failed to enqueue to Redis" "Failed to enqueue deployment" a d
  audit p.id u.user_id "DEPLOY" a
  pure d

unfoldable pub create_deployment :
    String → Project → User → CreateDeploymentRequest → Answers → Action World Deployment
unfolding submit not_accepting
create_deployment ecr p u body a =
    if accepts p.status then submit ecr p u body a else raise (not_accepting p.status)

abbrev pub is_good : String → Deployment → Bool
is_good project_id d = d.project_id == project_id && elim d.state [ running ↦ true | _ ↦ false ]

-- The later of a row and the latest of the rows behind it.
later : Deployment → Option Deployment → Option Deployment
later d none = some d
later d (some b) = if ltb d.updated_at b.updated_at then some b else some d

-- `SELECT * ... WHERE project_id = %s AND state = 'Running' ORDER BY updated_at DESC LIMIT 1`.
unfoldable pub last_good : String → List Deployment → Option Deployment
unfolding later
last_good k [] = none
last_good k (d ∷ ds) = let rest = last_good k ds in if is_good k d then later d rest else rest

copy_good : String → Option Deployment → Answers → Action World Deployment
unfolding insert_row
copy_good k none a =
    raise (http_exception 409 "No previous successful deployment found to rollback to.")
copy_good k (some g) a = insert_row (new_row k g.repo_url g.image_uri g.replicas g.port a) a

-- The block of the connection.
insert_copy : String → Answers → Action World Deployment
unfolding copy_good last_good
insert_copy k a = transaction a.connect (λ w. copy_good k (last_good k w.deployments) a w)

-- XADD and PUBLISH, whose failures are only logged.
unfoldable pub announce : Answers → Deployment → Action World Unit
announce a d = attempt (
    call a.enqueue (add_entry (entry_of (some "main") true d))
    >> call a.publish (λ w. record w { published = (d.deployment_id, queued) ∷ w.published }))

unfoldable pub rollback_deployment : Project → User → Answers → Action World String
unfolding insert_copy announce audit
rollback_deployment p u a = do
  d ← insert_copy p.id a
  announce a d
  audit p.id u.user_id "ROLLBACK" a
  pure d.deployment_id
