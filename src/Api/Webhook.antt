-- ===== src/Api/Webhook.antt =====
-- `github_webhook` of api/main.py. HMAC-SHA256, in hexadecimal, is an argument, and so is what
-- `json.loads` makes of the body.
pub mod Authentic
pub mod App
pub mod Rows
mod Tests
use Prim.Native.String.{◌++◌ as append}
use deploy_hub.Prelude.{
  ℕ, String, ◌==◌, ltb, if◌then◌else◌, Bool, true, false, ◌&&◌, Option, none, some, List, [], ◌∷◌,
}
use deploy_hub.Action.{
  Exn, http_exception, exception, Outcome, Action, Result, ok, raised, pure, raise, ◌>>=◌, ◌>>◌,
  try_catch, call,
}
use deploy_hub.Text.{truthy, after_last}
use deploy_hub.Schema.{Deployment, Project, select_project}
use deploy_hub.Api.World.{World, AuditEvent, transaction, log_audit_event}
use deploy_hub.Api.Deploy.{Answers, new_row, image_uri_of, insert_row, enqueue}

-- What the code reads of the JSON body.
pub record Payload : Type 0 where
  pub ref : Option String
  pub clone_url : Option String
  pub html_url : Option String  -- read by the GitHub App alone

pub record Push : Type 0 where
  pub signature : Option String  -- x-hub-signature-256
  pub event : Option String  -- X-GitHub-Event
  pub body : String
  pub payload : Option Payload  -- of the body; none where it is not JSON

abbrev pub Mac : Type 0
Mac = String → String → String

-- The answers to the request; `secret` is of the block that reads the secret.
pub record Replies : Type 0 where
  pub secret : Outcome
  pub deploy : Answers

is_push : Option String → Bool
is_push none = false
is_push (some e) = e == "push"

require_secret : Option Project → Action World String
require_secret none = raise (http_exception 404 "Webhook secret not found")
require_secret (some p) = elim p.webhook_secret [
  | none ↦ raise (http_exception 404 "Webhook secret not found")
  | some s ↦
      if truthy (some s) then pure s else raise (http_exception 404 "Webhook secret not found")
]

-- An HTTPException is raised again; all else is the status 500.
database_error_500 : Exn → Action World String
database_error_500 (http_exception n s) = raise (http_exception n s)
database_error_500 e = raise (http_exception 500 "Database error")

read_secret : String → Outcome → Action World String
unfolding require_secret database_error_500 select_project
read_secret k o =
    try_catch (transaction o (λ w. require_secret (select_project k w.projects) w))
      database_error_500

-- The comparison with the header.
pub is_signed : Mac → String → Push → String → Bool
is_signed mac secret push signature = append "sha256=" (mac secret push.body) == signature

last_segment : String → String
last_segment s = elim (after_last b'/' s) [ none ↦ s | some t ↦ t ]

branch_of : Payload → String
unfolding last_segment
branch_of p = elim p.ref [ none ↦ "main" | some r ↦ last_segment r ]

-- The later of a row and the latest of the rows behind it.
latest_of : Deployment → Option Deployment → Option Deployment
latest_of d none = some d
latest_of d (some b) = if ltb d.updated_at b.updated_at then some b else some d

-- `SELECT ... WHERE project_id = %s ORDER BY updated_at DESC LIMIT 1`.
unfoldable pub last_deploy : String → List Deployment → Option Deployment
unfolding latest_of
last_deploy k [] = none
last_deploy k (d ∷ ds) =
    let rest = last_deploy k ds in if d.project_id == k then latest_of d rest else rest

-- The row is inserted with the port of the last deployment, whose repository it has to be of.
insert_pushed : String → String → String → Option Deployment → Answers → Action World Deployment
unfolding insert_row image_uri_of
insert_pushed ecr k repo none a =
    raise (http_exception 400 "Project has no existing deployments to inherit configuration from")
insert_pushed ecr k repo (some l) a =
    if l.repo_url == repo
    then insert_row (new_row k repo (image_uri_of ecr k a.deployment_id) 1 l.port a) a
    else raise (http_exception 403 "Webhook repository does not match project's repository")

-- The block and its `except Exception`, which takes the two HTTPExceptions as well.
insert_checked : String → String → String → Answers → Action World Deployment
unfolding insert_pushed last_deploy
insert_checked ecr k repo a =
    try_catch
      (transaction a.connect (λ w. insert_pushed ecr k repo (last_deploy k w.deployments) a w))
      (λ e. raise (http_exception 500 "Failed to process webhook"))

-- "Trigger deploy", for a body with a clone_url.
pub trigger : String → String → String → Payload → Answers → Action World (Option String)
unfolding insert_checked enqueue branch_of log_audit_event
trigger ecr k repo p a = do
  d ← insert_checked ecr k repo a
  enqueue (some (branch_of p)) "Failed to enqueue to stream" "Failed to enqueue webhook deployment"
      a d
  log_audit_event a.audit (record {
    project_id = some k;
    user_id = "webhook";
    action = "WEBHOOK_DEPLOY";
    resource_type = "deployment";
    resource_id = a.deployment_id;
  })
  pure (some a.deployment_id)

with_repo : String → String → Option String → Payload → Answers → Action World (Option String)
unfolding trigger
with_repo ecr k none p a = raise (http_exception 400 "Missing repository clone_url")
with_repo ecr k (some repo) p a =
    if truthy (some repo)
    then trigger ecr k repo p a
    else raise (http_exception 400 "Missing repository clone_url")

with_payload : String → String → Option Payload → Answers → Action World (Option String)
unfolding with_repo
with_payload ecr k none a = raise (http_exception 400 "Invalid JSON body")
with_payload ecr k (some p) a = with_repo ecr k p.clone_url p a

checked : Mac → String → String → Push → String → Answers → String → Action World (Option String)
unfolding with_payload is_signed
checked mac ecr k push signature a secret =
    if is_signed mac secret push signature
    then with_payload ecr k push.payload a
    else raise (http_exception 401 "Invalid signature")

with_signature : Mac → String → String → Push → String → Replies → Action World (Option String)
unfolding checked is_push read_secret
with_signature mac ecr k push signature r =
    if is_push push.event
    then (read_secret k r.secret >>= checked mac ecr k push signature r.deploy)
    else pure none

-- The id of the new deployment; none for an event that is ignored.
pub github_webhook : Mac → String → String → Push → Replies → Action World (Option String)
unfolding with_signature
github_webhook mac ecr k push r = elim push.signature [
  | none ↦ raise (http_exception 400 "Missing signature")
  | some signature ↦
      if truthy (some signature)
      then with_signature mac ecr k push signature r
      else raise (http_exception 400 "Missing signature")
]
