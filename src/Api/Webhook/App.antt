-- ===== src/Api/Webhook/App.antt =====
-- `github_app_webhook` of api/main.py: pushes to every repository with the GitHub App, under one
-- secret.
pub mod Lookup
pub mod Rows
use deploy_hub.Prelude.{
  ℕ, String, ◌==◌, if◌then◌else◌, Bool, true, false, ◌||◌, Option, none, some, List, [], ◌∷◌,
}
use deploy_hub.Action.{
  Exn, http_exception, Outcome, Action, Result, ok, raised, pure, raise, ◌>>=◌, ◌>>◌, try_catch,
  call,
}
use deploy_hub.Text.{truthy}
use deploy_hub.Schema.{Deployment}
use deploy_hub.Api.World.{World, transaction, log_audit_event}
use deploy_hub.Api.Deploy.{Answers, new_row, image_uri_of, insert_row, add_entry, entry_of}
use deploy_hub.Api.Webhook.{Payload, Push, Mac, is_push, is_signed, latest_of, branch_of}

abbrev pub is_url : Option String → String → Bool
is_url none s = false
is_url (some u) s = s == u

-- `repo_url = %s OR repo_url = %s`; a comparison with NULL does not hold.
abbrev pub is_of : Payload → Deployment → Bool
is_of p d = is_url p.clone_url d.repo_url || is_url p.html_url d.repo_url

-- `SELECT ... WHERE ... ORDER BY updated_at DESC LIMIT 1`.
unfoldable pub last_match : Payload → List Deployment → Option Deployment
unfolding latest_of
last_match p [] = none
last_match p (d ∷ ds) = let rest = last_match p ds in if is_of p d then latest_of d rest else rest

-- The lookup in its own block.
find_match : Payload → Outcome → Action World (Option Deployment)
unfolding last_match
find_match p lookup =
    try_catch (transaction lookup (λ w. pure (last_match p w.deployments) w))
      (λ e. raise (http_exception 500 "Database error during project lookup"))

-- Inserts the row and sends its message. A message that is not sent leaves the row as it is.
pub app_submit : String → Payload → Deployment → Answers → Action World (Option String)
unfolding insert_row image_uri_of branch_of log_audit_event
app_submit ecr p l a = do
  d ←
      try_catch
        (transaction a.connect (
          insert_row
            (new_row l.project_id l.repo_url (image_uri_of ecr l.project_id a.deployment_id) 1
              l.port a)
            a))
        (λ e. raise (http_exception 500 "Failed to process webhook"))
  try_catch (call a.enqueue (add_entry (entry_of (some (branch_of p)) false d)))
      (λ e. raise (http_exception 500 "Failed to enqueue webhook deployment"))
  log_audit_event a.audit (record {
    project_id = some l.project_id;
    user_id = "github-app";
    action = "WEBHOOK_DEPLOY";
    resource_type = "deployment";
    resource_id = a.deployment_id;
  })
  pure (some a.deployment_id)

app_matched : String → Payload → Answers → Option Deployment → Action World (Option String)
unfolding app_submit
app_matched ecr p a none = pure none
app_matched ecr p a (some l) = app_submit ecr p l a

app_payload : String → Option Payload → Outcome → Answers → Action World (Option String)
unfolding find_match app_matched
app_payload ecr none lookup a = raise (http_exception 400 "Invalid JSON body")
app_payload ecr (some p) lookup a =
    if truthy p.clone_url || truthy p.html_url
    then (find_match p lookup >>= app_matched ecr p a)
    else raise (http_exception 400 "Missing repository URL in payload")

app_signed :
    Mac → String → Push → String → Option String → Outcome → Answers → Action World (Option String)
unfolding app_payload is_signed
app_signed mac ecr push signature none lookup a =
    raise (http_exception 500 "Server configuration error")
app_signed mac ecr push signature (some secret) lookup a =
    if truthy (some secret)
    then (if is_signed mac secret push signature
        then app_payload ecr push.payload lookup a
        else raise (http_exception 401 "Invalid signature"))
    else raise (http_exception 500 "Server configuration error")

app_push :
    Mac
    → String
    → Push
    → Option String
    → Option String
    → Outcome
    → Answers
    → Action World (Option String)
unfolding app_signed is_push
app_push mac ecr push none secret lookup a = raise (http_exception 400 "Missing signature")
app_push mac ecr push (some signature) secret lookup a =
    if truthy (some signature)
    then (if is_push push.event
        then app_signed mac ecr push signature secret lookup a
        else pure none)
    else raise (http_exception 400 "Missing signature")

-- `secret` is GITHUB_APP_WEBHOOK_SECRET.
unfoldable pub github_app_webhook :
    Mac → String → Option String → Push → Outcome → Answers → Action World (Option String)
unfolding app_push
github_app_webhook mac ecr secret push lookup a =
    app_push mac ecr push push.signature secret lookup a
