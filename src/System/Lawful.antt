-- ===== src/System/Lawful.antt =====
-- What holds of every row of the deployments table, whatever the services do.
use deploy_hub.Prelude.{
  ℕ, String, Bool, true, false, not, Option, none, some, List, ◌≡◌, refl, sym, subst, All,
}
use deploy_hub.Schema.{verifying, retry, dlq, failed, Deployment}
use deploy_hub.Worker.World.{World}
use deploy_hub.Worker.StateMachine.AllRows.{AllRows}
use deploy_hub.Worker.Process.Rows.{process_message-AllRows}
use deploy_hub.Worker.Process.{apply_config}
use deploy_hub.Worker.Monitor.Rows.{monitor_job-AllRows}
use deploy_hub.Controller.Reconcile.Rows.{reconcile-AllIn}
use deploy_hub.Api.World as Api
use deploy_hub.Api.Deploy as Deploy
use deploy_hub.Api.Deploy.Rows.{create_deployment-AllRows, rollback_deployment-AllRows}
use deploy_hub.Api.Deploy.Rows as Rows
use deploy_hub.Api.Webhook.Rows.{github_webhook-Rows}
use deploy_hub.Api.Webhook.App.Rows.{github_app_webhook-Rows}
use deploy_hub.System.{
  Step, process, monitor, deploy, roll_back, push, app_push, pass, Reachable, empty, after,
}

has_text : Option String → Bool
has_text none = false
has_text (some s) = true

-- The state is one that the services use, and there is an error exactly in the state Failed.
pub is_lawful : Deployment → Bool
unfolding has_text
is_lawful d = elim d.state [
  | failed ↦ has_text d.last_error
  | verifying ↦ false
  | retry ↦ false
  | dlq ↦ false
  | _ ↦ not (has_text d.last_error)
]

abbrev pub Lawful : Deployment → Type 0
Lawful d = is_lawful d ≡ true

-- New rows, and those that the API sets to Failed.
is_new :
    (k repo image : String) (replicas port : ℕ) (a : Deploy.Answers)
    → Lawful (Deploy.new_row k repo image replicas port a)
unfolding is_lawful
is_new k repo image replicas port a = refl

set_failed-Lawful : (text : String) (d : Deployment) → Lawful d → Lawful (Deploy.set_failed text d)
unfolding is_lawful
set_failed-Lawful text d h = refl

abbrev ApiRows : Api.World → Type 0
ApiRows = Rows.AllRows Lawful is_new set_failed-Lawful

-- From a world to the table in it.
worker_step :
    {ds es : List Deployment} (w v : World)
    → w.deployments ≡ ds
    → v.deployments ≡ es
    → (AllRows Lawful w → AllRows Lawful v)
    → All Lawful ds
    → All Lawful es
worker_step w v d e f h =
    subst (All Lawful) e (f (record { rows = subst (All Lawful) (sym d) h })).rows

api_step :
    {ds es : List Deployment} (w v : Api.World)
    → w.deployments ≡ ds
    → v.deployments ≡ es
    → (ApiRows w → ApiRows v)
    → All Lawful ds
    → All Lawful es
api_step w v d e f h =
    subst (All Lawful) e (f (record { rows = subst (All Lawful) (sym d) h })).rows

Step-Lawful : {ds es : List Deployment} → Step ds es → All Lawful ds → All Lawful es
unfolding is_lawful apply_config
Step-Lawful (process k m a w d e) =
    worker_step w _ d e
      (process_message-AllRows Lawful (λ _ _ _ _. refl) (λ _ _ _. refl) (λ _ _ g. g) k m a w)
Step-Lawful (monitor name k image a w d e) =
    worker_step w _ d e
      (monitor_job-AllRows Lawful (λ _ _ _. refl) (λ _ _ _. refl) (λ _ _ g. g) name k image a w)
Step-Lawful (deploy ecr p u body a w d e) =
    api_step w _ d e (create_deployment-AllRows Lawful is_new set_failed-Lawful ecr p u body a w)
Step-Lawful (roll_back p u a w d e) =
    api_step w _ d e (rollback_deployment-AllRows Lawful is_new set_failed-Lawful p u a w)
Step-Lawful (push mac ecr k event r w d e) =
    api_step w _ d e (github_webhook-Rows Lawful is_new set_failed-Lawful mac ecr k event r w)
Step-Lawful (app_push mac ecr secret event lookup a w d e) =
    api_step w _ d e
      (github_app_webhook-Rows Lawful is_new set_failed-Lawful mac ecr secret event lookup a w)
Step-Lawful (pass answers w fresh d e) = λ h. subst (All Lawful) e (
    reconcile-AllIn Lawful (λ _ _. refl) (λ _ _. refl) answers w fresh
      (subst (All Lawful) (sym d) h))

-- Whatever the API, the worker and the controller do, in any order and whatever the outside answers,
-- every row of the deployments table is in one of the states Queued, Building, Deploying, Running and
-- Failed, never in Verifying, Retry or DLQ; and it has an error text exactly when it is Failed.
pub Reachable-Lawful : {ds : List Deployment} → Reachable ds → All (λ d. is_lawful d ≡ true) ds
Reachable-Lawful empty = tt
Reachable-Lawful (after r s) = Step-Lawful s (Reachable-Lawful r)
