-- ===== src/System.antt =====
-- The deployments table under everything that the services do to it: the requests that the API serves,
-- the messages and the jobs that the worker handles, and the passes of the controller, in any order and
-- with any answers of the outside. Each runs to its end before the next. The table is what they share;
-- what else a service has, its connection, its stream, its other tables, is any at each step.
pub mod Lawful
mod Tests
use deploy_hub.Prelude.{String, Option, List, [], ◌≡◌}
use deploy_hub.Action.{Outcome}
use deploy_hub.Schema.{Deployment, Project}
use deploy_hub.Worker.World as Worker
use deploy_hub.Worker.Process as Process
use deploy_hub.Worker.Monitor as Monitor
use deploy_hub.Controller.World as Controller
use deploy_hub.Controller.Reconcile as Reconcile
use deploy_hub.Api.World as Api
use deploy_hub.Api.Access.{User}
use deploy_hub.Api.Deploy as Deploy
use deploy_hub.Api.Webhook as Webhook
use deploy_hub.Api.Webhook.App.{github_app_webhook}

-- From the first table to the second.
pub data Step (ds es : List Deployment) : Type 0 where
  process :
      (k : String) (m : Worker.Message) (a : Process.Answers) (w : Worker.World)
      → w.deployments ≡ ds
      → (Process.process_message k m a w).1.deployments ≡ es
      → Step ds es
  monitor :
      (name k image : String) (a : Monitor.Watch) (w : Worker.World)
      → w.deployments ≡ ds
      → (Monitor.monitor_job name k image a w).1.deployments ≡ es
      → Step ds es
  deploy :
      (ecr : String) (p : Project) (u : User) (body : Deploy.CreateDeploymentRequest)
      (a : Deploy.Answers) (w : Api.World)
      → w.deployments ≡ ds
      → (Deploy.create_deployment ecr p u body a w).1.deployments ≡ es
      → Step ds es
  roll_back :
      (p : Project) (u : User) (a : Deploy.Answers) (w : Api.World)
      → w.deployments ≡ ds
      → (Deploy.rollback_deployment p u a w).1.deployments ≡ es
      → Step ds es
  push :
      (mac : Webhook.Mac) (ecr k : String) (event : Webhook.Push) (r : Webhook.Replies)
      (w : Api.World)
      → w.deployments ≡ ds
      → (Webhook.github_webhook mac ecr k event r w).1.deployments ≡ es
      → Step ds es
  app_push :
      (mac : Webhook.Mac) (ecr : String) (secret : Option String) (event : Webhook.Push)
      (lookup : Outcome) (a : Deploy.Answers) (w : Api.World)
      → w.deployments ≡ ds
      → (github_app_webhook mac ecr secret event lookup a w).1.deployments ≡ es
      → Step ds es
  pass :
      (answers : String → Reconcile.Answers) (w : Controller.World)
      → w.working ≡ w.committed
      → w.committed.deployments ≡ ds
      → (Reconcile.reconcile answers w).1.committed.deployments ≡ es
      → Step ds es

-- The tables that come out of an empty one.
pub data Reachable : List Deployment → Type 0 where
  empty : Reachable []
  after : {ds es : List Deployment} → Reachable ds → Step ds es → Reachable es
