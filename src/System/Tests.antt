-- ===== src/System/Tests.antt =====
-- A deployment whose repository cannot be cloned, from the request to the worker.
use deploy_hub.Prelude.{ℕ, ◌≡◌, refl, true, none, some, List, [], ◌∷◌, All}
use deploy_hub.Action.{exception, ok}
use deploy_hub.Schema.{ready, Project, Deployment}
use deploy_hub.Worker.Builder.Samples.{test_registry}
use deploy_hub.Worker.World as Worker
use deploy_hub.Worker.World.{absent}
use deploy_hub.Worker.StateMachine.{Attempt}
use deploy_hub.Worker.Process as Process
use deploy_hub.Worker.Process.{process_message}
use deploy_hub.Api.World.{World, user}
use deploy_hub.Api.Access.{User}
use deploy_hub.Api.Deploy as Deploy
use deploy_hub.Api.Deploy.{CreateDeploymentRequest, create_deployment}
use deploy_hub.System.{Reachable, empty, after, deploy, process}
use deploy_hub.System.Lawful.{is_lawful, Reachable-Lawful}

abbrev shop : Project
shop = record {
  id = "p1";
  owner_id = "ada";
  name = "shop";
  namespace = "shop";
  status = ready;
  webhook_secret = none;
  deleted_at = none;
}

abbrev ada : User
ada = record { user_id = "ada"; role = user }

abbrev calm : Deploy.Answers
calm = record {
  deployment_id = "d2";
  now = 10;
  connect = none;
  insert = none;
  commit = none;
  enqueue = none;
  publish = none;
  mark = none;
  audit = none;
}

abbrev calm_attempts : ℕ → Attempt
calm_attempts n = record {
  liveness = none;
  connect = none;
  execute = none;
  publish = none;
  now = 11;
}

abbrev no_clone : Process.Answers
no_clone = record {
  fetch = calm_attempts;
  rollback_update = calm_attempts;
  failed_update = calm_attempts;
  makedirs = none;
  clone = some (exception "exit status 128");
  files = [];
  config = ok none;
  config_update = none;
  package_json = ok (record { scripts = []; deps = [] });
  ecr_client = none;
  create_repository = none;
  registry = test_registry;
  create_job = none;
  start = none;
  ack = none;
  dlq_add = none;
  dlq_ack = none;
}

abbrev request : CreateDeploymentRequest
request = record {
  repo_url = "https://github.com/acme/shop.git";
  port = 8080;
  branch = some "main";
}

abbrev api_start : World
api_start = record {
  users = [];
  projects = shop ∷ [];
  members = [];
  deployments = [];
  audit_logs = [];
  stream = [];
  published = [];
}

abbrev deployed : List Deployment
deployed = (create_deployment "reg/x" shop ada request calm api_start).1.deployments

abbrev worker_start : Worker.World
worker_start = record { deployments = deployed; builds = []; conn = absent; issued = [] }

abbrev message : Worker.Message
message = record {
  deployment_id = some "d2";
  repo_url = some "https://github.com/acme/shop.git";
  branch = some "main";
  image_name = some "reg/shipzen-builds/p1:d2";
  is_rollback = none;
}

abbrev handled : List Deployment
handled = (process_message "1-0" message no_clone worker_start).1.deployments

handled-Reachable : Reachable handled
handled-Reachable =
    after (after empty (deploy "reg/x" shop ada request calm api_start refl refl))
      (process "1-0" message no_clone worker_start refl refl)

Reachable-Lawful_example : All (λ d. is_lawful d ≡ true) handled
Reachable-Lawful_example = Reachable-Lawful handled-Reachable
