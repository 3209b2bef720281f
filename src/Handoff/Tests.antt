-- ===== src/Handoff/Tests.antt =====
-- A rollback from the request to the worker.
use deploy_hub.Prelude.{ℕ, String, ◌==◌, if◌then◌else◌, ◌&&◌, ◌≡◌, refl, false, some, none, [], ◌∷◌}
use deploy_hub.Action.{ok}
use deploy_hub.Schema.{success, running, ready, Deployment, Project}
use deploy_hub.Worker.Builder.Samples.{test_registry}
use deploy_hub.Worker.World as Worker
use deploy_hub.Worker.World.{absent}
use deploy_hub.Worker.StateMachine.{Attempt}
use deploy_hub.Worker.Process as Process
use deploy_hub.Worker.Process.{process_message}
use deploy_hub.Worker.Process.Branches.{RolledForward}
use deploy_hub.Api.World.{World, user}
use deploy_hub.Api.Access.{User}
use deploy_hub.Api.Deploy.{
  Answers, CreateDeploymentRequest, new_row, entry_of, rollback_deployment, last_good,
}
use deploy_hub.Handoff.{message_of, rollback_entry, rollback-handoff}
use deploy_hub.Handoff.Logs.{record_build-get_build_logs}
use deploy_hub.Text.{has_code}
use deploy_hub.Worker.Monitor.{record_build}
use deploy_hub.Api.Builds.{S3Object, body, no_such_key, find_deployment, get_build_logs}

abbrev shop : Project
shop = record {
  id = "p1";
  owner_id = "ada";
  name = "shop";
  namespace = "shop";
  status = ready;
  webhook_secret = none;
  deleted_at = none;
}

abbrev good_row : Deployment
good_row = record {
  deployment_id = "d1";
  project_id = "p1";
  repo_url = "https://github.com/acme/shop.git";
  image_uri = "reg/shipzen-builds/p1:d1";
  replicas = 2;
  port = 3000;
  health_check_path = "/";
  state = running;
  updated_at = 4;
  last_error = none;
}

abbrev api_start : World
api_start = record {
  users = [];
  projects = shop ∷ [];
  members = [];
  deployments = good_row ∷ [];
  audit_logs = [];
  stream = [];
  published = [];
}

abbrev calm : Answers
calm = record {
  deployment_id = "d2";
  now = 10;
  connect = none;
  insert = none;
  commit = none;
  enqueue = none;
  publish = none;
  mark = none;
  audit = none;
}

abbrev ada : User
ada = record { user_id = "ada"; role = user }

abbrev worker_start : Worker.World
worker_start = record {
  deployments = (rollback_deployment shop ada calm api_start).1.deployments;
  builds = [];
  conn = absent;
  issued = [];
}

abbrev calm_attempts : ℕ → Attempt
calm_attempts n = record {
  liveness = none;
  connect = none;
  execute = none;
  publish = none;
  now = 11;
}

abbrev calm_worker : Process.Answers
calm_worker = record {
  fetch = calm_attempts;
  rollback_update = calm_attempts;
  failed_update = calm_attempts;
  makedirs = none;
  clone = none;
  files = [];
  config = ok none;
  config_update = none;
  package_json = ok (record { scripts = []; deps = [] });
  ecr_client = none;
  create_repository = none;
  registry = test_registry;
  create_job = none;
  start = none;
  ack = none;
  dlq_add = none;
  dlq_ack = none;
}

rollback-handoff_example :
    ((rollback_deployment shop ada calm api_start).1.stream
      ≡ rollback_entry shop good_row calm ∷ api_start.stream)
    × RolledForward "d2" worker_start (
        process_message "1-0"
          (message_of (rollback_entry shop good_row calm))
          calm_worker
          worker_start)
rollback-handoff_example =
    rollback-handoff shop ada calm api_start good_row "1-0" calm_worker worker_start
      (unfold rollback_deployment in refl) refl (unfold last_good in refl) refl refl refl refl

abbrev bucket_content : String → String → S3Object
bucket_content bucket key =
    if bucket == "shipzen-logs" && key == "logs/d1/build.log" then body "compiled" else no_such_key

record_build-get_build_logs_example :
    get_build_logs bucket_content none none "p1" "d1" "b7"
      (good_row ∷ [])
      (record_build "shipzen-logs" "d1" success
        (record { build_id = "b7"; insert = none })
        worker_start).1.builds
    ≡ ok "compiled"
record_build-get_build_logs_example =
    record_build-get_build_logs bucket_content "shipzen-logs" "d1" "p1" "compiled" success
      (record { build_id = "b7"; insert = none }) worker_start (good_row ∷ []) good_row refl
      (unfold has_code in refl) refl (unfold find_deployment in refl) refl

abbrev request : CreateDeploymentRequest
request = record {
  repo_url = "https://github.com/acme/shop.git";
  port = 8080;
  branch = some "main";
}

abbrev new : Deployment
new = new_row "p1" "https://github.com/acme/shop.git" "reg/shipzen-builds/p1:d2" 1 8080 calm

abbrev to_build : Worker.World
to_build = record { deployments = new ∷ []; builds = []; conn = absent; issued = [] }

abbrev new_message : Worker.Message
new_message = message_of (entry_of (some "main") false new)
