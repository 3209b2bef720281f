-- ===== src/Worker/Process/Tests.antt =====
-- Concrete messages, and the theorems on them.
use deploy_hub.Prelude.{ℕ, String, count, ◌≡◌, refl, true, false, inr, none, some, [], ◌∷◌}
use deploy_hub.Action.{exception, ok}
use deploy_hub.Action.Counts.{Counts}
use deploy_hub.Text.{truthy}
use deploy_hub.Schema.{State, queued, running, Deployment, select_deployment}
use deploy_hub.Worker.Builder.Samples.{test_registry}
use deploy_hub.Worker.World.{World, Message, absent}
use deploy_hub.Worker.StateMachine.{Attempt, get_deployment}
use deploy_hub.Json.{obj}
use deploy_hub.Worker.Queue.{ack_message}
use deploy_hub.Worker.Process.{Answers, Request, build, process_message, parse_message}
use deploy_hub.Worker.Process.Jobs.{is_job}
use deploy_hub.Worker.Process.Settled.{tally, is_ack, process_message-Counts}
use deploy_hub.Worker.Process.Branches.{OnlyAcked}
use deploy_hub.Worker.Process.Fates.{Fated, process_message-Fated}
use deploy_hub.Worker.Process.Redelivered.{Names, process_message-OnlyAcked}

abbrev dep : String → State → Deployment
dep k s = record {
  deployment_id = k;
  project_id = "p1";
  repo_url = "https://github.com/acme/shop.git";
  image_uri = "reg/shipzen-builds/p1:d1";
  replicas = 1;
  port = 8080;
  health_check_path = "/";
  state = s;
  updated_at = 1;
  last_error = none;
}

abbrev start : World
start = record {
  deployments = dep "d1" queued ∷ dep "d2" running ∷ [];
  builds = [];
  conn = absent;
  issued = [];
}

abbrev calm_attempts : ℕ → Attempt
calm_attempts n = record {
  liveness = none;
  connect = none;
  execute = none;
  publish = none;
  now = 7;
}

abbrev calm : Answers
calm = record {
  fetch = calm_attempts;
  rollback_update = calm_attempts;
  failed_update = calm_attempts;
  makedirs = none;
  clone = none;
  files = "Dockerfile" ∷ [];
  config = ok none;
  config_update = none;
  package_json = ok (record { scripts = []; deps = [] });
  ecr_client = none;
  create_repository = none;
  registry = test_registry;
  create_job = none;
  start = none;
  ack = none;
  dlq_add = none;
  dlq_ack = none;
}

abbrev message : String → Message
message k = record {
  deployment_id = some k;
  repo_url = some "https://github.com/acme/shop.git";
  branch = none;
  image_name = some "reg/shipzen-builds/p1:d1";
  is_rollback = none;
}

abbrev request : String → Request
request k = record {
  deployment_id = k;
  repo_url = "https://github.com/acme/shop.git";
  image_name = "reg/shipzen-builds/p1:d1";
  branch = "main";
  is_rollback = false;
}

process_message-Counts_example :
    Counts (tally (is_ack "1-0")) 1 start (process_message "1-0" (message "d1") calm start)
process_message-Counts_example = process_message-Counts "1-0" (message "d1") calm start

abbrev message-Names : (k : String) → truthy (some k) ≡ true → Names (message k) k
message-Names k h = record {
  repo = "https://github.com/acme/shop.git";
  image = "reg/shipzen-builds/p1:d1";
  deployment_id = refl;
  repo_url = refl;
  image_name = refl;
  id_given = h;
  repo_given = refl;
  image_given = refl;
}

process_message-OnlyAcked_example :
    OnlyAcked "1-0" start (process_message "1-0" (message "d2") calm start).1
process_message-OnlyAcked_example =
    process_message-OnlyAcked "1-0" (message "d2") calm start "d2" (dep "d2" running)
      (message-Names "d2" refl) (unfold select_deployment in refl) (inr (inr refl))

abbrev rollback_message : Message
rollback_message = record (message "d1") { is_rollback = some "true" }

-- git fails.
abbrev no_clone : Answers
no_clone = record calm { clone = some (exception "exit status 128") }

process_message-Fated_example :
    Fated (message "d1") start (process_message "1-0" (message "d1") no_clone start)
process_message-Fated_example = process_message-Fated "1-0" (message "d1") no_clone start

abbrev rollback-Names : Names rollback_message "d1"
rollback-Names = record {
  repo = "https://github.com/acme/shop.git";
  image = "reg/shipzen-builds/p1:d1";
  deployment_id = refl;
  repo_url = refl;
  image_name = refl;
  id_given = refl;
  repo_given = refl;
  image_given = refl;
}

-- Where nothing fails, one job is created.
creates_job : count is_job (process_message "1-0" (message "d1") calm start).1.issued ≡ 1
unfolding process_message parse_message build get_deployment select_deployment obj ack_message
creates_job = refl
