-- ===== src/Worker/Loop/Tests.antt =====
-- A turn of the worker that claims one message and reads two.
use deploy_hub.Prelude.{ℕ, String, refl, none, some, List, [], ◌∷◌, arith}
use deploy_hub.Action.{ok}
use deploy_hub.Worker.Builder.Samples.{test_registry}
use deploy_hub.Worker.World.{World, Message, absent}
use deploy_hub.Worker.StateMachine.{Attempt}
use deploy_hub.Worker.Queue.{Entry}
use deploy_hub.Worker.Queue.Recovery.{last}
use deploy_hub.Worker.Process.{Answers}
use deploy_hub.Worker.Loop.{Turn, turn}
use deploy_hub.Worker.Loop.Settled.{Settled, turn-Settled}

abbrev start : World
start = record { deployments = []; builds = []; conn = absent; issued = [] }

abbrev message : Message
message = record {
  deployment_id = some "d1";
  repo_url = some "https://github.com/acme/shop.git";
  branch = none;
  image_name = some "reg/shipzen-builds/p1:d1";
  is_rollback = some "true";
}

abbrev calm_attempts : ℕ → Attempt
calm_attempts n = record {
  liveness = none;
  connect = none;
  execute = none;
  publish = none;
  now = 3;
}

abbrev calm : Answers
calm = record {
  fetch = calm_attempts;
  rollback_update = calm_attempts;
  failed_update = calm_attempts;
  makedirs = none;
  clone = none;
  files = [];
  config = ok none;
  config_update = none;
  package_json = ok (record { scripts = []; deps = [] });
  ecr_client = none;
  create_repository = none;
  registry = test_registry;
  create_job = none;
  start = none;
  ack = none;
  dlq_add = none;
  dlq_ack = none;
}

abbrev claimed : List Entry
claimed = ("1-0", message) ∷ []

abbrev streams : List (String × List Entry)
streams = ("deploy_stream", ("2-0", message) ∷ ("3-0", message) ∷ []) ∷ []

abbrev busy : Turn
busy = record {
  claim = λ n s. ok ("0-0", claimed);
  get_messages = ok streams;
  handling = λ k. calm;
}

turn-Settled_example :
    Settled busy
      (("1-0", message) ∷ ("2-0", message) ∷ ("3-0", message) ∷ [])
      start
      (turn 1 busy start)
turn-Settled_example = turn-Settled 1 1 busy claimed streams start (last refl) (omega arith) refl
