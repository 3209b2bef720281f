-- ===== src/Worker/Process.antt =====
-- `process_message` of worker/main.py: one message of the stream, from the first check to the job.
-- `Answers` holds what the outside answers while the message is handled.
pub mod Settled
pub mod Branches
pub mod Letters
pub mod Starts
pub mod Fates
pub mod Redelivered
pub mod Rows
pub mod Jobs
mod Tests
use deploy_hub.Prelude.{
  ℕ, String, ◌==◌, if◌then◌else◌, Bool, true, false, not, ◌&&◌, ◌||◌, Option, none, some, List, [],
  ◌∷◌, contains,
}
use deploy_hub.Action.{
  Exn, api_exception, name_error, exception, text_of, Outcome, Action, Result, ok, raised, pure,
  raise, ◌>>=◌, ◌>>◌, try_catch, finally, modify, call, attempt,
}
use deploy_hub.Text.{truthy, before_last, after_first, has_code}
use deploy_hub.Schema.{
  State, building, deploying, verifying, running, failed, Deployment, update_deployment,
}
use deploy_hub.Worker.World.{
  World, Message, Command, issue, make_workspace, git_clone, remove_workspace, create_repository,
  create_job, start_monitor, inc, deployments_processing, deployment_failure, deployments_failed,
  dlq_depth,
}
use deploy_hub.Worker.StateMachine.{Attempt, update_state, get_deployment}
use deploy_hub.Worker.Queue.{ack_message, add_to_dlq}
use deploy_hub.Worker.Builder.{Builder, Overrides, Registry, select_builder, generate_job_manifest}
use deploy_hub.Json.{Json, name, at, string_in}

-- shipzen.yaml, where it holds anything.
pub record Config : Type 0 where
  pub port : Option ℕ
  pub health_check_path : Option String
  pub overrides : Overrides

-- package.json: the names of its scripts and of its dependencies of both kinds.
pub record PackageJson : Type 0 where
  pub scripts : List String
  pub deps : List String

pub record Answers : Type 0 where
  pub fetch : ℕ → Attempt
  pub rollback_update : ℕ → Attempt
  pub failed_update : ℕ → Attempt
  pub makedirs : Outcome
  pub clone : Outcome
  pub files : List String  -- the root of the cloned workspace
  pub config : Result (Option Config)  -- of opening and parsing shipzen.yaml
  pub config_update : Outcome
  pub package_json : Result PackageJson
  pub ecr_client : Outcome  -- boto3.client("ecr")
  pub create_repository : Outcome
  pub registry : Registry
  pub create_job : Outcome
  pub start : Outcome  -- Thread.start
  pub ack : Outcome
  pub dlq_add : Outcome
  pub dlq_ack : Outcome

pub record Request : Type 0 where
  pub deployment_id : String
  pub repo_url : String
  pub image_name : String
  pub branch : String
  pub is_rollback : Bool

or_main : Option String → String
or_main none = "main"
or_main (some b) = b

is_true : Option String → Bool
is_true none = false
is_true (some s) = s == "true"

-- A message is taken up only if it names a deployment, a repository and an image, none of them empty.
request_of : Option String → Option String → Option String → Message → Option Request
unfolding or_main is_true
request_of (some d) (some r) (some i) m =
    if truthy (some d) && truthy (some r) && truthy (some i)
    then some (record {
      deployment_id = d;
      repo_url = r;
      image_name = i;
      branch = or_main m.branch;
      is_rollback = is_true m.is_rollback;
    })
    else none
request_of _ _ _ m = none

unfoldable pub parse_message : Message → Option Request
unfolding request_of
parse_message m = request_of m.deployment_id m.repo_url m.image_name m

-- The states in which a message is only acknowledged.
abbrev pub is_in_progress : Option Deployment → Bool
is_in_progress none = false
is_in_progress (some d) = elim d.state [
  | building ↦ true
  | deploying ↦ true
  | running ↦ true
  | _ ↦ false
]

abbrev no_overrides : Overrides
no_overrides = record { inject_server_js = false; bp_node_run_scripts = none; runtime = none }

positive : Option ℕ → Bool
positive none = false
positive (some ℕ.zero) = false
positive (some (ℕ.suc n)) = true

-- The columns that shipzen.yaml sets.
unfoldable pub apply_config : Config → Deployment → Deployment
unfolding positive
apply_config c d = record d {
  port = elim c.port [ none ↦ d.port | some p ↦ if positive (some p) then p else d.port ];
  health_check_path = elim c.health_check_path [
    | none ↦ d.health_check_path
    | some h ↦ if truthy (some h) then h else d.health_check_path
  ];
}

write_config : String → Outcome → Option Config → Action World Overrides
unfolding apply_config update_deployment
write_config k o none = pure no_overrides
write_config k o (some c) =
    if positive c.port || truthy c.health_check_path
    then (call o
          (λ w. record w { deployments = update_deployment k (apply_config c) w.deployments })
        >> pure c.overrides)
    else pure c.overrides

lift : {A : Type 0} → Result A → Action World A
lift r w = (r, w)

-- "Check overrides".
read_config : String → Answers → Action World Overrides
unfolding write_config lift
read_config k a =
    if contains "shipzen.yaml" a.files
    then (lift a.config >>= write_config k a.config_update)
    else pure no_overrides

is_static_site : PackageJson → Bool
is_static_site p =
    contains "vite" p.deps
    || contains "react-scripts" p.deps
    || contains "vue" p.deps
    || contains "svelte" p.deps
    || contains "astro" p.deps
    || contains "build" p.scripts

-- "SPA detection".
unfoldable pub detect_spa : PackageJson → Overrides → Overrides
unfolding is_static_site
detect_spa p o = record o {
  inject_server_js =
      if not (contains "start" p.scripts) && is_static_site p then true else o.inject_server_js;
  bp_node_run_scripts = if contains "build" p.scripts then some "build" else o.bp_node_run_scripts;
}

read_package : Answers → Overrides → Action World Overrides
unfolding lift detect_spa
read_package a o =
    if contains "package.json" a.files
    then (lift a.package_json >>= λ p. pure (detect_spa p o))
    else pure o

abbrev unbound_client : Exn
unbound_client =
    name_error "cannot access local variable 'ecr_client' where it is not associated with a value"

-- The ECR repository of the image. An image name with no registry, or a client that cannot be made,
-- leaves `ecr_client` unbound where the except clause names it; other failures are not fatal.
ensure_repository : String → Answers → Action World Unit
unfolding after_first before_last
ensure_repository image a = elim (after_first b'/' (before_last b':' image)) [
  | none ↦ raise unbound_client
  | some repo ↦ elim a.ecr_client [
    | some e ↦ raise unbound_client
    | none ↦ attempt (call a.create_repository (issue (create_repository repo)))
  ]
]

-- An ApiException is raised again under another text, made of its status and its reason; the text
-- that it carries here stands for that one.
abbrev job_failed : Exn → Exn
job_failed (api_exception n s) = exception s
job_failed e = e

-- manifest["metadata"]["name"].
require_name : Json → Action World String
unfolding at string_in
require_name m = elim (string_in (at (name "metadata" ∷ name "name" ∷ []) m)) [
  | none ↦ raise (exception "'name'")
  | some job ↦ pure job
]

launch_job : Request → Overrides → Answers → Builder → Action World Unit
unfolding generate_job_manifest require_name
launch_job q o a b = do
  let m = generate_job_manifest b a.registry q.deployment_id q.repo_url q.branch q.image_name o
  job ← require_name m
  try_catch (call a.create_job (issue (create_job m))) (λ e. raise (job_failed e))
  call a.start (issue (start_monitor job q.deployment_id))

require_builder : Option Builder → Action World Builder
require_builder none = raise (exception "No suitable builder found")
require_builder (some b) = pure b

-- The body of the `try` statement.
pub build : String → Request → Answers → Action World Unit
unfolding read_config read_package ensure_repository launch_job require_builder select_builder
build message_id q a = do
  call a.makedirs (issue (make_workspace q.deployment_id))
  call a.clone (issue (git_clone q.repo_url q.branch))
  configured ← read_config q.deployment_id a
  overrides ← read_package a configured
  b ← require_builder (select_builder a.files)
  ensure_repository q.image_name a
  launch_job q overrides a b
  ack_message message_id a.ack

-- The end of `except Exception as e`.
dead_letter : String → Message → Answers → Action World Unit
dead_letter message_id m a = do
  modify (λ w. issue (inc deployments_failed) (issue (inc deployment_failure) w))
  add_to_dlq message_id m a.dlq_add a.dlq_ack
  modify (issue (inc dlq_depth))

-- `except Exception as e`.
build_failed : String → Message → Request → Answers → Exn → Action World Unit
build_failed message_id m q a e =
    update_state q.deployment_id failed (some (text_of e)) a.failed_update
    >> dead_letter message_id m a

pub start_build : String → Message → Request → Answers → Action World Unit
start_build message_id m q a =
    modify (issue (inc deployments_processing))
    >> finally (try_catch (build message_id q a) (build_failed message_id m q a))
        (modify (issue (remove_workspace q.deployment_id)))

-- What is done once the stored row is known.
handle_request : String → Message → Request → Answers → Option Deployment → Action World Unit
unfolding start_build
handle_request message_id m q a d =
    if is_in_progress d
    then ack_message message_id a.ack
    else if q.is_rollback
    then (update_state q.deployment_id deploying none a.rollback_update
        >> ack_message message_id a.ack)
    else start_build message_id m q a

handle_parsed : String → Message → Answers → Option Request → Action World Unit
unfolding handle_request
handle_parsed message_id m a none = add_to_dlq message_id m a.dlq_add a.dlq_ack
handle_parsed message_id m a (some q) =
    get_deployment q.deployment_id a.fetch >>= handle_request message_id m q a

pub process_message : String → Message → Answers → Action World Unit
unfolding handle_parsed parse_message
process_message message_id m a = handle_parsed message_id m a (parse_message m)
