-- ===== src/Worker/World.antt =====
-- What the worker reads and writes. The tables are the database's; `conn` is StateMachine._conn.
-- Redis, Kubernetes, S3, ECR, git and Prometheus are outside: `issued` is the list of the calls that
-- went through, the newest first, and what they answer is an argument of each operation.
use deploy_hub.Prelude.{String, Option, List, ◌∷◌}
use deploy_hub.Schema.{State, Deployment, Build}
use deploy_hub.Json.{Json}

pub data Conn : Type 0 where
  absent open_conn closed_conn : Conn

-- The fields of a stream message that the worker reads; `none` where `data.get` finds no key.
pub record Message : Type 0 where
  pub deployment_id : Option String
  pub repo_url : Option String
  pub branch : Option String
  pub image_name : Option String
  pub is_rollback : Option String

pub data Metric : Type 0 where
  deployments_processing deployment_failure deployments_failed dlq_depth retries : Metric

pub data Command : Type 0 where
  publish_status : String → State → Option String → Command
  publish_log : String → String → Command
  xack : String → Command
  xadd_dlq : Message → Command
  make_workspace : String → Command
  git_clone : String → String → Command
  remove_workspace : String → Command
  create_repository : String → Command
  create_job : Json → Command
  delete_job : String → Command
  start_monitor : String → String → Command
  upload_log : String → Command
  inc : Metric → Command

pub record World : Type 0 where
  pub deployments : List Deployment
  pub builds : List Build
  pub conn : Conn
  pub issued : List Command

abbrev pub issue : Command → World → World
issue c w = record w { issued = c ∷ w.issued }
