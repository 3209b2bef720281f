-- ===== src/Controller/World.antt =====
-- What the controller reads and writes. Its connection has autocommit off: statements write `working`,
-- `commit` makes that the `committed` state, which others see, and `rollback` returns to it. The calls
-- of Kubernetes, ECR, Redis and Prometheus that went through are in `issued`, the newest first.
use deploy_hub.Prelude.{ℕ, String, Option, List, ◌∷◌}
use deploy_hub.Action.{Outcome, Action, call}
use deploy_hub.Schema.{State, Project, Deployment}

pub record Db : Type 0 where
  pub projects : List Project
  pub deployments : List Deployment

-- The kinds of a manifest, as far as the code tells them apart.
pub data Kind : Type 0 where
  deployment service http_route external_secret pod_disruption_budget network_policy : Kind
  resource_quota limit_range role role_binding other_kind : Kind

pub data Command : Type 0 where
  applied patched : Kind → String → Command
  ensure_ecr : String → Command
  delete_namespace : String → Command
  delete_deployment delete_service delete_route : String → Command
  publish_status : String → State → Option String → Command
  drift deployment_success : Command
  active_deployments : ℕ → Command

pub record World : Type 0 where
  pub committed : Db
  pub working : Db
  pub issued : List Command

abbrev pub issue : Command → World → World
issue c w = record w { issued = c ∷ w.issued }

unfoldable pub commit : Outcome → Action World Unit
commit o = call o (λ w. record w { committed = w.working })

unfoldable pub rollback : Outcome → Action World Unit
rollback o = call o (λ w. record w { working = w.committed })

-- A statement on the connection.
unfoldable pub execute : Outcome → (Db → Db) → Action World Unit
execute o f = call o (λ w. record w { working = f w.working })
