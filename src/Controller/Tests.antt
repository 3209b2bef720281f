-- ===== src/Controller/Tests.antt =====
-- A small cluster, and the theorems on it.
use deploy_hub.Prelude.{ℕ, suc, String, ◌≡◌, refl, Option, none, some, List, [], ◌∷◌, ◌++◌}
use deploy_hub.Action.{api_exception, exception, Outcome, Result, ok, raised}
use deploy_hub.Schema.{State, deploying, running, Deployment, ProjectStatus, ready, Project}
use deploy_hub.Controller.World.{World, Db, Kind, patched}
use deploy_hub.Controller.Manifests.{Doc, apply_manifests}
use deploy_hub.Controller.Manifests.Effects.{apply_manifests-effects}
use deploy_hub.Controller.Deployments.{Listed, Cluster, reconcile_deployments}
use deploy_hub.Controller.Deployments.Marks.{Justified}
use deploy_hub.Controller.Deployments.Justified.{reconcile_deployments-Justified}
use deploy_hub.Controller.Reconcile.{Answers}
use deploy_hub.Controller.Reconcile.SchemaWait.{Probe}

abbrev dep : String → State → Deployment
dep k s = record {
  deployment_id = k;
  project_id = "p1";
  repo_url = "https://github.com/acme/shop.git";
  image_uri = "reg/shop:d1";
  replicas = 1;
  port = 8080;
  health_check_path = "/";
  state = s;
  updated_at = 1;
  last_error = none;
}

abbrev project : ProjectStatus → Project
project s = record {
  id = "p1";
  owner_id = "u1";
  name = "shop";
  namespace = "shop-ns";
  status = s;
  webhook_secret = none;
  deleted_at = none;
}

abbrev db : ProjectStatus → Db
db s = record {
  projects = project s ∷ [];
  deployments = dep "d1" deploying ∷ dep "d2" running ∷ [];
}

abbrev start : ProjectStatus → World
start s = record { committed = db s; working = db s; issued = [] }

abbrev deployment_doc : Doc
deployment_doc = record {
  kind = Kind.deployment;
  name = "d1";
  create = some (api_exception 409 "AlreadyExists");
  patch = none;
}

abbrev docs : List (Option (Result Doc))
docs = none ∷ some (ok deployment_doc) ∷ []

-- A document that is a list ends it, behind those before it.
apply_manifests_list :
    apply_manifests (ok (docs ++ (some (raised (exception "no get")) ∷ docs))) (start ready) ≡ (
      raised (exception "no get"),
      record (start ready) { issued = patched Kind.deployment "d1" ∷ [] },
    )
apply_manifests_list =
    apply_manifests-effects (docs ++ (some (raised (exception "no get")) ∷ docs)) (start ready)

abbrev listing : List Listed
listing = ("d1", some 2) ∷ ("d2", none) ∷ ("gone", some 1) ∷ []

abbrev cluster : Cluster
cluster = record {
  select = none;
  deployments = ok listing;
  services = ok ("d1-svc" ∷ "d2-svc" ∷ []);
  routes = ok ("d1-route" ∷ "d2-route" ∷ []);
  turn =
      λ k. record { render = none; docs = ok docs; execute = none; commit = none; publish = none };
  removal = λ k. record { deployment = none; service = none; route = none };
}

reconcile_deployments-Justified_example :
    Justified listing (db ready) (reconcile_deployments "p1" cluster (start ready)).1.committed
reconcile_deployments-Justified_example =
    reconcile_deployments-Justified listing "p1" cluster (start ready) refl refl

abbrev answers : Outcome → Answers
answers namespace = record {
  schema = none;
  render = none;
  docs = ok docs;
  namespace = namespace;
  ensure_ecr = none;
  delete = none;
  execute = none;
  commit = none;
  rollback = none;
  cluster = cluster;
  error_rollback = none;
  error_update = none;
}

abbrev missing : Outcome
missing = some (api_exception 404 "Not Found")

-- The third attempt finds the table.
abbrev probes : ℕ → Probe
probes (suc (suc n)) = record { connect = none; execute = none; close = none }
probes n = record { connect = some (exception "refused"); execute = none; close = none }
