-- ===== src/Api/Streams/Tests.antt =====
-- The log of a deployment, followed by a member of its project.
use deploy_hub.Prelude.{String, ◌==◌, if◌then◌else◌, ◌≡◌, refl, none, some, List, [], ◌∷◌}
use deploy_hub.Action.{ok}
use deploy_hub.Schema.{building, ready, Deployment, Project}
use deploy_hub.Api.World.{World, user, viewer}
use deploy_hub.Api.Access.{User, verify_project_access}
use deploy_hub.Api.Builds.{get_deployment_or_404, find_deployment}
use deploy_hub.Api.Streams.{Event, notice, message, accepted, websocket_deployment_logs}
use deploy_hub.Api.Streams.Http.{stream_logs, event_stream}
use deploy_hub.Api.Streams.Members.{Entitled, websocket_deployment_logs-Entitled}

abbrev shop : Project
shop = record {
  id = "p1";
  owner_id = "ada";
  name = "shop";
  namespace = "shop";
  status = ready;
  webhook_secret = none;
  deleted_at = none;
}

abbrev row : Deployment
row = record {
  deployment_id = "d1";
  project_id = "p1";
  repo_url = "https://github.com/acme/shop.git";
  image_uri = "reg/shipzen-builds/p1:d1";
  replicas = 1;
  port = 8080;
  health_check_path = "/";
  state = building;
  updated_at = 4;
  last_error = none;
}

abbrev start : World
start = record {
  users = [];
  projects = shop ∷ [];
  members = record { project_id = "p1"; user_id = "bob"; role = viewer } ∷ [];
  deployments = row ∷ [];
  audit_logs = [];
  stream = [];
  published = [];
}

abbrev bob : User
bob = record { user_id = "bob"; role = user }

abbrev lines : List (Event String)
lines = notice ∷ message "Step 1/4" none ∷ message "Step 2/4" none ∷ []

abbrev channel : String → List (Event String)
channel c = if c == "shipzen:logs:d1" then lines else []

sends :
    websocket_deployment_logs channel (some "tok") (ok bob) none none "p1" "d1" start
    ≡ accepted ("Step 1/4" ∷ "Step 2/4" ∷ [])
unfolding websocket_deployment_logs verify_project_access get_deployment_or_404 find_deployment
sends = refl

websocket_deployment_logs-Entitled_example :
    Entitled (ok bob) "p1" "d1" start lines ("Step 1/4" ∷ "Step 2/4" ∷ [])
websocket_deployment_logs-Entitled_example =
    websocket_deployment_logs-Entitled channel (some "tok") (ok bob) none none "p1" "d1" start
      ("Step 1/4" ∷ "Step 2/4" ∷ []) sends

-- As server-sent events, they also go to a member of another project: no deployment "d9" is in "p1".
stream_logs_other :
    stream_logs (λ c. if c == "shipzen:logs:d9" then lines else []) none "p1" "d9" bob start
    ≡ ok ("data: Step 1/4\n\n" ∷ "data: Step 2/4\n\n" ∷ [])
unfolding stream_logs event_stream verify_project_access
stream_logs_other = refl
