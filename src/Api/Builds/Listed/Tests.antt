-- ===== src/Api/Builds/Listed/Tests.antt =====
-- Two builds of a deployment, and one of another.
use deploy_hub.Prelude.{ℕ, String, ◌≡◌, refl, none, [], ◌∷◌}
use deploy_hub.Action.{ok}
use deploy_hub.Schema.{queued, success, Deployment}
use deploy_hub.Ordered.{sort}
use deploy_hub.Api.Builds.{find_deployment}
use deploy_hub.Api.Builds.Listed.{Started, list_builds}

abbrev row : Deployment
row = record {
  deployment_id = "d1";
  project_id = "p1";
  repo_url = "https://github.com/acme/shop.git";
  image_uri = "reg/shop:d1";
  replicas = 1;
  port = 8080;
  health_check_path = "/";
  state = queued;
  updated_at = 1;
  last_error = none;
}

abbrev build : String → String → ℕ → Started
build b k t = (
  record {
    build_id = b;
    deployment_id = k;
    s3_log_uri = "s3://logs/b";
    status = success;
    completed_at = none;
  },
  t,
)

lists_latest_first :
    list_builds none none "p1" "d1"
      (row ∷ [])
      (build "b1" "d1" 1 ∷ build "b2" "d2" 2 ∷ build "b3" "d1" 3 ∷ [])
    ≡ ok (build "b3" "d1" 3 ∷ build "b1" "d1" 1 ∷ [])
unfolding list_builds find_deployment sort
lists_latest_first = refl
