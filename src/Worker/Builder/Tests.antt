-- ===== src/Worker/Builder/Tests.antt =====
-- Jobs of concrete deployments.
use deploy_hub.Prelude.{String, true, none, some, ◌≡◌, refl}
use deploy_hub.Action.{ok}
use deploy_hub.Text.{has_code, split}
use deploy_hub.Api.RepoUrl.{all_codes, is_repo_url}
use deploy_hub.Json.{Json}
use deploy_hub.Worker.Builder.{
  buildpack_builder, Overrides, Registry, generate_job_manifest, get_ecr_credentials,
}
use deploy_hub.Worker.Builder.Choice.{IsJobFor}
use deploy_hub.Worker.Builder.Clone.{Clones, generate-Clones}
use deploy_hub.Worker.Builder.Samples.{test_registry}

abbrev no_overrides : Overrides
no_overrides = record {
  inject_server_js = true;
  bp_node_run_scripts = some "build";
  runtime = none;
}

abbrev shop : String
shop = "https://github.com/acme/shop.git"

shop-IsUrl : is_repo_url shop ≡ true
unfolding is_repo_url
shop-IsUrl = refl

abbrev shop_job : Json
shop_job =
    generate_job_manifest buildpack_builder test_registry "d1" shop "feature/cart-2" "reg/x:d1"
      no_overrides

generate-Clones_example : IsJobFor "d1" shop_job × Clones "feature/cart-2" shop shop_job
generate-Clones_example =
    generate-Clones buildpack_builder test_registry "d1" shop "feature/cart-2" "reg/x:d1"
      no_overrides (unfold all_codes in refl) shop-IsUrl (unfold has_code in refl)

-- Credentials of ECR: the password behind the first colon, and nothing where there is no colon.
abbrev with_token : String → Registry
with_token s = record test_registry { token = ok "QVdTOnB3"; b64decode = λ t. ok s }

reads_password : get_ecr_credentials (with_token "AWS:pw") ≡ ("QVdTOnB3", "pw")
unfolding get_ecr_credentials split
reads_password = refl

reads_nothing : get_ecr_credentials (with_token "pw") ≡ ("", "")
unfolding get_ecr_credentials split
reads_nothing = refl
