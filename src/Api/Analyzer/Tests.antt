-- ===== src/Api/Analyzer/Tests.antt =====
-- A repository with two services and an installed package.
use deploy_hub.Prelude.{String, Option, false, none, some, List, [], ◌∷◌, ◌≡◌, refl, map}
use deploy_hub.Action.{Result, ok, raised, exception}
use deploy_hub.Text.{starts_with, occurs, after_last, has_code}
use deploy_hub.Ordered.{sort}
use deploy_hub.Api.Analyzer.{
  DetectedService, Listing, dir, Dirs, end, sub, any_of, candidates, best, RawConfig, named,
  services_at, read_config, analyze, is_excluded, visit, child_path,
}
use deploy_hub.Api.RepoUrl.{all_codes, before_newline}
use deploy_hub.Api.Analyzer.Request.{
  Clone, Cloned, is_branch, repo_name, analyze_repo, analyze_repo-Cloned,
}
use deploy_hub.Api.Analyzer.Ladder.{services_at-ladder}
use deploy_hub.Api.Analyzer.Walk.{prune, analyze-prune, Settled, analyze-Settled}
use deploy_hub.Api.Analyzer.Services.{
  IsConfigured, AllConfigured, listed_in, services_in, analyze-services_in,
}

abbrev same : String → String
same s = s

abbrev directory : String → List String → Listing
directory name files = record {
  name = name;
  iterdir = none;
  files = files;
  yaml = raised (exception "unreadable");
  package_json = ok "{\"dependencies\": {\"next\": \"14\"}}";
  requirements = raised (exception "no such file");
  subdirs = none;
}

abbrev root : Listing
root = directory "tmp1" ("package.json" ∷ "Gemfile" ∷ [])

abbrev below : Dirs
below =
    sub (dir (directory "node_modules" ("Dockerfile" ∷ "shipzen.yaml" ∷ [])) end)
      (sub (dir (directory "api" ("go.mod" ∷ [])) end) end)

abbrev clean : Dirs
clean = sub (dir (directory "api" ("go.mod" ∷ [])) end) end

-- A builder that is set.
abbrev static_config : Option RawConfig
static_config = some (record {
  builder = some "static";
  port = none;
  replicas = none;
  health_check_path = none;
  build_args = [];
  extra = [];
})

services_at-ladder_example :
    map (λ s. s.type) (services_at same "shop" "" root static_config) ≡ named "static" ∷ []
unfolding candidates any_of
services_at-ladder_example = services_at-ladder same "shop" "" root static_config

analyze-prune_example :
    analyze same "shop" (some (dir root below))
    ≡ analyze same "shop" (some (prune (dir root below)))
analyze-prune_example = analyze-prune same "shop" (dir root below)

analyze-Settled_example : Settled (read_config root) (analyze same "shop" (some (dir root below)))
analyze-Settled_example = analyze-Settled same "shop" root below refl

root-IsConfigured : IsConfigured root
unfolding read_config
root-IsConfigured = (none, refl)

clean-AllConfigured : AllConfigured clean
unfolding read_config
clean-AllConfigured = ((none, refl), (tt, tt))

analyze-services_in_example :
    analyze same "shop" (some (dir root clean))
    ≡ ok (listed_in same "shop" "" root (services_in same "shop" "" clean))
analyze-services_in_example =
    analyze-services_in same "shop" root clean root-IsConfigured clean-AllConfigured

names : Result (List DetectedService) → List String
names (raised e) = []
names (ok ss) = map (λ s. s.path) ss

two_services : names (analyze same "shop" (some (dir root below))) ≡ "" ∷ "api" ∷ []
unfolding names analyze candidates is_excluded starts_with occurs read_config best sort visit
    child_path
two_services = refl

abbrev cloned : Clone
cloned = record { tmpdir = "/tmp/tmp1"; make = none; clone = none; cloned = some (dir root clean) }

names_repository : repo_name "https://github.com/acme/shop.git" ≡ "shop"
unfolding repo_name after_last has_code
names_repository = refl

refuses_branch : is_branch "main; reboot" ≡ false
unfolding is_branch all_codes before_newline
refuses_branch = refl

analyze_repo-Cloned_example :
    Cloned same "main" "https://github.com/acme/shop.git" cloned []
      (analyze_repo same "main" "https://github.com/acme/shop.git" cloned [])
analyze_repo-Cloned_example =
    analyze_repo-Cloned same "main" "https://github.com/acme/shop.git" cloned []
