-- ===== src/Api/Tests.antt =====
-- Concrete accounts, projects and requests, and the theorems on them.
use deploy_hub.Prelude.{
  ℕ, String, ◌≡◌, refl, sym, ◌∙◌, ◌↔◌, ◌⊎◌, inl, inr, true, none, some, [], ◌∷◌,
}
use deploy_hub.Action.{exception, ok}
use deploy_hub.Schema.{running, ready, Deployment, Project}
use deploy_hub.Api.World.{viewer, log_audit_event, World, admin, user, Account, owner, role_in}
use deploy_hub.Api.Access.{User, live_project, verify_project_access}
use deploy_hub.Api.Access.Exact.{IsProject, IsMember, HasUniqueIds, verify_project_access_exact}
use mathlib.Core.List.{Memᴰ}
use mathlib.Core.List.Memᴰ.{cases_cons}
use deploy_hub.Api.Members.{may_manage, remove_project_member, delete_project}
use deploy_hub.Api.Members.Owners.{delete_project_revokes, remove_project_member_keeps_owners}
use deploy_hub.Api.Deploy.{Answers, CreateDeploymentRequest, create_deployment}
use deploy_hub.Api.Deploy.Laws.{QueuedTogether, create_deployment-QueuedTogether}

abbrev shop : Project
shop = record {
  id = "p1";
  owner_id = "ada";
  name = "shop";
  namespace = "shop";
  status = ready;
  webhook_secret = some "s3cret";
  deleted_at = none;
}

abbrev running_row : String → ℕ → Deployment
running_row k now = record {
  deployment_id = k;
  project_id = "p1";
  repo_url = "https://github.com/acme/shop.git";
  image_uri = "reg/shipzen-builds/p1:d1";
  replicas = 2;
  port = 3000;
  health_check_path = "/";
  state = running;
  updated_at = now;
  last_error = none;
}

abbrev bare : World
bare = record {
  users = [];
  projects = shop ∷ [];
  members = record { project_id = "p1"; user_id = "ada"; role = owner } ∷ [];
  deployments = running_row "d1" 4 ∷ running_row "d2" 9 ∷ [];
  audit_logs = [];
  stream = [];
  published = [];
}

abbrev ada : User
ada = record { user_id = "ada"; role = user }

abbrev no_redis : Answers
no_redis = record {
  deployment_id = "d3";
  now = 10;
  connect = none;
  insert = none;
  commit = none;
  enqueue = some (exception "Connection refused");
  publish = none;
  mark = none;
  audit = none;
}

abbrev request : CreateDeploymentRequest
request = record {
  repo_url = "https://github.com/acme/shop.git";
  port = 8080;
  branch = some "main";
}

one_project : (a : Project) → Memᴰ a (shop ∷ []) → a ≡ shop
one_project a m = elim (cases_cons m) [ inl e ↦ e | inr n ↦ elim n [ ] ]

bare-HasUniqueIds : HasUniqueIds bare.projects
bare-HasUniqueIds a b m n e = one_project a m ∙ sym (one_project b n)

verify_project_access_exact_example :
    (verify_project_access none "p1" ada bare ≡ (ok shop, bare))
    ↔ (IsProject "p1" shop bare.projects × ((ada.role ≡ admin) ⊎ IsMember "p1" "ada" bare.members))
verify_project_access_exact_example =
    verify_project_access_exact "p1" ada bare shop bare-HasUniqueIds

abbrev first_account : Account
first_account = record { id = "ada"; email = none; role = admin }

create_deployment-QueuedTogether_example :
    QueuedTogether
      (some "main")
      no_redis
      bare
      (create_deployment "reg/base" shop ada request no_redis bare)
create_deployment-QueuedTogether_example =
    create_deployment-QueuedTogether "reg/base" shop ada request no_redis bare refl

abbrev team : World
team = record bare {
  members =
      record { project_id = "p1"; user_id = "ada"; role = owner }
      ∷ record { project_id = "p1"; user_id = "bob"; role = viewer }
      ∷ [];
}

delete_project_revokes_example :
    (may_manage "p1" ada team.members ≡ true)
    × (live_project "p1" (delete_project "p1" ada none none none 12 team).1.projects ≡ none)
delete_project_revokes_example =
    delete_project_revokes "p1" ada none none none 12 team
      (unfold delete_project role_in log_audit_event in refl)

remove_project_member_keeps_owners_example :
    role_in "p1" "ada" (remove_project_member "p1" "bob" ada none none team).1.members ≡ some owner
remove_project_member_keeps_owners_example =
    remove_project_member_keeps_owners "p1" "bob" ada none none team "p1" "ada"
      (unfold role_in in refl)

abbrev eve : Account
eve = record { id = "eve"; email = some "eve@example.org"; role = user }

abbrev invited : World
invited = record team { users = eve ∷ [] }
