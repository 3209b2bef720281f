-- ===== src/Api/Projects/Created/Tests.antt =====
-- A user's first project.
use deploy_hub.Prelude.{◌≡◌, refl, true, false, none, [], ◌∷◌}
use deploy_hub.Api.World.{World, user}
use deploy_hub.Api.Access.{User}
use deploy_hub.Api.RepoUrl.{before_newline}
use deploy_hub.Api.Projects.Namespace.{is_namespace}
use deploy_hub.Api.Projects.{CreateProjectRequest, Answers, new_project, create_project}
use deploy_hub.Api.Projects.Created.{Created, create_project-Created}

abbrev shop : CreateProjectRequest
shop = record { name = "shop"; namespace = "shop" }

abbrev ada : User
ada = record { user_id = "ada"; role = user }

abbrev calm : Answers
calm = record {
  project_id = "p1";
  webhook_secret = "s3cret";
  connect = none;
  insert = none;
  member = none;
  commit = none;
  audit = none;
}

abbrev empty : World
empty = record {
  users = record { id = "ada"; email = none; role = user } ∷ [];
  projects = [];
  members = [];
  deployments = [];
  audit_logs = [];
  stream = [];
  published = [];
}

create_project-Created_example :
    Created (new_project shop ada calm) ada empty (create_project shop ada calm empty).1
unfolding before_newline
create_project-Created_example =
    create_project-Created shop ada calm empty (new_project shop ada calm)
      (unfold create_project in refl)

-- A newline at the end is let in.
is_namespace_examples :
    (is_namespace "shop-1" ≡ true)
    × (is_namespace "shop\n" ≡ true)
    × (is_namespace "ab" ≡ false)
    × (is_namespace "-shop" ≡ false)
    × (is_namespace "shop-" ≡ false)
    × (is_namespace "Shop" ≡ false)
unfolding is_namespace before_newline
is_namespace_examples = (refl, refl, refl, refl, refl, refl)
