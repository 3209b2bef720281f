-- ===== src/Api/Env/Tests.antt =====
-- Variables over a table of secrets, each a dict as it is.
use deploy_hub.Prelude.{String, if◌then◌else◌, Option, none, some, [], ◌∷◌}
use deploy_hub.Action.{exception, ok, raised}
use deploy_hub.Dict.{Dict, lookup, assign, has_unique_keys}
use deploy_hub.Schema.{ready, Project}
use deploy_hub.Api.World.{World, user}
use deploy_hub.Api.Access.{User}
use deploy_hub.Api.Env.{Answer, answered, not_found, refused, SecretsManager, Json, Answers}

abbrev Table : Type 0
Table = Dict (Dict String)

abbrev read_row : Option (Dict String) → Answer (Option (Dict String))
read_row none = not_found
read_row (some d) = answered (some d)

abbrev update_row : Option (Dict String) → Table → Answer Table
update_row none w = not_found
update_row (some d) w = answered w

abbrev create_row : Option (Dict String) → Table → Answer Table
create_row none w = answered w
create_row (some d) w = refused (exception "ResourceExistsException")

abbrev table : SecretsManager Table (Dict String)
table = record {
  get_secret_value = λ k v. read_row (lookup k v);
  update_secret = λ k t v. update_row (lookup k v) (assign k t v);
  create_secret = λ k t v. create_row (lookup k v) (assign k t v);
}

abbrev plain : Json (Dict String)
plain = record {
  dumps = λ d. d;
  loads = λ d. if has_unique_keys d then ok d else raised (exception "Expecting value");
  empty_object = [];
}

abbrev shop : Project
shop = record {
  id = "p1";
  owner_id = "ada";
  name = "shop";
  namespace = "shop";
  status = ready;
  webhook_secret = none;
  deleted_at = none;
}

abbrev ada : User
ada = record { user_id = "ada"; role = user }

abbrev empty_world : World
empty_world = record {
  users = [];
  projects = shop ∷ [];
  members = [];
  deployments = [];
  audit_logs = [];
  stream = [];
  published = [];
}

abbrev calm : Answers
calm = record { client = none; get = none; update = none; create = none; audit = none }

abbrev with_key : Table × World
with_key = (("shipzen/project/p1", ("API_KEY", "s3cret") ∷ []) ∷ [], empty_world)
