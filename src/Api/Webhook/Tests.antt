-- ===== src/Api/Webhook/Tests.antt =====
-- A push that is signed, and the theorem on it.
use Prim.Native.String.{◌++◌ as append}
use deploy_hub.Prelude.{◌≡◌, refl, false, none, some, [], ◌∷◌, arith}
use deploy_hub.Text.{after_last}
use deploy_hub.Schema.{running, ready, Project}
use deploy_hub.Api.World.{World, StreamEntry}
use deploy_hub.Api.Webhook.{Payload, Mac, Push, Replies, github_webhook}
use deploy_hub.Api.Webhook.Authentic.{Quiet, Authentic, github_webhook-Authentic}
use deploy_hub.Api.Deploy.{Answers}
use deploy_hub.Action.{exception}
use deploy_hub.Schema.{Deployment}
use deploy_hub.Api.Webhook.App.{github_app_webhook}
use deploy_hub.Api.Webhook.App.Lookup.{AppAuthentic, github_app_webhook-AppAuthentic}

abbrev shop : Project
shop = record {
  id = "p1";
  owner_id = "ada";
  name = "shop";
  namespace = "shop";
  status = ready;
  webhook_secret = some "s3cret";
  deleted_at = none;
}

abbrev last_row : Deployment
last_row = record {
  deployment_id = "d1";
  project_id = "p1";
  repo_url = "https://github.com/acme/shop.git";
  image_uri = "local/shipzen-builds/p1:d1";
  replicas = 1;
  port = 3000;
  health_check_path = "/";
  state = running;
  updated_at = 4;
  last_error = none;
}

abbrev start : World
start = record {
  users = [];
  projects = shop ∷ [];
  members = [];
  deployments = last_row ∷ [];
  audit_logs = [];
  stream = [];
  published = [];
}

-- A stand-in for HMAC-SHA256.
abbrev joined_mac : Mac
joined_mac secret body = append secret body

abbrev push : Push
push = record {
  signature = some "sha256=s3cret{}";
  event = some "push";
  body = "{}";
  payload = some (record {
    ref = some "refs/heads/main";
    clone_url = some "https://github.com/acme/shop.git";
    html_url = some "https://github.com/acme/shop";
  });
}

abbrev replies : Replies
replies = record {
  secret = none;
  deploy = record {
    deployment_id = "d2";
    now = 10;
    connect = none;
    insert = none;
    commit = none;
    enqueue = none;
    publish = none;
    mark = none;
    audit = none;
  };
}

abbrev queued_entry : StreamEntry
queued_entry = record {
  deployment_id = "d2";
  project_id = "p1";
  repo_url = "https://github.com/acme/shop.git";
  branch = some "main";
  image_name = "local/shipzen-builds/p1:d2";
  is_rollback = false;
}

pushed : (github_webhook joined_mac "" "p1" push replies start).1.stream ≡ queued_entry ∷ []
unfolding github_webhook after_last
pushed = refl

pushed_changes : ¬ Quiet start (github_webhook joined_mac "" "p1" push replies start).1
pushed_changes (d, s) = ground (arith, pushed, s)

github_webhook-Authentic_example : Authentic joined_mac "p1" push start
github_webhook-Authentic_example =
    github_webhook-Authentic joined_mac "" "p1" push replies start pushed_changes

app_pushed :
    (github_app_webhook joined_mac "" (some "s3cret") push none replies.deploy start).1.stream
    ≡ queued_entry ∷ []
unfolding github_app_webhook after_last
app_pushed = refl

app_changes :
    ¬ Quiet start
      (github_app_webhook joined_mac "" (some "s3cret") push none replies.deploy start).1
app_changes (d, s) = ground (arith, app_pushed, s)

github_app_webhook-AppAuthentic_example : AppAuthentic joined_mac (some "s3cret") push start
github_app_webhook-AppAuthentic_example =
    github_app_webhook-AppAuthentic joined_mac "" (some "s3cret") push none replies.deploy start
      app_changes

abbrev no_redis : Answers
no_redis = record replies.deploy { enqueue = some (exception "Connection refused") }

abbrev push_payload : Payload
push_payload = record {
  ref = some "refs/heads/main";
  clone_url = some "https://github.com/acme/shop.git";
  html_url = none;
}
