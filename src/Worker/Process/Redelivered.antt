-- ===== src/Worker/Process/Redelivered.antt =====
-- A message that is delivered while its deployment is under way, and one that is delivered again.
use deploy_hub.Prelude.{
  String, ◌≡◌, refl, ap, ◌∙◌, inl, inr, Bool, true, false, Option, none, some, arith,
}
use deploy_hub.Text.{truthy}
use deploy_hub.Schema.{Deployment, select_deployment}
use deploy_hub.Worker.World.{World, Message}
use deploy_hub.Worker.Process.{
  Answers, Request, process_message, parse_message, request_of, or_main, is_true, is_in_progress,
}
use deploy_hub.Worker.Process.Branches.{OnlyAcked, process_message_in_progress}
use deploy_hub.Worker.Process.Fates.{IsUnderWay}

-- The message names this deployment, a repository and an image, none of them empty.
pub record Names (m : Message) (k : String) : Type 0 where
  pub repo : String
  pub image : String
  pub deployment_id : m.deployment_id ≡ some k
  pub repo_url : m.repo_url ≡ some repo
  pub image_name : m.image_name ≡ some image
  pub id_given : truthy (some k) ≡ true
  pub repo_given : truthy (some repo) ≡ true
  pub image_given : truthy (some image) ≡ true

-- The request of such a message.
abbrev asked_for : (m : Message) (k : String) → Names m k → Request
unfolding or_main is_true
asked_for m k n = record {
  deployment_id = k;
  repo_url = n.repo;
  image_name = n.image;
  branch = or_main m.branch;
  is_rollback = is_true m.is_rollback;
}

parse-Names : (m : Message) (k : String) (n : Names m k) → parse_message m ≡ some (asked_for m k n)
unfolding parse_message request_of asked_for
parse-Names m k n =
    rw (n.deployment_id, n.repo_url, n.image_name)
      (ground (arith, n.id_given, n.repo_given, n.image_given))

row_in_progress : (d : Deployment) → IsUnderWay d → is_in_progress (some d) ≡ true
row_in_progress d (inl h) = rw h refl
row_in_progress d (inr (inl h)) = rw h refl
row_in_progress d (inr (inr h)) = rw h refl

under_way_in_progress :
    (o : Option Deployment) (d : Deployment) → o ≡ some d → IsUnderWay d → is_in_progress o ≡ true
under_way_in_progress o d e u = ap is_in_progress e ∙ row_in_progress d u

-- While the row of a deployment is Building, Deploying or Running, a message that names the deployment,
-- a repository and an image, none of them empty, is acknowledged at most: no row changes and no other
-- call is made, whatever the database answers.
pub process_message-OnlyAcked :
    (message_id : String) (m : Message) (a : Answers) (w : World) (k : String) (d : Deployment)
    → Names m k
    → select_deployment k w.deployments ≡ some d
    → IsUnderWay d
    → OnlyAcked message_id w (process_message message_id m a w).1
unfolding asked_for
process_message-OnlyAcked message_id m a w k d n s u =
    process_message_in_progress message_id m a w (asked_for m k n) (parse-Names m k n)
      (under_way_in_progress (select_deployment k w.deployments) d s u)

id_of : Option Request → Option String
id_of none = none
id_of (some q) = some q.deployment_id

rolls_back : Option Request → Bool
rolls_back none = false
rolls_back (some q) = q.is_rollback
