-- ===== src/Api/Webhook/Rows.antt =====
-- What the two webhooks leave in the deployments table.
use deploy_hub.Prelude.{ℕ, String, ◌==◌, Option, none, some, Bool-cases, Option-cases, inl, inr}
use deploy_hub.Action.{Exn, http_exception, Outcome, raise, pure}
use deploy_hub.Action.Keeps.{Keeps-bind, Keeps-try}
use deploy_hub.Schema.{Deployment, Project, select_project}
use deploy_hub.Text.{truthy}
use deploy_hub.Api.World.{World, transaction, log_audit_event}
use deploy_hub.Api.Deploy.{Answers, new_row, image_uri_of, enqueue, set_failed}
use deploy_hub.Api.Deploy.Rows.{
  AllRows, transaction-Keeps, insert_row-AllRows, enqueue-AllRows, log_audit_event-AllRows,
}
use deploy_hub.Api.Webhook.{
  Payload, Push, Mac, Replies, require_secret, database_error_500, read_secret, is_signed, is_push,
  branch_of, last_deploy, insert_pushed, insert_checked, trigger, with_repo, with_payload, checked,
  with_signature, github_webhook,
}

module _ (P : Deployment → Type 0)
    (is_new : (k repo image : String) (replicas port : ℕ) (a : Answers)
      → P (new_row k repo image replicas port a))
    (writes_failed : (text : String) (d : Deployment) → P d → P (set_failed text d)) where
  abbrev Rows : World → Type 0
  Rows = AllRows P is_new writes_failed

  insert_pushed-Rows :
      (ecr k repo : String) (l : Option Deployment) (a : Answers) (w : World)
      → Rows w
      → Rows (insert_pushed ecr k repo l a w).1
  unfolding insert_pushed
  insert_pushed-Rows ecr k repo none a w h = h
  insert_pushed-Rows ecr k repo (some l) a w h = elim (Bool-cases (l.repo_url == repo)) [
    | inl e ↦ rw e (
        insert_row-AllRows P is_new writes_failed _ a w
          (is_new k repo (image_uri_of ecr k a.deployment_id) 1 l.port a) h)
    | inr e ↦ rw e h
  ]

  insert_checked-Rows :
      (ecr k repo : String) (a : Answers) (w : World)
      → Rows w
      → Rows (insert_checked ecr k repo a w).1
  unfolding insert_checked
  insert_checked-Rows ecr k repo a w h =
      Keeps-try Rows
        (transaction a.connect (λ v. insert_pushed ecr k repo (last_deploy k v.deployments) a v) w)
        (λ _. raise (http_exception 500 "Failed to process webhook"))
        (transaction-Keeps Rows a.connect _ w h
          (insert_pushed-Rows ecr k repo (last_deploy k w.deployments) a w h))
        (λ _ _ g. g)

  trigger-Rows :
      (ecr k repo : String) (p : Payload) (a : Answers) (w : World)
      → Rows w
      → Rows (trigger ecr k repo p a w).1
  unfolding trigger
  trigger-Rows ecr k repo p a w h =
      Keeps-bind Rows (insert_checked ecr k repo a w) _ (insert_checked-Rows ecr k repo a w h)
        λ d v h.
          Keeps-bind Rows
            (enqueue (some (branch_of p)) "Failed to enqueue to stream"
              "Failed to enqueue webhook deployment" a d v)
            _
            (enqueue-AllRows P is_new writes_failed (some (branch_of p))
              "Failed to enqueue to stream" "Failed to enqueue webhook deployment" a d v h)
            λ _ v h.
              Keeps-bind Rows (log_audit_event a.audit _ v) (λ _. pure (some a.deployment_id))
                (log_audit_event-AllRows P is_new writes_failed a.audit _ v h) (λ _ _ g. g)

  with_payload-Rows :
      (ecr k : String) (o : Option Payload) (a : Answers) (w : World)
      → Rows w
      → Rows (with_payload ecr k o a w).1
  unfolding with_payload with_repo
  with_payload-Rows ecr k none a w h = h
  with_payload-Rows ecr k (some p) a w h = go p.clone_url
    where
      go : (r : Option String) → Rows (with_repo ecr k r p a w).1
      go none = h
      go (some repo) = elim (Bool-cases (truthy (some repo))) [
        | inl e ↦ rw e (trigger-Rows ecr k repo p a w h)
        | inr e ↦ rw e h
      ]

  checked-Rows :
      (mac : Mac) (ecr k : String) (push : Push) (signature : String) (a : Answers)
      (secret : String) (w : World)
      → Rows w
      → Rows (checked mac ecr k push signature a secret w).1
  unfolding checked
  checked-Rows mac ecr k push signature a secret w h =
      elim (Bool-cases (is_signed mac secret push signature)) [
        | inl e ↦ rw e (with_payload-Rows ecr k push.payload a w h)
        | inr e ↦ rw e h
      ]

  database_error_500-Rows : (x : Exn) (w : World) → Rows w → Rows (database_error_500 x w).1
  unfolding database_error_500
  database_error_500-Rows (http_exception n s) w h = h
  database_error_500-Rows x w h = h

  require_secret-Rows : (p : Option Project) (w : World) → Rows w → Rows (require_secret p w).1
  unfolding require_secret
  require_secret-Rows none w h = h
  require_secret-Rows (some p) w h = elim (Option-cases p.webhook_secret) [
    | inl n ↦ rw n h
    | inr (s, n) ↦ rw n (elim (Bool-cases (truthy (some s))) [ inl e ↦ rw e h | inr e ↦ rw e h ])
  ]

  read_secret-Rows : (k : String) (o : Outcome) (w : World) → Rows w → Rows (read_secret k o w).1
  unfolding read_secret
  read_secret-Rows k o w h =
      Keeps-try Rows (transaction o (λ v. require_secret (select_project k v.projects) v) w) _
        (transaction-Keeps Rows o _ w h (require_secret-Rows (select_project k w.projects) w h))
        database_error_500-Rows

  with_signature-Rows :
      (mac : Mac) (ecr k : String) (push : Push) (signature : String) (r : Replies) (w : World)
      → Rows w
      → Rows (with_signature mac ecr k push signature r w).1
  unfolding with_signature
  with_signature-Rows mac ecr k push signature r w h = elim (Bool-cases (is_push push.event)) [
    | inl e ↦ rw e (
        Keeps-bind Rows (read_secret k r.secret w) _ (read_secret-Rows k r.secret w h)
          (checked-Rows mac ecr k push signature r.deploy))
    | inr e ↦ rw e h
  ]

  pub github_webhook-Rows :
      (mac : Mac) (ecr k : String) (push : Push) (r : Replies) (w : World)
      → Rows w
      → Rows (github_webhook mac ecr k push r w).1
  unfolding github_webhook
  github_webhook-Rows mac ecr k push r w h = elim (Option-cases push.signature) [
    | inl n ↦ rw n h
    | inr (s, n) ↦ elim (Bool-cases (truthy (some s))) [
      | inl e ↦ rw n (rw e (with_signature-Rows mac ecr k push s r w h))
      | inr e ↦ rw n (rw e h)
    ]
  ]
