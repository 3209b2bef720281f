-- ===== src/Api/Webhook/App/Rows.antt =====
-- What `github_app_webhook` leaves in the deployments table.
use deploy_hub.Prelude.{ℕ, String, ◌||◌, false, Option, none, some, Bool-cases, inl, inr}
use deploy_hub.Action.{http_exception, Outcome, raise, pure, try_catch, call}
use deploy_hub.Action.Keeps.{Keeps-bind, Keeps-try, Keeps-call}
use deploy_hub.Schema.{Deployment}
use deploy_hub.Text.{truthy}
use deploy_hub.Api.World.{World, transaction, log_audit_event}
use deploy_hub.Api.Deploy.{
  Answers, new_row, image_uri_of, insert_row, set_failed, add_entry, entry_of,
}
use deploy_hub.Api.Deploy.Rows.{
  AllRows, transaction-Keeps, insert_row-AllRows, log_audit_event-AllRows,
}
use deploy_hub.Api.Webhook.{Payload, Push, Mac, is_signed, is_push, branch_of}
use deploy_hub.Api.Webhook.App.{
  last_match, find_match, app_submit, app_matched, app_payload, app_signed, app_push,
  github_app_webhook,
}

module _ (P : Deployment → Type 0)
    (is_new : (k repo image : String) (replicas port : ℕ) (a : Answers)
      → P (new_row k repo image replicas port a))
    (writes_failed : (text : String) (d : Deployment) → P d → P (set_failed text d)) where
  abbrev Rows : World → Type 0
  Rows = AllRows P is_new writes_failed

  find_match-Rows :
      (p : Payload) (lookup : Outcome) (w : World) → Rows w → Rows (find_match p lookup w).1
  unfolding find_match
  find_match-Rows p lookup w h =
      Keeps-try Rows (transaction lookup (λ v. pure (last_match p v.deployments) v) w)
        (λ _. raise (http_exception 500 "Database error during project lookup"))
        (transaction-Keeps Rows lookup (λ v. pure (last_match p v.deployments) v) w h h)
        (λ _ _ g. g)

  app_submit-Rows :
      (ecr : String) (p : Payload) (l : Deployment) (a : Answers) (w : World)
      → Rows w
      → Rows (app_submit ecr p l a w).1
  unfolding app_submit
  app_submit-Rows ecr p l a w h =
      let d =
        new_row l.project_id l.repo_url (image_uri_of ecr l.project_id a.deployment_id) 1 l.port
          a in
      Keeps-bind Rows
        (try_catch (transaction a.connect (insert_row d a))
          (λ _. raise (http_exception 500 "Failed to process webhook")) w)
        _
        (Keeps-try Rows (transaction a.connect (insert_row d a) w)
          (λ _. raise (http_exception 500 "Failed to process webhook"))
          (transaction-Keeps Rows a.connect (insert_row d a) w h (
            insert_row-AllRows P is_new writes_failed d a w
              (is_new l.project_id l.repo_url (image_uri_of ecr l.project_id a.deployment_id) 1
                l.port a)
              h))
          (λ _ _ g. g))
        λ d v h.
          Keeps-bind Rows
            (try_catch (call a.enqueue (add_entry (entry_of (some (branch_of p)) false d)))
              (λ _. raise (http_exception 500 "Failed to enqueue webhook deployment")) v)
            _
            (Keeps-try Rows (call a.enqueue (add_entry (entry_of (some (branch_of p)) false d)) v)
              (λ _. raise (http_exception 500 "Failed to enqueue webhook deployment"))
              (Keeps-call Rows a.enqueue (add_entry (entry_of (some (branch_of p)) false d)) v h
                (record { rows = h.rows }))
              (λ _ _ g. g))
            λ _ v h.
              Keeps-bind Rows (log_audit_event a.audit _ v) (λ _. pure (some a.deployment_id))
                (log_audit_event-AllRows P is_new writes_failed a.audit _ v h) (λ _ _ g. g)

  app_matched-Rows :
      (ecr : String) (p : Payload) (a : Answers) (o : Option Deployment) (w : World)
      → Rows w
      → Rows (app_matched ecr p a o w).1
  unfolding app_matched
  app_matched-Rows ecr p a none w h = h
  app_matched-Rows ecr p a (some l) w h = app_submit-Rows ecr p l a w h

  app_payload-Rows :
      (ecr : String) (o : Option Payload) (lookup : Outcome) (a : Answers) (w : World)
      → Rows w
      → Rows (app_payload ecr o lookup a w).1
  unfolding app_payload
  app_payload-Rows ecr none lookup a w h = h
  app_payload-Rows ecr (some p) lookup a w h =
      elim (Bool-cases (truthy p.clone_url || truthy p.html_url)) [
        | inl e ↦ rw e (
            Keeps-bind Rows (find_match p lookup w) (app_matched ecr p a)
              (find_match-Rows p lookup w h) (app_matched-Rows ecr p a))
        | inr e ↦ rw e h
      ]

  app_signed-Rows :
      (mac : Mac) (ecr : String) (push : Push) (signature : String) (secret : Option String)
      (lookup : Outcome) (a : Answers) (w : World)
      → Rows w
      → Rows (app_signed mac ecr push signature secret lookup a w).1
  unfolding app_signed
  app_signed-Rows mac ecr push signature none lookup a w h = h
  app_signed-Rows mac ecr push signature (some secret) lookup a w h =
      elim (Bool-cases (truthy (some secret))) [
        | inl e ↦ elim (Bool-cases (is_signed mac secret push signature)) [
          | inl s ↦ rw e (rw s (app_payload-Rows ecr push.payload lookup a w h))
          | inr s ↦ rw e (rw s h)
        ]
        | inr e ↦ rw e h
      ]

  app_push-Rows :
      (mac : Mac) (ecr : String) (push : Push) (signature secret : Option String) (lookup : Outcome)
      (a : Answers) (w : World)
      → Rows w
      → Rows (app_push mac ecr push signature secret lookup a w).1
  unfolding app_push
  app_push-Rows mac ecr push none secret lookup a w h = h
  app_push-Rows mac ecr push (some signature) secret lookup a w h =
      elim (Bool-cases (truthy (some signature))) [
        | inl e ↦ elim (Bool-cases (is_push push.event)) [
          | inl s ↦ rw e (rw s (app_signed-Rows mac ecr push signature secret lookup a w h))
          | inr s ↦ rw e (rw s h)
        ]
        | inr e ↦ rw e h
      ]

  pub github_app_webhook-Rows :
      (mac : Mac) (ecr : String) (secret : Option String) (push : Push) (lookup : Outcome)
      (a : Answers) (w : World)
      → Rows w
      → Rows (github_app_webhook mac ecr secret push lookup a w).1
  unfolding github_app_webhook
  github_app_webhook-Rows mac ecr secret push lookup a w h =
      app_push-Rows mac ecr push push.signature secret lookup a w h
