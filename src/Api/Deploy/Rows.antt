-- ===== src/Api/Deploy/Rows.antt =====
-- What `create_deployment` and `rollback_deployment` leave in the deployments table.
use deploy_hub.Prelude.{ℕ, String, true, false, Option, none, some, All, Bool-cases, inl, inr}
use deploy_hub.Action.{
  http_exception, Outcome, Action, Result, ok, raised, call, raise, attempt, modify, pure, ◌>>◌,
}
use deploy_hub.Action.Keeps.{Keeps-bind, Keeps-try, Keeps-call}
use deploy_hub.Schema.{Deployment, Project, update_deployment}
use deploy_hub.Schema.Rows.{All-update}
use deploy_hub.Api.World.{World, AuditEvent, transaction, settle, log_audit_event}
use deploy_hub.Api.Access.{User}
use deploy_hub.Api.Deploy.{
  Answers, CreateDeploymentRequest, image_uri_of, new_row, add_row, add_entry, entry_of, accepts,
  insert_row, set_failed, enqueue_failed, enqueue, audit, insert_new, submit, create_deployment,
  last_good, copy_good, insert_copy, announce, rollback_deployment,
}

-- A block that fails leaves what was there.
settle-Keeps :
    {A : Type 0} (Q : World → Type 0) (w : World) (p : Result A × World)
    → Q w
    → Q p.1
    → Q (settle w p).1
settle-Keeps Q w (ok a, v) h k = k
settle-Keeps Q w (raised e, v) h k = h

pub transaction-Keeps :
    {A : Type 0} (Q : World → Type 0) (o : Outcome) (m : Action World A) (w : World)
    → Q w
    → Q (m w).1
    → Q (transaction o m w).1
transaction-Keeps Q none m w h k = settle-Keeps Q w (m w) h k
transaction-Keeps Q (some e) m w h k = h

-- A predicate of rows that holds of new ones, and of one that is set to Failed.
module _ (P : Deployment → Type 0)
    (is_new : (k repo image : String) (replicas port : ℕ) (a : Answers)
      → P (new_row k repo image replicas port a))
    (writes_failed : (text : String) (d : Deployment) → P d → P (set_failed text d)) where
  -- It holds of every row.
  pub record AllRows (w : World) : Type 0 where
    pub rows : All P w.deployments

  pub log_audit_event-AllRows :
      (o : Outcome) (e : AuditEvent) (w : World) → AllRows w → AllRows (log_audit_event o e w).1
  unfolding log_audit_event
  log_audit_event-AllRows none e w h = record { rows = h.rows }
  log_audit_event-AllRows (some x) e w h = record { rows = h.rows }

  pub insert_row-AllRows :
      (d : Deployment) (a : Answers) (w : World) → P d → AllRows w → AllRows (insert_row d a w).1
  unfolding insert_row
  insert_row-AllRows d a w p h =
      Keeps-bind AllRows ((call a.insert (add_row d) >> call a.commit (λ u. u)) w) (λ _. pure d)
        (Keeps-bind AllRows (call a.insert (add_row d) w) (λ _. call a.commit (λ u. u))
          (Keeps-call AllRows a.insert (add_row d) w h (record { rows = (p, h.rows) }))
          (λ _ v h. Keeps-call AllRows a.commit (λ u. u) v h h))
        (λ _ _ g. g)

  enqueue_failed-AllRows :
      (k text detail : String) (o : Outcome) (w : World)
      → AllRows w
      → AllRows (enqueue_failed k text detail o w).1
  unfolding enqueue_failed
  enqueue_failed-AllRows k text detail o w h =
      Keeps-bind AllRows (attempt (transaction o (modify fail)) w)
        (λ _. raise (http_exception 500 detail))
        (Keeps-try AllRows (transaction o (modify fail) w) (λ _. pure tt)
          (transaction-Keeps AllRows o (modify fail) w h failed_rows) (λ _ _ g. g))
        (λ _ _ g. g)
    where
      fail : World → World
      fail v = record v { deployments = update_deployment k (set_failed text) v.deployments }

      failed_rows : AllRows (fail w)
      failed_rows = record {
        rows = All-update P k (set_failed text) w.deployments (writes_failed text) h.rows;
      }

  pub enqueue-AllRows :
      (branch : Option String) (text detail : String) (a : Answers) (d : Deployment) (w : World)
      → AllRows w
      → AllRows (enqueue branch text detail a d w).1
  unfolding enqueue
  enqueue-AllRows branch text detail a d w h =
      Keeps-try AllRows (call a.enqueue (add_entry (entry_of branch false d)) w)
        (λ e. enqueue_failed d.deployment_id text detail a.mark)
        (Keeps-call AllRows a.enqueue (add_entry (entry_of branch false d)) w h
          (record { rows = h.rows }))
        (λ _. enqueue_failed-AllRows d.deployment_id text detail a.mark)

  insert_new-AllRows :
      (d : Deployment) (a : Answers) (w : World) → P d → AllRows w → AllRows (insert_new d a w).1
  unfolding insert_new
  insert_new-AllRows d a w p h =
      Keeps-try AllRows (transaction a.connect (insert_row d a) w)
        (λ e. raise (http_exception 500 "Failed to create deployment"))
        (transaction-Keeps AllRows a.connect (insert_row d a) w h (insert_row-AllRows d a w p h))
        (λ _ _ g. g)

  submit-AllRows :
      (ecr : String) (p : Project) (u : User) (body : CreateDeploymentRequest) (a : Answers)
      (w : World)
      → AllRows w
      → AllRows (submit ecr p u body a w).1
  unfolding submit audit
  submit-AllRows ecr p u body a w h =
      let d = new_row p.id body.repo_url (image_uri_of ecr p.id a.deployment_id) 1 body.port a in
      Keeps-bind AllRows (insert_new d a w) _
        (insert_new-AllRows d a w
          (is_new p.id body.repo_url (image_uri_of ecr p.id a.deployment_id) 1 body.port a) h)
        λ d v h.
          Keeps-bind AllRows
            (enqueue body.branch "Failed to enqueue to Redis" "Failed to enqueue deployment" a d v)
            _
            (enqueue-AllRows body.branch "Failed to enqueue to Redis" "Failed to enqueue deployment"
              a d v h)
            λ _ v h.
              Keeps-bind AllRows (audit p.id u.user_id "DEPLOY" a v) (λ _. pure d)
                (log_audit_event-AllRows a.audit _ v h) (λ _ _ g. g)

  pub create_deployment-AllRows :
      (ecr : String) (p : Project) (u : User) (body : CreateDeploymentRequest) (a : Answers)
      (w : World)
      → AllRows w
      → AllRows (create_deployment ecr p u body a w).1
  unfolding create_deployment
  create_deployment-AllRows ecr p u body a w h = elim (Bool-cases (accepts p.status)) [
    | inl e ↦ rw e (submit-AllRows ecr p u body a w h)
    | inr e ↦ rw e h
  ]

  copy_good-AllRows :
      (k : String) (o : Option Deployment) (a : Answers) (w : World)
      → AllRows w
      → AllRows (copy_good k o a w).1
  unfolding copy_good
  copy_good-AllRows k none a w h = h
  copy_good-AllRows k (some g) a w h =
      insert_row-AllRows (new_row k g.repo_url g.image_uri g.replicas g.port a) a w
        (is_new k g.repo_url g.image_uri g.replicas g.port a) h

  announce-AllRows :
      (a : Answers) (d : Deployment) (w : World) → AllRows w → AllRows (announce a d w).1
  unfolding announce
  announce-AllRows a d w h =
      Keeps-try AllRows _ (λ _. pure tt)
        (Keeps-bind AllRows (call a.enqueue (add_entry (entry_of (some "main") true d)) w) _
          (Keeps-call AllRows a.enqueue (add_entry (entry_of (some "main") true d)) w h
            (record { rows = h.rows }))
          λ _ v h. Keeps-call AllRows a.publish _ v h (record { rows = h.rows }))
        (λ _ _ g. g)

  pub rollback_deployment-AllRows :
      (p : Project) (u : User) (a : Answers) (w : World)
      → AllRows w
      → AllRows (rollback_deployment p u a w).1
  unfolding rollback_deployment insert_copy audit
  rollback_deployment-AllRows p u a w h =
      Keeps-bind AllRows (insert_copy p.id a w) _
        (transaction-Keeps AllRows a.connect _ w h
          (copy_good-AllRows p.id (last_good p.id w.deployments) a w h))
        λ d v h. Keeps-bind AllRows (announce a d v) _ (announce-AllRows a d v h) λ _ v h.
          Keeps-bind AllRows (audit p.id u.user_id "ROLLBACK" a v) (λ _. pure d.deployment_id)
            (log_audit_event-AllRows a.audit _ v h) (λ _ _ g. g)
