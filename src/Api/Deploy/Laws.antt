-- ===== src/Api/Deploy/Laws.antt =====
-- The row and the message of a request: both, or neither.
use deploy_hub.Prelude.{
  String, eq_refl, ◌≡◌, ◌≢◌, refl, ◌⊎◌, inl, inr, true, false, Option, none, some, ◌∷◌, arith,
  Bool-cases, Option-cases,
}
use deploy_hub.Action.{Result, ok, raised}
use deploy_hub.Schema.{queued, failed, Deployment, update_deployment, select_deployment, Project}
use deploy_hub.Api.World.{World, log_audit_event}
use deploy_hub.Api.Access.{User}
use deploy_hub.Api.Deploy.{
  Answers, CreateDeploymentRequest, entry_of, add_row, new_row, set_failed, insert_row, insert_new,
  enqueue, enqueue_failed, audit, last_good, copy_good, insert_copy, announce, rollback_deployment,
  submit, image_uri_of, accepts, create_deployment,
}

-- The row of this id is Failed.
abbrev pub IsFailed : String → World → Type 0
IsFailed k w = (d : Deployment) × (select_deployment k w.deployments ≡ some d) × (d.state ≡ failed)

-- The row is Queued and its message is on the stream; or there is no message, and no row that waits
-- for one.
abbrev pub QueuedTogether : Option String → Answers → World → Result Deployment × World → Type 0
QueuedTogether branch a w (ok d, v) =
    (d.state ≡ queued)
    × (v.deployments ≡ d ∷ w.deployments)
    × (v.stream ≡ entry_of branch false d ∷ w.stream)
QueuedTogether branch a w (raised e, v) =
    (v.stream ≡ w.stream) × ((v.deployments ≡ w.deployments) ⊎ IsFailed a.deployment_id v)

marked-IsFailed :
    (d : Deployment) (text : String) (w : World)
    → IsFailed d.deployment_id (record (add_row d w) {
      deployments = update_deployment d.deployment_id (set_failed text) (d ∷ w.deployments);
    })
unfolding update_deployment select_deployment
marked-IsFailed d text w =
    rw (eq_refl d.deployment_id) (rw (eq_refl d.deployment_id) (_, refl, refl))

submit-QueuedTogether :
    (ecr : String) (p : Project) (u : User) (body : CreateDeploymentRequest) (a : Answers)
    (w : World)
    → a.mark ≡ none
    → QueuedTogether body.branch a w (submit ecr p u body a w)
unfolding submit insert_new insert_row enqueue enqueue_failed audit log_audit_event
submit-QueuedTogether ecr p u body a w m = ground (
  arith,
  marked-IsFailed (new_row p.id body.repo_url (image_uri_of ecr p.id a.deployment_id) 1 body.port a)
      "Failed to enqueue to Redis" w,
)

-- If the database lets the row be set to Failed when it is asked to, then a request either returns a
-- row that is Queued with its message on the stream; or it fails, no message was sent, and the table
-- is as it was or the row of the request is Failed.
pub create_deployment-QueuedTogether :
    (ecr : String) (p : Project) (u : User) (body : CreateDeploymentRequest) (a : Answers)
    (w : World)
    → a.mark ≡ none
    → QueuedTogether body.branch a w (create_deployment ecr p u body a w)
unfolding create_deployment
create_deployment-QueuedTogether ecr p u body a w m = elim (Bool-cases (accepts p.status)) [
  | inl e ↦ rw e (submit-QueuedTogether ecr p u body a w m)
  | inr e ↦ rw e (refl, inl refl)
]

-- A request that returns has made this row, and its message is on the stream.
abbrev pub Created :
    String
    → Project
    → CreateDeploymentRequest
    → Answers
    → World
    → Result Deployment × World
    → Type 0
Created ecr p body a w (ok d, v) =
    (d ≡ new_row p.id body.repo_url (image_uri_of ecr p.id a.deployment_id) 1 body.port a)
    × (v.stream ≡ entry_of body.branch false d ∷ w.stream)
Created ecr p body a w (raised e, v) = Unit

submit-Created :
    (ecr : String) (p : Project) (u : User) (body : CreateDeploymentRequest) (a : Answers)
    (w : World)
    → Created ecr p body a w (submit ecr p u body a w)
unfolding submit insert_new insert_row enqueue enqueue_failed audit log_audit_event
submit-Created ecr p u body a w = ground arith

pub create_deployment-Created :
    (ecr : String) (p : Project) (u : User) (body : CreateDeploymentRequest) (a : Answers)
    (w : World)
    → Created ecr p body a w (create_deployment ecr p u body a w)
unfolding create_deployment
create_deployment-Created ecr p u body a w = elim (Bool-cases (accepts p.status)) [
  | inl e ↦ rw e (submit-Created ecr p u body a w)
  | inr e ↦ rw e tt
]

-- What a rollback leaves: the new row is Queued and is the last good one under a new id, and its
-- message is on the stream exactly if Redis took it.
abbrev pub RolledBack : Project → Answers → World → Result String × World → Type 0
RolledBack p a w (ok k, v) =
    (k ≡ a.deployment_id)
    × ((g : Deployment) × (d : Deployment) × (last_good p.id w.deployments ≡ some g)
        × (d ≡ new_row p.id g.repo_url g.image_uri g.replicas g.port a)
        × (v.deployments ≡ d ∷ w.deployments)
        × (((a.enqueue ≡ none) × (v.stream ≡ entry_of (some "main") true d ∷ w.stream))
            ⊎ ((a.enqueue ≢ none) × (v.stream ≡ w.stream))))
RolledBack p a w (raised e, v) = v ≡ w

nothing_stage :
    (p : Project) (u : User) (a : Answers) (w : World)
    → last_good p.id w.deployments ≡ none
    → RolledBack p a w (rollback_deployment p u a w)
unfolding rollback_deployment insert_copy copy_good
nothing_stage p u a w h = ground (arith, h)

announce_stage :
    (p : Project) (u : User) (a : Answers) (g : Deployment) (w : World)
    → last_good p.id w.deployments ≡ some g
    → RolledBack p a w (rollback_deployment p u a w)
unfolding rollback_deployment insert_copy copy_good insert_row announce audit log_audit_event
announce_stage p u a g w h = ground (arith, h)

pub rollback_deployment-RolledBack :
    (p : Project) (u : User) (a : Answers) (w : World)
    → RolledBack p a w (rollback_deployment p u a w)
rollback_deployment-RolledBack p u a w = elim (Option-cases (last_good p.id w.deployments)) [
  | inl e ↦ nothing_stage p u a w e
  | inr (g, e) ↦ announce_stage p u a g w e
]
