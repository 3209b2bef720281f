-- ===== src/Handoff.antt =====
-- The stream between the API and the worker: what api/main.py puts on it with XADD is what
-- `process_message` of worker/main.py reads.
pub mod Logs
pub mod Jobs
mod Tests
use deploy_hub.Prelude.{
  ℕ, String, ◌==◌, eq_refl, ◌≡◌, refl, sym, ap, ◌∙◌, ◌⊎◌, inl, inr, Bool, true, false, Option, none,
  some, List, [], ◌∷◌, if◌then◌else◌, arith, Bool-cases,
}
use deploy_hub.Action.{Result, ok, raised}
use deploy_hub.Text.{truthy}
use deploy_hub.Schema.{queued, Deployment, select_deployment, Project}
use deploy_hub.Worker.World.{Message}
use deploy_hub.Worker.World as Worker
use deploy_hub.Worker.Process.{Request, parse_message, is_in_progress, process_message}
use deploy_hub.Worker.Process as Process
use deploy_hub.Worker.Process.Branches.{RolledForward, process_message_rollback}
use deploy_hub.Api.World.{World, StreamEntry}
use deploy_hub.Api.Access.{User}
use deploy_hub.Api.Deploy.{
  Answers, new_row, entry_of, last_good, rollback_deployment, CreateDeploymentRequest,
  create_deployment, image_uri_of,
}
use deploy_hub.Api.Deploy.Laws.{rollback_deployment-RolledBack, RolledBack}

-- The fields of an entry as the worker's client decodes them; `is_rollback` is there for a rollback.
pub message_of : StreamEntry → Message
message_of e = record {
  deployment_id = some e.deployment_id;
  repo_url = some e.repo_url;
  branch = e.branch;
  image_name = some e.image_name;
  is_rollback = if e.is_rollback then some "true" else none;
}

-- The request that the worker has to make of an entry.
abbrev pub request_for : StreamEntry → Request
request_for e = record {
  deployment_id = e.deployment_id;
  repo_url = e.repo_url;
  image_name = e.image_name;
  branch = elim e.branch [ none ↦ "main" | some b ↦ b ];
  is_rollback = e.is_rollback;
}

-- Every entry whose fields are not empty is taken up by the worker, with the deployment, the
-- repository, the branch, the image and the kind that the API put into it.
pub message_of-parse :
    (e : StreamEntry)
    → truthy (some e.deployment_id) ≡ true
    → truthy (some e.repo_url) ≡ true
    → truthy (some e.image_name) ≡ true
    → parse_message (message_of e) ≡ some (request_for e)
unfolding parse_message message_of
message_of-parse e d r i = ground (arith, d, r, i)

select_new :
    (d : Deployment) (ds : List Deployment) → select_deployment d.deployment_id (d ∷ ds) ≡ some d
unfolding select_deployment
select_new d ds = rw (eq_refl d.deployment_id) refl

-- The entry of a rollback to `g`.
abbrev pub rollback_entry : Project → Deployment → Answers → StreamEntry
rollback_entry p g a =
    entry_of (some "main") true (new_row p.id g.repo_url g.image_uri g.replicas g.port a)

-- What the worker makes of the entry of a rollback, in a database that has its row, still Queued.
forwarded :
    (p : Project) (g : Deployment) (a : Answers) (ds : List Deployment) (message_id : String)
    (answers : Process.Answers) (v : Worker.World)
    → truthy (some a.deployment_id) ≡ true
    → truthy (some g.repo_url) ≡ true
    → truthy (some g.image_uri) ≡ true
    → v.deployments ≡ new_row p.id g.repo_url g.image_uri g.replicas g.port a ∷ ds
    → RolledForward a.deployment_id v
        (process_message message_id (message_of (rollback_entry p g a)) answers v)
forwarded p g a ds message_id answers v d r i e =
    process_message_rollback message_id (message_of (rollback_entry p g a)) answers v
      (request_for (rollback_entry p g a)) (message_of-parse (rollback_entry p g a) d r i)
      (ap (λ l. is_in_progress (select_deployment a.deployment_id l)) e
        ∙ ap is_in_progress
            (select_new (new_row p.id g.repo_url g.image_uri g.replicas g.port a) ds))
      refl

some_inj : {b c : Deployment} → some b ≡ some c → b ≡ c
some_inj e = ground (arith, e)

rolled_stage :
    (p : Project) (a : Answers) (w : World) (g : Deployment) (r : Result String × World)
    → RolledBack p a w r
    → r.0 ≡ ok a.deployment_id
    → a.enqueue ≡ none
    → last_good p.id w.deployments ≡ some g
    → (r.1.deployments ≡ new_row p.id g.repo_url g.image_uri g.replicas g.port a ∷ w.deployments)
      × (r.1.stream ≡ rollback_entry p g a ∷ w.stream)
rolled_stage p a w g (ok k, v) (_, (g', d, lg, de, rows, inl (_, st))) o q l =
    let e : g' ≡ g = some_inj (sym lg ∙ l) in
    let de' : d ≡ new_row p.id g.repo_url g.image_uri g.replicas g.port a =
      de ∙ ap (λ b. new_row p.id b.repo_url b.image_uri b.replicas b.port a) e in
    (
      rows ∙ ap (λ b. b ∷ w.deployments) de',
      st ∙ ap (λ b. entry_of (some "main") true b ∷ w.stream) de',
    )
rolled_stage p a w g (ok k, v) (_, (g', d, lg, de, rows, inr (ne, _))) o q l = absurd (ne q)
rolled_stage p a w g (raised x, v) h o q l = ground (arith, o)

-- A rollback from the API to the worker: if `rollback_deployment` returns and Redis took its message,
-- then the newest entry of the stream is a message that the worker, on the rows as the API left them,
-- handles as a rollback: when `process_message` returns, the new row is Deploying with no error.
pub rollback-handoff :
    (p : Project) (u : User) (a : Answers) (w : World) (g : Deployment) (message_id : String)
    (answers : Process.Answers) (v : Worker.World)
    → (rollback_deployment p u a w).0 ≡ ok a.deployment_id
    → a.enqueue ≡ none
    → last_good p.id w.deployments ≡ some g
    → truthy (some a.deployment_id) ≡ true
    → truthy (some g.repo_url) ≡ true
    → truthy (some g.image_uri) ≡ true
    → v.deployments ≡ (rollback_deployment p u a w).1.deployments
    → ((rollback_deployment p u a w).1.stream ≡ rollback_entry p g a ∷ w.stream)
      × RolledForward a.deployment_id v
          (process_message message_id (message_of (rollback_entry p g a)) answers v)
rollback-handoff p u a w g message_id answers v o q l d r i e =
    let (rows, stream) =
      rolled_stage p a w g (rollback_deployment p u a w) (rollback_deployment-RolledBack p u a w) o
        q l in
    (stream, forwarded p g a w.deployments message_id answers v d r i (e ∙ rows))
