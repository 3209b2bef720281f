-- ===== src/Controller/Deployments.antt =====
-- `reconcile_deployments`: the deployments of a ready project against what runs in its namespace.
-- `Cluster` holds what the outside answers.
pub mod Marks
pub mod Kept
pub mod Justified
pub mod Orphans
use Prim.Native.String.{◌++◌ as append}
use deploy_hub.Prelude.{
  ℕ, zero, suc, ◌+◌, String, ◌==◌, ltb, if◌then◌else◌, Bool, true, false, not, ◌&&◌, ◌||◌, Option,
  none, some, List, [], ◌∷◌, map, contains,
}
use deploy_hub.Action.{
  Exn, api_exception, Outcome, Action, Result, ok, raised, pure, raise, ◌>>=◌, ◌>>◌, try_catch,
  modify, call, attempt,
}
use deploy_hub.Schema.{
  State, deploying, verifying, running, failed, Deployment, update_deployment, deployments_of,
  Project,
}
use deploy_hub.Controller.World.{
  World, Db, issue, commit, execute, publish_status, drift, deployment_success, active_deployments,
  delete_deployment, delete_service, delete_route,
}
use deploy_hub.Controller.Manifests.{Doc, apply_manifests}

-- What is answered while one deployment is handled.
pub record Turn : Type 0 where
  pub render : Outcome
  pub docs : Result (List (Option (Result Doc)))
  pub execute : Outcome
  pub commit : Outcome
  pub publish : Outcome

-- What is answered while one orphan is removed.
pub record Removal : Type 0 where
  pub deployment : Outcome
  pub service : Outcome
  pub route : Outcome

-- A Deployment of the namespace, with status.ready_replicas.
abbrev pub Listed : Type 0
Listed = String × Option ℕ

pub record Cluster : Type 0 where
  pub select : Outcome
  pub deployments : Result (List Listed)
  pub services : Result (List String)
  pub routes : Result (List String)
  pub turn : String → Turn
  pub removal : String → Removal

-- "Running", "Verifying" or "Deploying".
abbrev pub is_active : State → Bool
is_active deploying = true
is_active verifying = true
is_active running = true
is_active _ = false

abbrev pub is_running : State → Bool
is_running running = true
is_running _ = false

-- `k8s_dep_names[d_id]`; a later entry of the listing replaces an earlier one of the same name, and
-- names are unique in a namespace.
unfoldable pub listed : String → List Listed → Option (Option ℕ)
listed k [] = none
listed k ((name, ready) ∷ ls) = if name == k then some ready else listed k ls

-- `status.ready_replicas or 0`.
abbrev pub or_zero : Option ℕ → ℕ
or_zero none = 0
or_zero (some n) = n

abbrev pub crash_text : String
crash_text = "Kubernetes Deployment Failed/CrashLoopBackOff"

abbrev pub mark_failed : Deployment → Deployment
mark_failed d = record d { state = failed; last_error = some crash_text }

abbrev pub mark_running : Deployment → Deployment
mark_running d = record d { state = running; last_error = none }

unfoldable pub on_deployments : (List Deployment → List Deployment) → Db → Db
on_deployments f db = record db { deployments = f db.deployments }

recreate : Turn → Action World Unit
unfolding apply_manifests
recreate t = do modify (issue drift); call t.render (λ w. w); apply_manifests t.docs

report_crash : String → Turn → Action World Unit
unfolding execute commit on_deployments update_deployment
report_crash k t = do
  modify (issue drift)
  execute t.execute (on_deployments (update_deployment k mark_failed))
  commit t.commit
  attempt (call t.publish (issue (publish_status k failed (some crash_text))))

report_running : String → Turn → Action World Unit
unfolding execute commit on_deployments update_deployment
report_running k t = do
  execute t.execute (on_deployments (update_deployment k mark_running))
  commit t.commit
  modify (issue deployment_success)
  attempt (call t.publish (issue (publish_status k running none)))

-- A deployment that is active and whose Deployment is listed with `ready` replicas.
observe : String → State → ℕ → Turn → Action World Unit
unfolding report_crash report_running
observe k s ready t =
    if not (ltb 0 ready) && is_running s
    then report_crash k t
    else if ltb 0 ready && not (is_running s)
    then report_running k t
    else pure tt

check_listed : Deployment → Option (Option ℕ) → Bool → Turn → Action World Unit
unfolding recreate observe
check_listed d none others t = recreate t
check_listed d (some ready) others t =
    if others then observe d.deployment_id d.state (or_zero ready) t else recreate t

-- The body of the loop over the rows.
reconcile_deployment :
    List Listed → List String → List String → (String → Turn) → Deployment → Action World Unit
unfolding check_listed listed
reconcile_deployment deps svcs routes turn d =
    if is_active d.state
    then check_listed d (listed d.deployment_id deps)
        (contains (append d.deployment_id "-svc") svcs
          && contains (append d.deployment_id "-route") routes)
        (turn d.deployment_id)
    else pure tt

reconcile_rows :
    List Listed → List String → List String → (String → Turn) → List Deployment → Action World Unit
unfolding reconcile_deployment
reconcile_rows deps svcs routes turn [] = pure tt
reconcile_rows deps svcs routes turn (d ∷ ds) =
    reconcile_deployment deps svcs routes turn d >> reconcile_rows deps svcs routes turn ds

-- Does an active row of the snapshot have this name?
unfoldable pub is_wanted : List Deployment → String → Bool
is_wanted [] k = false
is_wanted (d ∷ ds) k = (d.deployment_id == k && is_active d.state) || is_wanted ds k

route_error : Exn → Action World Unit
route_error (api_exception n s) = pure tt
route_error e = raise e

remove_orphan : String → Removal → Action World Unit
unfolding route_error
remove_orphan k r = do
  modify (issue drift)
  call r.deployment (issue (delete_deployment k))
  try_catch
      (call r.service (issue (delete_service (append k "-svc")))
        >> call r.route (issue (delete_route (append k "-route"))))
      route_error

-- "Orphan Resources Cleanup", against the rows that were read at the start.
remove_orphans : List Deployment → (String → Removal) → List Listed → Action World Unit
unfolding remove_orphan is_wanted
remove_orphans rows removal [] = pure tt
remove_orphans rows removal ((k, ready) ∷ ls) =
    (if is_wanted rows k then pure tt else remove_orphan k (removal k))
    >> remove_orphans rows removal ls

runs : List Listed → Deployment → Bool
unfolding listed
runs deps d = elim (listed d.deployment_id deps) [
  | none ↦ false
  | some ready ↦ is_running d.state && ltb 0 (or_zero ready)
]

running_count : List Listed → List Deployment → ℕ
unfolding runs
running_count deps [] = 0
running_count deps (d ∷ ds) = (if runs deps d then 1 else 0) + running_count deps ds

lift : {A : Type 0} → Result A → Action World A
lift r w = (r, w)

-- The routes; an ApiException counts as none.
routes_of : Result (List String) → Action World (List String)
routes_of (ok names) = pure names
routes_of (raised (api_exception n s)) = pure []
routes_of (raised e) = raise e

-- The body of the `try` statement.
reconcile_listed : Cluster → List Deployment → Action World Unit
reconcile_listed c rows = do
  deps ← lift c.deployments
  svcs ← lift c.services
  routes ← routes_of c.routes
  reconcile_rows deps svcs routes c.turn rows
  remove_orphans rows c.removal deps
  modify (issue (active_deployments (running_count deps rows)))

reconcile_selected : String → Cluster → Action World Unit
reconcile_selected k c w = attempt (reconcile_listed c (deployments_of k w.working.deployments)) w

pub reconcile_deployments : String → Cluster → Action World Unit
reconcile_deployments project_id c = call c.select (λ w. w) >> reconcile_selected project_id c
