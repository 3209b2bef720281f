-- ===== src/Controller/Reconcile.antt =====
-- `reconcile` of controller/main.py, and `_wait_for_schema`.
pub mod Status
pub mod SchemaWait
pub mod Rows
use deploy_hub.Prelude.{
  ℕ, zero, suc, String, ltb, if◌then◌else◌, Bool, true, false, not, ◌&&◌, Option, none, some, List,
  [], ◌∷◌,
}
use deploy_hub.Action.{
  Exn, api_exception, Outcome, Action, Result, ok, raised, pure, raise, ◌>>=◌, ◌>>◌, try_catch,
  modify, call, attempt,
}
use deploy_hub.Schema.{
  ProjectStatus, provisioning, ready, terminating, failed, Project, update_project, delete_project,
  cascade,
}
use deploy_hub.Controller.World.{
  World, Db, issue, commit, rollback, execute, ensure_ecr, delete_namespace, drift,
}
use deploy_hub.Controller.Manifests.{Doc, apply_manifests}
use deploy_hub.Controller.Deployments.{Cluster, reconcile_deployments}

-- What the outside answers while one project is handled.
pub record Answers : Type 0 where
  pub schema : Outcome  -- ProjectSchema(**project_data)
  pub render : Outcome
  pub docs : Result (List (Option (Result Doc)))
  pub namespace : Outcome  -- read_namespace
  pub ensure_ecr : Outcome
  pub delete : Outcome  -- delete_namespace
  pub execute : Outcome
  pub commit : Outcome
  pub rollback : Outcome
  pub cluster : Cluster
  pub error_rollback : Outcome
  pub error_update : Outcome  -- of the second connection

abbrev pub is_not_found : ℕ → Bool
is_not_found n = not (ltb n 404) && not (ltb 404 n)

-- `check_namespace_exists`.
unfoldable pub check_namespace_exists : Outcome → Result Bool
check_namespace_exists none = ok true
check_namespace_exists (some (api_exception n s)) =
    if is_not_found n then ok false else raised (api_exception n s)
check_namespace_exists (some e) = raised e

ignore_not_found : Exn → Action World Unit
ignore_not_found (api_exception n s) = if is_not_found n then pure tt else raise (api_exception n s)
ignore_not_found e = raise e

-- `delete_namespace`.
remove_namespace : String → Outcome → Action World Unit
unfolding ignore_not_found
remove_namespace ns o = try_catch (call o (issue (delete_namespace ns))) ignore_not_found

lift : {A : Type 0} → Result A → Action World A
lift r w = (r, w)

abbrev pub set_status : ProjectStatus → Project → Project
set_status s p = record p { status = s }

set_project_status : String → ProjectStatus → Db → Db
set_project_status k s db = record db { projects = update_project k (set_status s) db.projects }

drop_project : String → Db → Db
drop_project k db = record db {
  projects = delete_project k db.projects;
  deployments = cascade k db.deployments;
}

finish_provisioning : Project → Answers → Bool → Action World Unit
unfolding execute commit rollback set_project_status update_project
finish_provisioning p a true = do
  attempt (call a.ensure_ecr (issue (ensure_ecr p.id)))
  execute a.execute (set_project_status p.id ready)
  commit a.commit
finish_provisioning p a false = rollback a.rollback

provision : Project → Answers → Action World Unit
unfolding apply_manifests lift check_namespace_exists finish_provisioning
provision p a = do
  call a.render (λ w. w)
  apply_manifests a.docs
  exists ← lift (check_namespace_exists a.namespace)
  finish_provisioning p a exists

finish_terminating : Project → Answers → Bool → Action World Unit
unfolding remove_namespace execute commit drop_project
finish_terminating p a true = remove_namespace p.namespace a.delete >> commit a.commit
finish_terminating p a false = execute a.execute (drop_project p.id) >> commit a.commit

finish_ready : Project → Answers → Bool → Action World Unit
unfolding execute commit set_project_status
finish_ready p a true = reconcile_deployments p.id a.cluster
finish_ready p a false = do
  modify (issue drift)
  execute a.execute (set_project_status p.id provisioning)
  commit a.commit

-- The ladder over the project's status.
dispatch : ProjectStatus → Project → Answers → Action World Unit
unfolding provision finish_terminating finish_ready lift check_namespace_exists
dispatch provisioning p a = provision p a
dispatch terminating p a = lift (check_namespace_exists a.namespace) >>= finish_terminating p a
dispatch ready p a = lift (check_namespace_exists a.namespace) >>= finish_ready p a
dispatch failed p a = pure tt

-- `except Exception as e`: a second connection writes FAILED and commits. The first has nothing
-- uncommitted then.
mark_project_failed : Project → Answers → Action World Unit
unfolding rollback set_project_status
mark_project_failed p a = attempt do
  rollback a.error_rollback
  call a.error_update (λ w. record w {
    committed = set_project_status p.id failed w.committed;
    working = set_project_status p.id failed w.working;
  })

-- The body of the loop of `reconcile`.
pub reconcile_project : Project → Answers → Action World Unit
reconcile_project p a =
    try_catch (call a.schema (λ w. w) >> dispatch p.status p a) (λ e. mark_project_failed p a)

reconcile_projects : (String → Answers) → List Project → Action World Unit
reconcile_projects answers [] = pure tt
reconcile_projects answers (p ∷ ps) =
    reconcile_project p (answers p.id) >> reconcile_projects answers ps

-- `reconcile`, over the rows that are there when it starts. Closing the connection drops what is not
-- committed.
pub reconcile : (String → Answers) → Action World Unit
reconcile answers w =
    (reconcile_projects answers w.working.projects
        >> modify (λ v. record v { working = v.committed }))
      w
