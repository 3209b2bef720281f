-- ===== src/Controller/Reconcile/Rows.antt =====
-- What `reconcile` leaves in the deployments table.
use deploy_hub.Prelude.{
  String, ◌==◌, ◌≡◌, refl, Bool, true, false, List, [], ◌∷◌, arith, All, Bool-cases, inl, inr,
}
use deploy_hub.Action.{Outcome, Result, ok, raised, call, attempt, pure}
use deploy_hub.Action.Keeps.{Keeps-bind, Keeps-try, Keeps-call}
use deploy_hub.Schema.{
  ProjectStatus, provisioning, ready, terminating, failed, Project, Deployment, cascade,
}
use deploy_hub.Schema.Rows.{All-update}
use deploy_hub.Controller.World.{World, Db, issue, commit, rollback, execute, ensure_ecr, drift}
use deploy_hub.Controller.Manifests.{apply_manifests}
use deploy_hub.Controller.Deployments.{
  Cluster, Listed, mark_failed, mark_running, on_deployments, reconcile_deployments,
}
use deploy_hub.Controller.Deployments.Kept.{
  Both, Both-same, apply_manifests-Both, reconcile_deployments-Both, unlisted-Both,
}
use deploy_hub.Controller.Reconcile.{
  Answers, check_namespace_exists, remove_namespace, set_project_status, drop_project,
  finish_provisioning, provision, finish_terminating, finish_ready, dispatch, mark_project_failed,
  reconcile_project, reconcile_projects, reconcile, lift,
}

All-cascade :
    (P : Deployment → Type 0) (k : String) (ds : List Deployment) → All P ds → All P (cascade k ds)
unfolding cascade
All-cascade P k [] h = tt
All-cascade P k (d ∷ ds) h = elim (Bool-cases (d.project_id == k)) [
  | inl e ↦ rw e (All-cascade P k ds h.1)
  | inr e ↦ rw e (h.0, All-cascade P k ds h.1)
]

-- A predicate of rows that the two marks keep.
module _ (P : Deployment → Type 0) (writes_running : (d : Deployment) → P d → P (mark_running d))
    (writes_failed : (d : Deployment) → P d → P (mark_failed d)) where
  abbrev pub AllIn : Db → Type 0
  AllIn db = All P db.deployments

  listed-Both :
      (k : String) (c : Cluster) (deps : List Listed) (w : World)
      → c.deployments ≡ ok deps
      → Both AllIn w
      → Both AllIn (reconcile_deployments k c w).1
  listed-Both k c deps w e h =
      reconcile_deployments-Both deps AllIn
        (λ j db _ g.
          unfold on_deployments in All-update P j mark_running db.deployments writes_running g)
        (λ j db _ g.
          unfold on_deployments in All-update P j mark_failed db.deployments writes_failed g)
        k c w e h

  reconcile_deployments-AllIn :
      (k : String) (c : Cluster) (w : World)
      → Both AllIn w
      → Both AllIn (reconcile_deployments k c w).1
  reconcile_deployments-AllIn k c w h = go c.deployments refl
    where
      go :
          (r : Result (List Listed))
          → c.deployments ≡ r
          → Both AllIn (reconcile_deployments k c w).1
      go (ok deps) e = listed-Both k c deps w e h
      go (raised x) e = unlisted-Both AllIn k c x w e h

  execute-Both :
      (o : Outcome) (f : Db → Db) (w : World)
      → ((db : Db) → AllIn db → AllIn (f db))
      → Both AllIn w
      → Both AllIn (execute o f w).1
  unfolding execute
  execute-Both o f w g h =
      Keeps-call (Both AllIn) o _ w h
        (record { committed = h.committed; working = g w.working h.working })

  commit-Both : (o : Outcome) (w : World) → Both AllIn w → Both AllIn (commit o w).1
  unfolding commit
  commit-Both o w h =
      Keeps-call (Both AllIn) o _ w h (record { committed = h.working; working = h.working })

  rollback-Both : (o : Outcome) (w : World) → Both AllIn w → Both AllIn (rollback o w).1
  unfolding rollback
  rollback-Both o w h =
      Keeps-call (Both AllIn) o _ w h (record { committed = h.committed; working = h.committed })

  remove_namespace-Both :
      (ns : String) (o : Outcome) (w : World)
      → Both AllIn w
      → Both AllIn (remove_namespace ns o w).1
  remove_namespace-Both ns o w h =
      Both-same AllIn w _ (unfold remove_namespace in ground arith)
        (unfold remove_namespace in ground arith) h

  drop_project-AllIn : (k : String) (db : Db) → AllIn db → AllIn (drop_project k db)
  unfolding drop_project
  drop_project-AllIn k db h = All-cascade P k db.deployments h

  set_project_status-AllIn :
      (k : String) (s : ProjectStatus) (db : Db) → AllIn db → AllIn (set_project_status k s db)
  unfolding set_project_status
  set_project_status-AllIn k s db h = h

  finish_provisioning-Both :
      (p : Project) (a : Answers) (b : Bool) (w : World)
      → Both AllIn w
      → Both AllIn (finish_provisioning p a b w).1
  unfolding finish_provisioning
  finish_provisioning-Both p a false w h = rollback-Both a.rollback w h
  finish_provisioning-Both p a true w h =
      Keeps-bind (Both AllIn) (attempt (call a.ensure_ecr (issue (ensure_ecr p.id))) w) _
        (Keeps-try (Both AllIn) (call a.ensure_ecr (issue (ensure_ecr p.id)) w) (λ _. pure tt)
          (Keeps-call (Both AllIn) a.ensure_ecr (issue (ensure_ecr p.id)) w h
            (record { committed = h.committed; working = h.working }))
          (λ _ _ g. g))
        λ _ v h.
          Keeps-bind (Both AllIn) (execute a.execute (set_project_status p.id ready) v) _
            (execute-Both a.execute _ v (set_project_status-AllIn p.id ready) h)
            (λ _. commit-Both a.commit)

  provision-Both :
      (p : Project) (a : Answers) (w : World) → Both AllIn w → Both AllIn (provision p a w).1
  unfolding provision lift
  provision-Both p a w h =
      Keeps-bind (Both AllIn) (call a.render (λ v. v) w) _
        (Keeps-call (Both AllIn) a.render (λ v. v) w h h)
        λ _ v h.
          Keeps-bind (Both AllIn) (apply_manifests a.docs v) _
            (apply_manifests-Both AllIn a.docs v h)
            λ _ v h.
              Keeps-bind (Both AllIn) (check_namespace_exists a.namespace, v)
                (finish_provisioning p a) h (finish_provisioning-Both p a)

  finish_terminating-Both :
      (p : Project) (a : Answers) (b : Bool) (w : World)
      → Both AllIn w
      → Both AllIn (finish_terminating p a b w).1
  unfolding finish_terminating
  finish_terminating-Both p a true w h =
      Keeps-bind (Both AllIn) (remove_namespace p.namespace a.delete w) _
        (remove_namespace-Both p.namespace a.delete w h) (λ _. commit-Both a.commit)
  finish_terminating-Both p a false w h =
      Keeps-bind (Both AllIn) (execute a.execute (drop_project p.id) w) _
        (execute-Both a.execute _ w (drop_project-AllIn p.id) h) (λ _. commit-Both a.commit)

  finish_ready-Both :
      (p : Project) (a : Answers) (b : Bool) (w : World)
      → Both AllIn w
      → Both AllIn (finish_ready p a b w).1
  unfolding finish_ready
  finish_ready-Both p a true w h = reconcile_deployments-AllIn p.id a.cluster w h
  finish_ready-Both p a false w h =
      Keeps-bind (Both AllIn)
        (execute a.execute (set_project_status p.id provisioning) (issue drift w)) _
        (execute-Both a.execute _ (issue drift w) (set_project_status-AllIn p.id provisioning)
          (record { committed = h.committed; working = h.working }))
        (λ _. commit-Both a.commit)

  dispatch-Both :
      (s : ProjectStatus) (p : Project) (a : Answers) (w : World)
      → Both AllIn w
      → Both AllIn (dispatch s p a w).1
  unfolding dispatch lift
  dispatch-Both provisioning p a w h = provision-Both p a w h
  dispatch-Both terminating p a w h =
      Keeps-bind (Both AllIn) (check_namespace_exists a.namespace, w) (finish_terminating p a) h
        (finish_terminating-Both p a)
  dispatch-Both ready p a w h =
      Keeps-bind (Both AllIn) (check_namespace_exists a.namespace, w) (finish_ready p a) h
        (finish_ready-Both p a)
  dispatch-Both failed p a w h = h

  mark_project_failed-Both :
      (p : Project) (a : Answers) (w : World)
      → Both AllIn w
      → Both AllIn (mark_project_failed p a w).1
  unfolding mark_project_failed
  mark_project_failed-Both p a w h =
      Keeps-try (Both AllIn) _ (λ _. pure tt)
        (Keeps-bind (Both AllIn) (rollback a.error_rollback w) _
          (rollback-Both a.error_rollback w h)
          λ _ v h. Keeps-call (Both AllIn) a.error_update _ v h (record {
            committed = set_project_status-AllIn p.id failed v.committed h.committed;
            working = set_project_status-AllIn p.id failed v.working h.working;
          }))
        (λ _ _ g. g)

  reconcile_project-Both :
      (p : Project) (a : Answers) (w : World)
      → Both AllIn w
      → Both AllIn (reconcile_project p a w).1
  unfolding reconcile_project
  reconcile_project-Both p a w h =
      Keeps-try (Both AllIn) _ (λ e. mark_project_failed p a)
        (Keeps-bind (Both AllIn) (call a.schema (λ v. v) w) _
          (Keeps-call (Both AllIn) a.schema (λ v. v) w h h) (λ _. dispatch-Both p.status p a))
        (λ _. mark_project_failed-Both p a)

  reconcile_projects-Both :
      (answers : String → Answers) (ps : List Project) (w : World)
      → Both AllIn w
      → Both AllIn (reconcile_projects answers ps w).1
  unfolding reconcile_projects
  reconcile_projects-Both answers [] w h = h
  reconcile_projects-Both answers (p ∷ ps) w h =
      Keeps-bind (Both AllIn) (reconcile_project p (answers p.id) w) _
        (reconcile_project-Both p (answers p.id) w h) (λ _. reconcile_projects-Both answers ps)

  -- If it holds of every committed row when `reconcile` starts, it does when it ends.
  pub reconcile-AllIn :
      (answers : String → Answers) (w : World)
      → w.working ≡ w.committed
      → All P w.committed.deployments
      → All P (reconcile answers w).1.committed.deployments
  unfolding reconcile
  reconcile-AllIn answers w fresh h =
      (Keeps-bind (Both AllIn) (reconcile_projects answers w.working.projects w) _
        (reconcile_projects-Both answers w.working.projects w
          (record { committed = h; working = rw fresh h }))
        λ _ v g. record { committed = g.committed; working = g.committed }).committed
