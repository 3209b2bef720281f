-- ===== src/Controller/Reconcile/Status.antt =====
-- Where one turn of the loop leaves a project, for every status it may have.
use deploy_hub.Prelude.{
  eq_refl, if◌then◌else◌, ◌≡◌, refl, ◌∙◌, ap, Bool, true, false, Option, none, some, arith,
  Bool-cases, inl, inr,
}
use deploy_hub.Action.{api_exception, ◌>>◌, Outcome, Action, Result, ok, raised, ◌>>=◌, try_catch}
use deploy_hub.Schema.{
  ProjectStatus, provisioning, ready, terminating, failed, Project, select_project,
}
use deploy_hub.Schema.Rows.{map_project, select-update_project, select-delete_project}
use deploy_hub.Controller.World.{World, Db, commit, rollback, execute}
use deploy_hub.Controller.Reconcile.{
  Answers, check_namespace_exists, set_status, set_project_status, reconcile_project, dispatch,
  finish_terminating, finish_ready, mark_project_failed, drop_project, lift, remove_namespace,
  is_not_found,
}

-- The database answers every statement of this turn.
pub record DbUp (a : Answers) : Type 0 where
  pub execute : a.execute ≡ none
  pub commit : a.commit ≡ none
  pub rollback : a.rollback ≡ none
  pub error_rollback : a.error_rollback ≡ none
  pub error_update : a.error_update ≡ none

-- The connection has nothing uncommitted.
abbrev pub IsClean : World → Type 0
IsClean w = w.working ≡ w.committed

-- The row of the project after its status is set.
set_status_row :
    (p : Project) (s : ProjectStatus) (db : Db)
    → select_project p.id db.projects ≡ some p
    → select_project p.id (set_project_status p.id s db).projects ≡ some (set_status s p)
unfolding set_project_status
set_status_row p s db h =
    select-update_project p.id p.id (set_status s) db.projects (λ _. refl)
    ∙ rw eq_refl (ap (map_project (set_status s)) h)

-- The error path writes Failed.
mark_failed_row :
    (p : Project) (a : Answers) (v : World)
    → DbUp a
    → select_project p.id v.committed.projects ≡ some p
    → select_project p.id (mark_project_failed p a v).1.committed.projects
      ≡ some (set_status failed p)
unfolding mark_project_failed rollback
mark_failed_row p a v up h =
    simp (up.error_rollback, up.error_update) (set_status_row p failed v.committed h)

-- What a namespace that is there, is not, or is not known makes of a project in Provisioning.
abbrev pub after_provisioning : Result Bool → ProjectStatus
after_provisioning (ok true) = ready
after_provisioning (ok false) = provisioning
after_provisioning (raised e) = failed

-- What Kubernetes says of the namespace, if every document could be read.
abbrev pub once_applied : Result (Unit {0}) → Result Bool → Result Bool
once_applied (ok _) r = r
once_applied (raised e) r = raised e

-- What becomes of a project in Terminating: `none` is that its row is gone.
abbrev pub after_terminating : Result Bool → Outcome → Option ProjectStatus
after_terminating (ok false) delete = none
after_terminating (ok true) none = some terminating
after_terminating (ok true) (some (api_exception n s)) =
    if is_not_found n then some terminating else some failed
after_terminating (ok true) (some e) = some failed
after_terminating (raised e) delete = some failed

abbrev pub with_status : Option ProjectStatus → Project → Option Project
with_status none p = none
with_status (some s) p = some (set_status s p)

module _ (p : Project) (a : Answers) (up : DbUp a) where
  -- The end of the `try` statement over the end of a branch.
  abbrev guarded : Action World Unit → Action World Unit
  guarded m = try_catch m (λ e. mark_project_failed p a)

  terminating_delete_stage :
      (o : Outcome) (v : World)
      → IsClean v
      → p.status ≡ terminating
      → select_project p.id v.committed.projects ≡ some p
      → select_project p.id
          (guarded (remove_namespace p.namespace o >> commit a.commit) v).1.committed.projects
        ≡ with_status (after_terminating (ok true) o) p
  unfolding remove_namespace commit
  terminating_delete_stage none v clean st h =
      simp up.commit (ap (λ (d : Db). select_project p.id d.projects) clean ∙ h ∙ ground arith)
  terminating_delete_stage (some (api_exception n s)) v clean st h =
      elim (Bool-cases (is_not_found n)) [
        | inl e ↦
            simp (e, up.commit)
              (ap (λ (d : Db). select_project p.id d.projects) clean ∙ h ∙ ground arith)
        | inr e ↦ simp e (mark_failed_row p a v up h)
      ]
  terminating_delete_stage (some e) v clean st h = mark_failed_row p a v up h

  terminating_stage :
      (r : Result Bool) (v : World)
      → IsClean v
      → p.status ≡ terminating
      → select_project p.id v.committed.projects ≡ some p
      → select_project p.id (guarded (lift r >>= finish_terminating p a) v).1.committed.projects
        ≡ with_status (after_terminating r a.delete) p
  unfolding lift finish_terminating
  terminating_stage (raised e) v clean st h = mark_failed_row p a v up h
  terminating_stage (ok true) v clean st h = terminating_delete_stage a.delete v clean st h
  terminating_stage (ok false) v clean st h =
      unfold execute commit drop_project in
      simp (up.execute, up.commit) (select-delete_project p.id p.id v.working.projects ∙ rw eq_refl)

  -- A valid project in Terminating, while the database answers: its row is deleted if its namespace
  -- is gone; it stays in Terminating if the namespace is there and its deletion is accepted or it is
  -- gone by then; and it becomes Failed otherwise.
  pub reconcile_terminating :
      (w : World)
      → p.status ≡ terminating
      → IsClean w
      → a.schema ≡ none
      → select_project p.id w.committed.projects ≡ some p
      → select_project p.id (reconcile_project p a w).1.committed.projects
        ≡ with_status (after_terminating (check_namespace_exists a.namespace) a.delete) p
  unfolding reconcile_project
  reconcile_terminating w st clean valid h =
      simp (valid, st)
        (unfold dispatch in terminating_stage (check_namespace_exists a.namespace) w clean st h)

  -- Drift: a valid Ready project whose namespace is missing goes back to Provisioning, so that the
  -- next turn creates it again.
  reconcile_drift :
      (w : World)
      → p.status ≡ ready
      → IsClean w
      → a.schema ≡ none
      → check_namespace_exists a.namespace ≡ ok false
      → select_project p.id w.committed.projects ≡ some p
      → select_project p.id (reconcile_project p a w).1.committed.projects
        ≡ some (set_status provisioning p)
  unfolding reconcile_project
  reconcile_drift w st clean valid missing h =
      simp (valid, st)
        (unfold dispatch lift in
          simp missing (
            unfold finish_ready execute commit in
            simp (up.execute, up.commit)
              (set_status_row p provisioning w.working
                (ap (λ (d : Db). select_project p.id d.projects) clean ∙ h))))
