-- ===== src/Controller/Deployments/Justified.antt =====
-- A deployment becomes Running or Failed in the database only for what Kubernetes shows of it.
use deploy_hub.Prelude.{String, ◌≡◌, inl, List}
use deploy_hub.Action.{ok}
use deploy_hub.Controller.World.{World}
use deploy_hub.Controller.Deployments.Marks.{
  Justified, mark_running-Justified, mark_failed-Justified,
}
use deploy_hub.Controller.Deployments.Kept.{reconcile_deployments-Both}
use deploy_hub.Controller.Deployments.{Listed, Cluster, reconcile_deployments}

-- Whatever fails on the way, after `reconcile_deployments` every committed row that is Running was
-- so before, or the listing of the namespace shows it with a ready replica; and every committed row
-- that is Failed was so before, or the listing shows it with none.
pub reconcile_deployments-Justified :
    (deps : List Listed) (project_id : String) (c : Cluster) (w : World)
    → c.deployments ≡ ok deps
    → w.working ≡ w.committed
    → Justified deps w.committed (reconcile_deployments project_id c w).1.committed
reconcile_deployments-Justified deps project_id c w e fresh =
    (reconcile_deployments-Both deps (Justified deps w.committed)
      (λ k db. mark_running-Justified deps w.committed k db)
      (λ k db. mark_failed-Justified deps w.committed k db) project_id c w e
      (record { committed = itself; working = rw fresh itself })).committed
  where
    itself : Justified deps w.committed w.committed
    itself = record { running_rows = λ k s. inl s; failed_rows = λ k s. inl s }
