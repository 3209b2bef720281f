-- ===== src/Controller/Deployments/Orphans.antt =====
-- The clean-up removes nothing that an active row of the project wants.
use deploy_hub.Prelude.{ℕ, String, ◌==◌, Bool, false, count}
use deploy_hub.Action.Counts.{Counts}
use deploy_hub.Controller.World.{World, Command, delete_deployment}

abbrev pub deletes : String → Command → Bool
deletes k (delete_deployment j) = j == k
deletes k _ = false

module _ (k : String) where
  -- How often the Deployment `k` has been deleted.
  abbrev pub deletions : World → ℕ
  deletions w = count (deletes k) w.issued
