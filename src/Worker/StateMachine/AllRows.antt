-- ===== src/Worker/StateMachine/AllRows.antt =====
-- A predicate that holds of every row, and keeps holding when `update_state` writes.
use deploy_hub.Prelude.{ℕ, String, ◌≡◌, subst, sym, Option, All}
use deploy_hub.Action.{Result, ok, raised}
use deploy_hub.Schema.{State, Deployment}
use deploy_hub.Schema.Rows.{All-update}
use deploy_hub.Worker.World.{World}
use deploy_hub.Worker.StateMachine.{Attempt, set_state, update_state, get_deployment}
use deploy_hub.Worker.StateMachine.Retry.{Written, update_state-Written, Read, get_deployment-Read}

module _ (P : Deployment → Type 0) where
  pub record AllRows (w : World) : Type 0 where
    pub rows : All P w.deployments

  pub AllRows-same : (w v : World) → v.deployments ≡ w.deployments → AllRows w → AllRows v
  AllRows-same w v e h = record { rows = subst (All P) (sym e) h.rows }

  Written-AllRows :
      (k : String) (s : State) (e : Option String) (w : World) (p : Result (Unit {0}) × World)
      → ((now : ℕ) (d : Deployment) → P d → P (set_state s e now d))
      → Written k s e w p
      → AllRows w
      → AllRows p.1
  Written-AllRows k s e w (ok _, v) writes (now, d, b, i) h = record {
    rows =
        subst (All P) (sym d)
          (All-update P k (set_state s e now) w.deployments (writes now) h.rows);
  }
  Written-AllRows k s e w (raised x, v) writes r h = AllRows-same w v r.deployments h

  pub update_state-AllRows :
      (k : String) (s : State) (e : Option String) (attempts : ℕ → Attempt) (w : World)
      → ((now : ℕ) (d : Deployment) → P d → P (set_state s e now d))
      → AllRows w
      → AllRows (update_state k s e attempts w).1
  update_state-AllRows k s e attempts w writes h =
      Written-AllRows k s e w (update_state k s e attempts w) writes
        (update_state-Written k s e w attempts) h

  Read-AllRows :
      (k : String) (w : World) (p : Result (Option Deployment) × World)
      → Read k w p
      → AllRows w
      → AllRows p.1
  Read-AllRows k w (ok d, v) (e, r) h = AllRows-same w v r.deployments h
  Read-AllRows k w (raised x, v) r h = AllRows-same w v r.deployments h

  pub get_deployment-AllRows :
      (k : String) (attempts : ℕ → Attempt) (w : World)
      → AllRows w
      → AllRows (get_deployment k attempts w).1
  get_deployment-AllRows k attempts w h =
      Read-AllRows k w (get_deployment k attempts w) (get_deployment-Read k attempts w) h
