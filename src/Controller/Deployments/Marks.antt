-- ===== src/Controller/Deployments/Marks.antt =====
-- What justifies a row that is Running or Failed, and the two statements that set these states.
use deploy_hub.Prelude.{
  eq_iff, ℕ, ◌<◌, String, ◌==◌, ◌≡◌, refl, sym, ◌∙◌, ◌⊎◌, inl, inr, true, false, Option, none, some,
  List, arith, Bool-cases, subst,
}
use deploy_hub.Schema.{State, running, failed, Deployment, update_deployment, select_deployment}
use deploy_hub.Schema.Rows.{map_row, select-update}
use deploy_hub.Controller.World.{Db}
use deploy_hub.Controller.Deployments.{
  Listed, listed, or_zero, mark_failed, mark_running, on_deployments,
}

-- The listing shows the deployment with at least one ready replica, or with none.
pub record HasReady (deps : List Listed) (k : String) : Type 0 where
  pub ready : Option ℕ
  pub shown : listed k deps ≡ some ready
  pub positive : 0 < or_zero ready

pub record HasNoReady (deps : List Listed) (k : String) : Type 0 where
  pub ready : Option ℕ
  pub shown : listed k deps ≡ some ready
  pub zero_ready : or_zero ready ≡ 0

-- The row of the key is in this state.
pub record InState (k : String) (s : State) (db : Db) : Type 0 where
  pub row : Deployment
  pub stored : select_deployment k db.deployments ≡ some row
  pub state : row.state ≡ s

-- Every row that is Running was so in `start`, or is shown with a ready replica; every row that is
-- Failed was so in `start`, or is shown with none.
pub record Justified (deps : List Listed) (start db : Db) : Type 0 where
  pub running_rows : (k : String) → InState k running db → InState k running start ⊎ HasReady deps k
  pub failed_rows : (k : String) → InState k failed db → InState k failed start ⊎ HasNoReady deps k

-- A row that another statement wrote is as before.
update_other :
    (k j : String) (f : Deployment → Deployment) (db : Db) (s : State)
    → ((d : Deployment) → (f d).deployment_id ≡ d.deployment_id)
    → (k == j) ≡ false
    → InState j s (on_deployments (update_deployment k f) db)
    → InState j s db
unfolding on_deployments
update_other k j f db s keeps ne r = record {
  row = r.row;
  stored = sym (select-update k j f db.deployments keeps ∙ rw ne) ∙ r.stored;
  state = r.state;
}

update_self :
    (k j : String) (f : Deployment → Deployment) (db : Db) (s t : State)
    → ((d : Deployment) → (f d).deployment_id ≡ d.deployment_id)
    → ((d : Deployment) → (f d).state ≡ t)
    → (k == j) ≡ true
    → InState j s (on_deployments (update_deployment k f) db)
    → s ≡ t
unfolding on_deployments
update_self k j f db s t keeps sets same r =
    written (select_deployment j db.deployments)
      (sym (select-update k j f db.deployments keeps ∙ rw same) ∙ r.stored)
  where
    written : (o : Option Deployment) → map_row f o ≡ some r.row → s ≡ t
    written none e = cc
    written (some d) e = ground (arith, sets d, r.state)

module _ (deps : List Listed) (start : Db) where
  pub mark_running-Justified :
      (k : String) (db : Db)
      → HasReady deps k
      → Justified deps start db
      → Justified deps start (on_deployments (update_deployment k mark_running) db)
  mark_running-Justified k db r h = record {
    running_rows = λ j st. elim (Bool-cases (k == j)) [
      | inl e ↦ inr (subst (HasReady deps) ((eq_iff k j).0 e) r)
      | inr e ↦ h.running_rows j (update_other k j mark_running db running (λ _. refl) e st)
    ];
    failed_rows = λ j st. elim (Bool-cases (k == j)) [
      | inl e ↦ cc (update_self k j mark_running db failed running (λ _. refl) (λ _. refl) e st)
      | inr e ↦ h.failed_rows j (update_other k j mark_running db failed (λ _. refl) e st)
    ];
  }

  pub mark_failed-Justified :
      (k : String) (db : Db)
      → HasNoReady deps k
      → Justified deps start db
      → Justified deps start (on_deployments (update_deployment k mark_failed) db)
  mark_failed-Justified k db r h = record {
    running_rows = λ j st. elim (Bool-cases (k == j)) [
      | inl e ↦ cc (update_self k j mark_failed db running failed (λ _. refl) (λ _. refl) e st)
      | inr e ↦ h.running_rows j (update_other k j mark_failed db running (λ _. refl) e st)
    ];
    failed_rows = λ j st. elim (Bool-cases (k == j)) [
      | inl e ↦ inr (subst (HasNoReady deps) ((eq_iff k j).0 e) r)
      | inr e ↦ h.failed_rows j (update_other k j mark_failed db failed (λ _. refl) e st)
    ];
  }
