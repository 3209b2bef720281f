-- ===== src/Schema/Rows.antt =====
-- What the statements on the deployments table do to the row of an id.
use deploy_hub.Prelude.{
  String, ◌≡◌, ◌==◌, eq_iff, if◌then◌else◌, Option, none, some, List, [], ◌∷◌, arith, All,
  Bool-cases, inl, inr,
}
use deploy_hub.Schema.{
  Deployment, update_deployment, select_deployment, Project, update_project, delete_project,
  select_project,
}

-- `f` keeps the primary key.
abbrev pub KeepsId : (Deployment → Deployment) → Type 0
KeepsId f = (d : Deployment) → (f d).deployment_id ≡ d.deployment_id

abbrev pub map_row : (Deployment → Deployment) → Option Deployment → Option Deployment
map_row f none = none
map_row f (some d) = some (f d)

-- A read of one row after an update of another or of the same.
pub select-update :
    (k j : String) (f : Deployment → Deployment) (ds : List Deployment)
    → KeepsId f
    → select_deployment j (update_deployment k f ds)
      ≡ (if k == j then map_row f (select_deployment j ds) else select_deployment j ds)
unfolding update_deployment select_deployment
select-update k j f [] h = ground arith
select-update k j f (d ∷ ds) h = ground (
  arith,
  select-update k j f ds h,
  h d,
  eq_iff k j,
  eq_iff d.deployment_id k,
  eq_iff d.deployment_id j,
  eq_iff (f d).deployment_id j,
)

abbrev pub KeepsProjectId : (Project → Project) → Type 0
KeepsProjectId f = (p : Project) → (f p).id ≡ p.id

abbrev pub map_project : (Project → Project) → Option Project → Option Project
map_project f none = none
map_project f (some p) = some (f p)

pub select-update_project :
    (k j : String) (f : Project → Project) (ps : List Project)
    → KeepsProjectId f
    → select_project j (update_project k f ps)
      ≡ (if k == j then map_project f (select_project j ps) else select_project j ps)
unfolding update_project select_project
select-update_project k j f [] h = ground arith
select-update_project k j f (p ∷ ps) h = ground (
  arith,
  select-update_project k j f ps h,
  h p,
  eq_iff k j,
  eq_iff p.id k,
  eq_iff p.id j,
  eq_iff (f p).id j,
)

pub select-delete_project :
    (k j : String) (ps : List Project)
    → select_project j (delete_project k ps) ≡ (if k == j then none else select_project j ps)
unfolding delete_project select_project
select-delete_project k j [] = ground arith
select-delete_project k j (p ∷ ps) =
    ground (arith, select-delete_project k j ps, eq_iff k j, eq_iff p.id k, eq_iff p.id j)

-- A predicate of rows that the update keeps.
pub All-update :
    (P : Deployment → Type 0) (k : String) (f : Deployment → Deployment) (ds : List Deployment)
    → ((d : Deployment) → P d → P (f d))
    → All P ds
    → All P (update_deployment k f ds)
unfolding update_deployment
All-update P k f [] g h = tt
All-update P k f (d ∷ ds) g h = elim (Bool-cases (d.deployment_id == k)) [
  | inl e ↦ (rw e (g d h.0), All-update P k f ds g h.1)
  | inr e ↦ (rw e h.0, All-update P k f ds g h.1)
]
