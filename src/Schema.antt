-- ===== src/Schema.antt =====
-- The rows that the services keep in PostgreSQL (api/schema.sql, migrations), and the SQL statements
-- of the code on them. A table is the list of its rows; a time is a number.
pub mod Rows
use deploy_hub.Prelude.{ℕ, String, ◌==◌, if◌then◌else◌, Option, none, some, List, [], ◌∷◌, map}

-- deployments.state. `failed` is not in the worker's DeploymentState, but is written as "Failed".
pub data State : Type 0 where
  queued building deploying verifying running retry dlq failed : State

pub record Deployment : Type 0 where
  pub deployment_id : String
  pub project_id : String
  pub repo_url : String
  pub image_uri : String
  pub replicas : ℕ
  pub port : ℕ
  pub health_check_path : String
  pub state : State
  pub updated_at : ℕ
  pub last_error : Option String

pub data BuildStatus : Type 0 where
  success failed : BuildStatus

pub record Build : Type 0 where
  pub build_id : String
  pub deployment_id : String
  pub s3_log_uri : String
  pub status : BuildStatus
  pub completed_at : Option ℕ  -- NULL unless it is given

-- `UPDATE ... WHERE deployment_id = %s`.
abbrev pub update_if : String → (Deployment → Deployment) → Deployment → Deployment
update_if k f d = if d.deployment_id == k then f d else d

unfoldable pub update_deployment :
    String → (Deployment → Deployment) → List Deployment → List Deployment
update_deployment k f = map (update_if k f)

-- `SELECT * FROM deployments WHERE deployment_id = %s` and its first row.
unfoldable pub select_deployment : String → List Deployment → Option Deployment
select_deployment k [] = none
select_deployment k (d ∷ ds) = if d.deployment_id == k then some d else select_deployment k ds

-- projects.status, the ProjectStatus of controller/models.py.
pub data ProjectStatus : Type 0 where
  provisioning ready terminating failed : ProjectStatus

pub record Project : Type 0 where
  pub id : String
  pub owner_id : String
  pub name : String
  pub namespace : String
  pub status : ProjectStatus
  pub webhook_secret : Option String
  pub deleted_at : Option ℕ

abbrev pub project_if : String → (Project → Project) → Project → Project
project_if k f p = if p.id == k then f p else p

-- `UPDATE projects SET ... WHERE id = %s`.
unfoldable pub update_project : String → (Project → Project) → List Project → List Project
update_project k f = map (project_if k f)

-- `DELETE FROM projects WHERE id = %s`.
unfoldable pub delete_project : String → List Project → List Project
delete_project k [] = []
delete_project k (p ∷ ps) = let rest = delete_project k ps in if p.id == k then rest else p ∷ rest

-- `SELECT * FROM projects WHERE id = %s` and its first row.
unfoldable pub select_project : String → List Project → Option Project
select_project k [] = none
select_project k (p ∷ ps) = if p.id == k then some p else select_project k ps

-- `SELECT * FROM deployments WHERE project_id = %s`.
unfoldable pub deployments_of : String → List Deployment → List Deployment
deployments_of k [] = []
deployments_of k (d ∷ ds) =
    let rest = deployments_of k ds in if d.project_id == k then d ∷ rest else rest

-- The rows that `ON DELETE CASCADE` keeps when a project is deleted.
unfoldable pub cascade : String → List Deployment → List Deployment
cascade k [] = []
cascade k (d ∷ ds) = let rest = cascade k ds in if d.project_id == k then rest else d ∷ rest
