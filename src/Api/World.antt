-- ===== src/Api/World.antt =====
-- What the API reads and writes: the tables, and the entries that it adds to the worker's stream and
-- publishes. `with get_connection() as conn` commits when its block returns and rolls back when it
-- raises; a statement or a commit that fails is the `Outcome` of the block.
use deploy_hub.Prelude.{String, ◌==◌, if◌then◌else◌, Bool, ◌&&◌, Option, none, some, List, [], ◌∷◌}
use deploy_hub.Action.{Outcome, Action, Result, ok, raised}
use deploy_hub.Schema.{State, Project, Deployment}

pub data Role : Type 0 where
  admin user : Role

pub data MemberRole : Type 0 where
  owner editor viewer : MemberRole

pub record Account : Type 0 where
  pub id : String
  pub email : Option String
  pub role : Role

pub record Member : Type 0 where
  pub project_id : String
  pub user_id : String
  pub role : MemberRole

pub record AuditEvent : Type 0 where
  pub project_id : Option String
  pub user_id : String
  pub action : String
  pub resource_type : String
  pub resource_id : String

-- An entry of deploy_stream.
pub record StreamEntry : Type 0 where
  pub deployment_id : String
  pub project_id : String
  pub repo_url : String
  pub branch : Option String
  pub image_name : String
  pub is_rollback : Bool

pub record World : Type 0 where
  pub users : List Account
  pub projects : List Project
  pub members : List Member
  pub deployments : List Deployment
  pub audit_logs : List AuditEvent
  pub stream : List StreamEntry  -- newest first
  pub published : List (String × State)

-- The block of a connection: what it wrote stays only if it returns.
abbrev pub settle : {A : Type 0} → World → Result A × World → Result A × World
settle w (ok a, v) = (ok a, v)
settle w (raised e, v) = (raised e, w)

abbrev pub transaction : {A : Type 0} → Outcome → Action World A → Action World A
transaction none m w = settle w (m w)
transaction (some e) m w = (raised e, w)

-- `log_audit_event` of api/audit.py: a failure is logged and dropped.
unfoldable pub log_audit_event : Outcome → AuditEvent → Action World Unit
log_audit_event none e w = (ok tt, record w { audit_logs = e ∷ w.audit_logs })
log_audit_event (some x) e w = (ok tt, w)

-- `SELECT role FROM project_members WHERE project_id = %s AND user_id = %s`.
unfoldable pub role_in : String → String → List Member → Option MemberRole
role_in p u [] = none
role_in p u (m ∷ ms) = if m.project_id == p && m.user_id == u then some m.role else role_in p u ms
