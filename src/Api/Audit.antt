-- ===== src/Api/Audit.antt =====
-- The audit log, read: `get_audit_logs` of api/audit.py, and `get_audit_logs`,
-- `get_global_audit_logs` and `list_global_audit_logs` of api/main.py.
pub mod Visible
mod Tests
use deploy_hub.Prelude.{
  ℕ, String, ◌==◌, ltb, if◌then◌else◌, Bool, true, false, ◌&&◌, ◌||◌, not, Option, none, some, List,
  [], ◌∷◌, select,
}
use deploy_hub.Action.{Exn, http_exception, Outcome, Result, ok, raised}
use deploy_hub.Text.{truthy}
use deploy_hub.Ordered.{take, sort}
use deploy_hub.Schema.{Project, select_project}
use deploy_hub.Api.World.{AuditEvent}
use deploy_hub.Api.Access.{User, is_admin}

-- A row of audit_logs.
pub record Logged : Type 0 where
  pub event : AuditEvent
  pub timestamp : ℕ

-- `ORDER BY timestamp DESC`; rows of the same time come in any order.
abbrev pub newer : Logged → Logged → Bool
newer a b = ltb b.timestamp a.timestamp

abbrev pub same_text : String → Option String → Bool
same_text s none = false
same_text s (some t) = t == s

abbrev pub is_of_project : String → Logged → Bool
is_of_project k l = same_text k l.event.project_id

-- A parameter that the signature declares with `Query(ge=..., le=...)`: FastAPI refuses others.
abbrev pub in_query_range : ℕ → ℕ → ℕ → Bool
in_query_range low high n = not (ltb n low) && not (ltb high n)

abbrev pub unprocessable : Exn
unprocessable = http_exception 422 "Unprocessable Entity"

answer : {A : Type 0} → Outcome → String → List A → Result (List A)
answer none detail rows = ok rows
answer (some e) detail rows = raised (http_exception 500 detail)

-- The endpoint of a project, behind `verify_project_access`.
unfoldable pub get_audit_logs : Outcome → String → ℕ → List Logged → Result (List Logged)
unfolding answer take sort
get_audit_logs o k limit logs =
    if in_query_range 1 500 limit
    then answer o "Failed to fetch audit logs"
        (take limit (sort newer (select (is_of_project k) logs)))
    else raised unprocessable

-- `JOIN projects p ON a.project_id = p.id`.
abbrev pub project_of : Logged → List Project → Option Project
project_of l ps = elim l.event.project_id [ none ↦ none | some k ↦ select_project k ps ]

abbrev pub with_joined : Logged → Option Project → List (Logged × Project) → List (Logged × Project)
with_joined l none rest = rest
with_joined l (some p) rest = (l, p) ∷ rest

unfoldable pub join_projects : List Logged → List Project → List (Logged × Project)
unfolding select_project
join_projects [] ps = []
join_projects (l ∷ ls) ps = with_joined l (project_of l ps) (join_projects ls ps)

abbrev pub newer_joined : Logged × Project → Logged × Project → Bool
newer_joined a b = newer a.0 b.0

-- The WHERE clause: an administrator sees all, another user what he did and what is of his projects.
abbrev pub is_shown : User → Logged × Project → Bool
is_shown u (l, p) = is_admin u || (l.event.user_id == u.user_id || p.owner_id == u.user_id)

unfoldable pub get_global_audit_logs :
    Outcome → User → ℕ → List Logged → List Project → Result (List (Logged × Project))
unfolding answer join_projects take sort
get_global_audit_logs o u limit logs ps =
    if in_query_range 1 100 limit
    then answer o "Failed to fetch audit logs"
        (take limit (sort newer_joined (select (is_shown u) (join_projects logs ps))))
    else raised unprocessable

-- The administrator's endpoint; its limit has no lower bound, and is taken to be no negative number.
unfoldable pub list_global_audit_logs : Outcome → User → ℕ → List Logged → Result (List Logged)
unfolding answer take sort
list_global_audit_logs o u limit logs =
    if in_query_range 0 200 limit
    then (if is_admin u
        then answer o "Database error" (take limit (sort newer (select (λ l. true) logs)))
        else raised (http_exception 403 "Forbidden"))
    else raised unprocessable

-- MAX_AUDIT_LIMIT.
abbrev pub max_audit_limit : ℕ
max_audit_limit = 500

abbrev pub min : ℕ → ℕ → ℕ
min a b = if ltb a b then a else b

-- A condition that is added to the query if its parameter is given and not empty.
abbrev pub if_given : Option String → (String → Bool) → Bool
if_given none f = true
if_given (some s) f = if truthy (some s) then f s else true

abbrev pub matches : Option String → Option String → Logged → Bool
matches project_id user_id l =
    if_given project_id (λ k. is_of_project k l) && if_given user_id (λ u. l.event.user_id == u)

-- `get_audit_logs` of api/audit.py, for a limit that is no negative number.
unfoldable pub query_audit_logs :
    Outcome → Option String → Option String → ℕ → List Logged → Result (List Logged)
unfolding take sort
query_audit_logs (some e) project_id user_id limit logs = raised e
query_audit_logs none project_id user_id limit logs =
    ok (take (min limit max_audit_limit) (sort newer (select (matches project_id user_id) logs)))
