-- ===== src/Api/Audit/Tests.antt =====
-- A log of three events, read by a user and by an administrator.
use deploy_hub.Prelude.{ℕ, String, ◌≡◌, refl, true, none, some, List, [], ◌∷◌}
use deploy_hub.Action.{ok}
use deploy_hub.Ordered.{take, sort}
use deploy_hub.Schema.{ready, Project}
use deploy_hub.Api.World.{user, admin}
use deploy_hub.Api.Access.{User, is_admin}
use deploy_hub.Api.Audit.{
  Logged, is_of_project, matches, min, get_audit_logs, list_global_audit_logs, query_audit_logs,
}
use deploy_hub.Api.Audit.Visible.{Capped, audit_logs-Newest}

abbrev project : String → String → Project
project k u = record {
  id = k;
  owner_id = u;
  name = k;
  namespace = k;
  status = ready;
  webhook_secret = none;
  deleted_at = none;
}

abbrev logged : String → String → ℕ → Logged
logged k u t = record {
  event = record {
    project_id = some k;
    user_id = u;
    action = "DEPLOY";
    resource_type = "deployment";
    resource_id = "d1";
  };
  timestamp = t;
}

abbrev logs : List Logged
logs = logged "p1" "ada" 1 ∷ logged "p2" "eve" 3 ∷ logged "p1" "eve" 2 ∷ []

abbrev projects : List Project
projects = project "p1" "ada" ∷ project "p2" "bob" ∷ []

abbrev ada : User
ada = record { user_id = "ada"; role = user }

abbrev root : User
root = record { user_id = "root"; role = admin }

abbrev newest_two : List Logged
newest_two = logged "p2" "eve" 3 ∷ logged "p1" "eve" 2 ∷ []

audit_logs-Newest_example :
    (get_audit_logs none "p1" 2 logs ≡ ok newest_two
      → Capped (is_of_project "p1") 2 500 logs newest_two)
    × (list_global_audit_logs none root 2 logs ≡ ok newest_two
        → (is_admin root ≡ true) × Capped (λ l. true) 2 200 logs newest_two)
    × (query_audit_logs none none (some "eve") 2 logs ≡ ok newest_two
        → Capped (matches none (some "eve")) (min 2 500) 500 logs newest_two)
audit_logs-Newest_example = audit_logs-Newest none "p1" root none (some "eve") 2 logs newest_two

-- The last two are answered so.
admin_reads : list_global_audit_logs none root 2 logs ≡ ok newest_two
unfolding list_global_audit_logs take sort
admin_reads = refl
