-- ===== src/Worker/Tests.antt =====
-- Concrete runs of the worker, and the theorems at inputs that meet their hypotheses.
use deploy_hub.Prelude.{
  ℕ, suc, ◌<◌, String, ◌≡◌, ◌≢◌, ◌↔◌, refl, Bool, true, false, Option, none, some, List, [], ◌∷◌,
  ◌⊎◌, arith, contains,
}
use deploy_hub.Action.{operational_error, ok}
use deploy_hub.Schema.{State, queued, running, Deployment, select_deployment}
use deploy_hub.Worker.World.{World, Message, absent}
use deploy_hub.Worker.StateMachine.{Attempt, get_deployment}
use deploy_hub.Worker.Queue.{Page, recover_pending_messages}
use deploy_hub.Worker.Queue.Recovery.{last, more, recover-Scan}

abbrev dep : String → State → Deployment
dep k s = record {
  deployment_id = k;
  project_id = "p1";
  repo_url = "https://github.com/acme/shop.git";
  image_uri = "reg/shipzen-builds/p1:d1";
  replicas = 1;
  port = 8080;
  health_check_path = "/";
  state = s;
  updated_at = 1;
  last_error = none;
}

abbrev start : World
start = record {
  deployments = dep "d1" queued ∷ dep "d2" running ∷ [];
  builds = [];
  conn = absent;
  issued = [];
}

-- Every call goes through.
abbrev calm : Attempt
calm = record { liveness = none; connect = none; execute = none; publish = none; now = 7 }

abbrev calm_attempts : ℕ → Attempt
calm_attempts n = calm

-- The database is away in the first attempt.
abbrev dropped_attempts : ℕ → Attempt
dropped_attempts ℕ.zero = record calm { connect = some (operational_error "gone") }
dropped_attempts (suc n) = calm

reads_the_row : (get_deployment "d2" calm_attempts start).0 ≡ ok (some (dep "d2" running))
unfolding get_deployment select_deployment
reads_the_row = refl

abbrev message : Message
message = record {
  deployment_id = some "d1";
  repo_url = some "https://github.com/acme/shop.git";
  branch = none;
  image_name = some "reg/shipzen-builds/p1:d1";
  is_rollback = none;
}

-- Two pages.
abbrev claim : ℕ → String → Page
claim ℕ.zero _ = ok ("5-0", ("1-0", message) ∷ ("2-0", message) ∷ [])
claim (suc n) _ = ok ("0-0", ("5-0", message) ∷ [])

cursor_goes_on : ◌≢◌ {A = String} "5-0" "0-0"
cursor_goes_on = ground (arith, deploy_hub.Prelude.eq_iff "5-0" "0-0")

recover-Scan_example :
    recover_pending_messages claim 9
    ≡ some (ok (("1-0", message) ∷ ("2-0", message) ∷ ("5-0", message) ∷ []))
recover-Scan_example =
    recover-Scan claim 2 9 (("1-0", message) ∷ ("2-0", message) ∷ ("5-0", message) ∷ [])
      (more {page = ("1-0", message) ∷ ("2-0", message) ∷ []} refl cursor_goes_on (last refl))
      (omega arith)

abbrev rust_files : List String
rust_files = "src" ∷ "Cargo.toml" ∷ []
