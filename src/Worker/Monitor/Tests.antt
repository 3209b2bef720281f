-- ===== src/Worker/Monitor/Tests.antt =====
-- Concrete jobs, and the theorems on them.
use deploy_hub.Prelude.{ℕ, zero, suc, String, ◌≡◌, refl, none, some, [], ◌∷◌}
use deploy_hub.Action.{exception, Result, ok}
use deploy_hub.Schema.{queued, Deployment}
use deploy_hub.Worker.World.{World, absent}
use deploy_hub.Worker.StateMachine.{Attempt, update_state}
use deploy_hub.Worker.Monitor.{
  Watch, Scan, Recording, started_phase, in_progress, complete, poll_job, scan_gate, monitor_job,
  follow, conclude_job, build_succeeded, wait_pod, require_pod, stream_logs, upload_logs,
  detect_port, record_build, lift,
}
use deploy_hub.Worker.Monitor.Rows.{NoneFailed, monitor_job-NoneFailed}
use deploy_hub.Worker.Monitor.Returns.{IsDeploying, monitor_job-IsDeploying}

abbrev dep : Deployment
dep = record {
  deployment_id = "d1";
  project_id = "p1";
  repo_url = "https://github.com/acme/shop.git";
  image_uri = "reg/shop:d1";
  replicas = 1;
  port = 8080;
  health_check_path = "/";
  state = queued;
  updated_at = 1;
  last_error = none;
}

abbrev start : World
start = record { deployments = dep ∷ []; builds = []; conn = absent; issued = [] }

abbrev calm_attempts : ℕ → Attempt
calm_attempts n = record {
  liveness = none;
  connect = none;
  execute = none;
  publish = none;
  now = 7;
}

abbrev recording : String → Recording
recording k = record { build_id = k; insert = none }

-- A clean image.
abbrev clean_scans : ℕ → Result Scan
clean_scans zero = ok (record { status = in_progress; findings = 0 })
clean_scans (suc n) = ok (record { status = complete; findings = 0 })

abbrev good_job : Watch
good_job = record {
  bucket = "logs";
  events = record { phase = started_phase; publish = none } ∷ [];
  events_end = none;
  building_update = calm_attempts;
  log_lines = ("step 1", none) ∷ [];
  log_end = none;
  polls =
      record { succeeded = none; failed = none }
      ∷ record { succeeded = some 1; failed = none }
      ∷ [];
  polls_end = exception "timeout";
  upload = none;
  ecr_client = none;
  exposed_port = ok (some 3000);
  port_update = none;
  scans = clean_scans;
  success_record = recording "b1";
  deploying_update = calm_attempts;
  scan_record = recording "b2";
  job_record = recording "b3";
  error_record = recording "b4";
  delete = none;
}

abbrev bad_job : Watch
bad_job = record good_job { polls = record { succeeded = none; failed = some 1 } ∷ [] }

monitor_job-NoneFailed_example :
    NoneFailed (monitor_job "build-d1" "d1" "reg/shop:d1" bad_job start).1
monitor_job-NoneFailed_example =
    monitor_job-NoneFailed "build-d1" "d1" "reg/shop:d1" bad_job start (λ e. cc, tt)

good_job_returns : (monitor_job "build-d1" "d1" "reg/shop:d1" good_job start).0 ≡ ok tt
unfolding monitor_job follow conclude_job build_succeeded wait_pod require_pod stream_logs
    upload_logs detect_port record_build update_state poll_job scan_gate lift
good_job_returns = refl

monitor_job-IsDeploying_example :
    IsDeploying "d1" (monitor_job "build-d1" "d1" "reg/shop:d1" good_job start).1
monitor_job-IsDeploying_example =
    monitor_job-IsDeploying "build-d1" "d1" "reg/shop:d1" good_job start good_job_returns
