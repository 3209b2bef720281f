-- ===== src/Worker/Monitor.antt =====
-- `monitor_job` and `record_build` of worker/main.py: the thread that follows a build job. `Watch`
-- holds what the outside answers. A list of answers ends where the loop over it is left, or where the
-- call raises: the model covers the runs in which the job comes to an end, which Kubernetes enforces
-- by the job's activeDeadlineSeconds.
pub mod Rows
pub mod Gate
pub mod Returns
mod Tests
use Prim.Native.String.{◌++◌ as append}
use deploy_hub.Prelude.{
  ℕ, zero, suc, String, ltb, if◌then◌else◌, Bool, true, false, ◌&&◌, Option, none, some, List, [],
  ◌∷◌,
}
use deploy_hub.Action.{
  Exn, api_exception, name_error, exception, Outcome, Action, Result, ok, raised, pure, raise,
  ◌>>=◌, ◌>>◌, try_catch, finally, modify, call, attempt,
}
use deploy_hub.Text.{after_first, after_last, before_last}
use deploy_hub.Schema.{
  State, queued, building, deploying, Deployment, Build, BuildStatus, success, update_deployment,
}
use deploy_hub.Worker.World.{
  World, issue, publish_status, publish_log, upload_log, delete_job, inc, deployment_failure,
}
use deploy_hub.Worker.StateMachine.{Attempt, update_state}

pub data Phase : Type 0 where
  pending_phase started_phase other_phase : Phase  -- started: Running, Succeeded or Failed

pub record PodEvent : Type 0 where
  pub phase : Phase
  pub publish : Outcome

-- job.status, where a missing count is none.
pub record JobStatus : Type 0 where
  pub succeeded : Option ℕ
  pub failed : Option ℕ

pub data ScanStatus : Type 0 where
  in_progress pending complete other_status : ScanStatus

-- One answer of describe_image_scan_findings: the status, and the findings of the severity that
-- IMAGE_SCAN_FAIL_ON names.
pub record Scan : Type 0 where
  pub status : ScanStatus
  pub findings : ℕ

pub record Recording : Type 0 where
  pub build_id : String  -- uuid4
  pub insert : Outcome

pub record Watch : Type 0 where
  pub bucket : String  -- S3_LOG_BUCKET
  pub events : List PodEvent
  pub events_end : Outcome
  pub building_update : ℕ → Attempt
  pub log_lines : List (String × Outcome)
  pub log_end : Outcome
  pub polls : List JobStatus
  pub polls_end : Exn
  pub upload : Outcome
  pub ecr_client : Outcome
  pub exposed_port : Result (Option ℕ)  -- of the crane commands and `int(first_port)`
  pub port_update : Outcome
  pub scans : ℕ → Result Scan
  pub success_record : Recording
  pub deploying_update : ℕ → Attempt
  pub scan_record : Recording
  pub job_record : Recording
  pub error_record : Recording
  pub delete : Outcome

is_empty : String → Bool
is_empty String.[] = true
is_empty (String.◌∷◌ c s) = false

pub add_build : Build → World → World
add_build b w = record w { builds = b ∷ w.builds }

-- `record_build`. The row has no completed_at.
unfoldable pub record_build : String → String → BuildStatus → Recording → Action World Unit
unfolding is_empty add_build
record_build bucket deployment_id status r =
    if is_empty bucket
    then pure tt
    else attempt (
        call r.insert (
          add_build (record {
            build_id = r.build_id;
            deployment_id = deployment_id;
            s3_log_uri =
                append "s3://"
                  (append bucket (append "/logs/" (append deployment_id "/build.log")));
            status = status;
            completed_at = none;
          })))

-- One turn of the loop over the pod's events; `rest` is the loop behind it.
handle_event : String → Phase → Outcome → Action World Bool → Action World Bool
handle_event k started_phase publish rest = pure true
handle_event k pending_phase publish rest =
    call publish (issue (publish_status k queued none)) >> rest
handle_event k other_phase publish rest = rest

-- The loop over the pod's events: has the pod started?
wait_pod : String → List PodEvent → Outcome → Action World Bool
unfolding handle_event
wait_pod k [] end = call end (λ w. w) >> pure false
wait_pod k (e ∷ es) end = handle_event k e.phase e.publish (wait_pod k es end)

require_pod : Bool → Action World Unit
require_pod true = pure tt
require_pod false = raise (exception "Timed out waiting for Pod to be created")

forward_lines : String → List (String × Outcome) → Outcome → Action World Unit
forward_lines k [] end = call end (λ w. w)
forward_lines k ((line, o) ∷ ls) end =
    attempt (call o (issue (publish_log k line))) >> forward_lines k ls end

-- `except ApiException` of the log stream.
log_error : Exn → Action World Unit
log_error (api_exception n s) = pure tt
log_error e = raise e

stream_logs : String → Watch → Action World Unit
unfolding forward_lines log_error
stream_logs k a = try_catch (forward_lines k a.log_lines a.log_end) log_error

at_least_one : Option ℕ → Bool
at_least_one none = false
at_least_one (some n) = ltb 0 n

-- "Wait for Job to complete": did it succeed?
unfoldable pub poll_job : List JobStatus → Exn → Result Bool
unfolding at_least_one
poll_job [] end = raised end
poll_job (s ∷ rest) end =
    let later = poll_job rest end in
    if at_least_one s.succeeded then ok true else if at_least_one s.failed then ok false else later

lift : {A : Type 0} → Result A → Action World A
lift r w = (r, w)

abbrev pub set_port : ℕ → Deployment → Deployment
set_port p d = record d { port = p }

save_port : String → Outcome → Option ℕ → Action World Unit
unfolding update_deployment
save_port k o none = pure tt
save_port k o (some p) =
    call o (λ w. record w { deployments = update_deployment k (set_port p) w.deployments })

-- "Dynamic Port Detection via Crane".
detect_port : String → Watch → Action World Unit
unfolding save_port lift
detect_port k a = attempt (lift a.exposed_port >>= save_port k a.port_update)

abbrev pub is_unsettled : ScanStatus → Bool
is_unsettled in_progress = true
is_unsettled pending = true
is_unsettled _ = false

-- The polling loop of the gate, with the attempts that are left and the number of the next one.
scan_from : (ℕ → Result Scan) → ℕ → ℕ → Scan → Result Scan
scan_from scans zero n s = ok s
scan_from scans (suc left) n s = elim (is_unsettled s.status) [
  | false ↦ ok s
  | true ↦ elim (scans n) [ raised e ↦ raised e | ok r ↦ scan_from scans left (suc n) r ]
]

judge : Scan → Result (Unit {0})
judge s = elim s.status [
  | complete ↦
      if ltb 0 s.findings then raised (exception "Image scan: vulnerability found") else ok tt
  | _ ↦ ok tt
]

judge_result : Result Scan → Result (Unit {0})
unfolding judge
judge_result (ok s) = judge s
judge_result (raised e) = raised e

gate_of : Option String → Option String → (ℕ → Result Scan) → Result (Unit {0})
unfolding scan_from judge_result
gate_of (some tag) (some repo) scans =
    judge_result (scan_from scans 12 0 (record { status = in_progress; findings = 0 }))
gate_of none _ scans = raised (exception "not enough values to unpack")
gate_of (some tag) none scans = raised (exception "list index out of range")

-- "ECR Image Scanning Gate", over the image's name and what ECR answers.
unfoldable pub scan_gate : String → (ℕ → Result Scan) → Result (Unit {0})
unfolding gate_of after_last after_first before_last
scan_gate image scans =
    gate_of (after_last b':' image) (after_first b'/' (before_last b':' image)) scans

abbrev pub unbound_project : Exn
unbound_project = name_error "name 'project_id_db' is not defined"

-- The lines that end each failing path: the build is recorded, one counter is raised, and the labels
-- of the next counter name `project_id_db`, which is a variable of `process_message` alone.
report_failure : String → String → Recording → Action World Unit
unfolding record_build
report_failure k bucket r = do
  record_build bucket k BuildStatus.failed r
  modify (issue (inc deployment_failure))
  raise unbound_project

build_succeeded : String → String → Watch → Action World Unit
build_succeeded k image a = do
  call a.ecr_client (λ w. w)
  detect_port k a
  try_catch (lift (scan_gate image a.scans)) (λ e. report_failure k a.bucket a.scan_record)
  record_build a.bucket k success a.success_record
  update_state k deploying none a.deploying_update

conclude_job : String → String → Watch → Bool → Action World Unit
conclude_job k image a true = build_succeeded k image a
conclude_job k image a false = report_failure k a.bucket a.job_record

-- "Upload logs to S3".
upload_logs : String → Watch → Action World Unit
unfolding is_empty
upload_logs k a =
    if is_empty a.bucket then pure tt else attempt (call a.upload (issue (upload_log k)))

-- The body of the `try` statement.
follow : String → String → Watch → Action World Unit
follow k image a = do
  started ← wait_pod k a.events a.events_end
  require_pod started
  update_state k building none a.building_update
  stream_logs k a
  done ← lift (poll_job a.polls a.polls_end)
  upload_logs k a
  conclude_job k image a done

pub monitor_job : String → String → String → Watch → Action World Unit
monitor_job name k image a =
    finally (try_catch (follow k image a) (λ e. report_failure k a.bucket a.error_record))
      (attempt (call a.delete (issue (delete_job name))))
