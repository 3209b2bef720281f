-- ===== src/Worker/Monitor/Rows.antt =====
-- What `monitor_job` leaves in the deployments table.
use deploy_hub.Prelude.{
  ℕ, String, ◌≡◌, ◌≢◌, Bool, true, false, Option, none, some, List, [], ◌∷◌, All, arith,
}
use deploy_hub.Action.{
  Exn, api_exception, Outcome, Action, Result, ok, raised, pure, ◌>>=◌, ◌>>◌, try_catch, call,
  attempt,
}
use deploy_hub.Action.Keeps.{Keeps-bind, Keeps-try, Keeps-finally, Keeps-call}
use deploy_hub.Schema.{building, deploying, failed, Deployment, BuildStatus, success}
use deploy_hub.Worker.World.{World, issue, delete_job}
use deploy_hub.Schema.Rows.{All-update}
use deploy_hub.Worker.StateMachine.{set_state, update_state}
use deploy_hub.Worker.StateMachine.AllRows.{AllRows, AllRows-same, update_state-AllRows}
use deploy_hub.Worker.Monitor.{
  Watch, PodEvent, Phase, started_phase, pending_phase, other_phase, handle_event, lift, Recording,
  monitor_job, follow, conclude_job, build_succeeded, report_failure, record_build, detect_port,
  save_port, wait_pod, require_pod, stream_logs, forward_lines, log_error, upload_logs, poll_job,
  scan_gate, set_port,
}

-- A predicate of rows that holds of what the monitor writes.
module _ (P : Deployment → Type 0)
    (writes_building : (now : ℕ) (d : Deployment) → P d → P (set_state building none now d))
    (writes_deploying : (now : ℕ) (d : Deployment) → P d → P (set_state deploying none now d))
    (writes_port : (p : ℕ) (d : Deployment) → P d → P (set_port p d)) where
  record_build-AllRows :
      (bucket k : String) (s : BuildStatus) (r : Recording) (w : World)
      → AllRows P w
      → AllRows P (record_build bucket k s r w).1
  record_build-AllRows bucket k s r w h = AllRows-same P w _ same h
    where
      same : (record_build bucket k s r w).1.deployments ≡ w.deployments
      same = unfold record_build in ground arith

  report_failure-AllRows :
      (k bucket : String) (r : Recording) (w : World)
      → AllRows P w
      → AllRows P (report_failure k bucket r w).1
  unfolding report_failure
  report_failure-AllRows k bucket r w h =
      Keeps-bind (AllRows P) (record_build bucket k BuildStatus.failed r w) _
        (record_build-AllRows bucket k BuildStatus.failed r w h) (λ _ _ g. record { rows = g.rows })

  handle_event-AllRows :
      (k : String) (phase : Phase) (publish : Outcome) (rest : Action World Bool) (w : World)
      → ((v : World) → AllRows P v → AllRows P (rest v).1)
      → AllRows P w
      → AllRows P (handle_event k phase publish rest w).1
  unfolding handle_event
  handle_event-AllRows k started_phase publish rest w g h = h
  handle_event-AllRows k other_phase publish rest w g h = g w h
  handle_event-AllRows k pending_phase none rest w g h = g _ (record { rows = h.rows })
  handle_event-AllRows k pending_phase (some x) rest w g h = h

  wait_pod-AllRows :
      (k : String) (es : List PodEvent) (end : Outcome) (w : World)
      → AllRows P w
      → AllRows P (wait_pod k es end w).1
  unfolding wait_pod
  wait_pod-AllRows k [] none w h = h
  wait_pod-AllRows k [] (some x) w h = h
  wait_pod-AllRows k (e ∷ es) end w h =
      handle_event-AllRows k e.phase e.publish (wait_pod k es end) w (wait_pod-AllRows k es end) h

  forward_lines-AllRows :
      (k : String) (ls : List (String × Outcome)) (end : Outcome) (w : World)
      → AllRows P w
      → AllRows P (forward_lines k ls end w).1
  unfolding forward_lines
  forward_lines-AllRows k [] end w h = Keeps-call (AllRows P) end (λ v. v) w h h
  forward_lines-AllRows k ((line, none) ∷ ls) end w h =
      forward_lines-AllRows k ls end _ (record { rows = h.rows })
  forward_lines-AllRows k ((line, some x) ∷ ls) end w h = forward_lines-AllRows k ls end w h

  log_error-AllRows : (x : Exn) (w : World) → AllRows P w → AllRows P (log_error x w).1
  unfolding log_error
  log_error-AllRows (api_exception n s) w h = h
  log_error-AllRows x w h = h

  stream_logs-AllRows :
      (k : String) (a : Watch) (w : World) → AllRows P w → AllRows P (stream_logs k a w).1
  unfolding stream_logs
  stream_logs-AllRows k a w h =
      Keeps-try (AllRows P) (forward_lines k a.log_lines a.log_end w) log_error
        (forward_lines-AllRows k a.log_lines a.log_end w h) log_error-AllRows

  upload_logs-AllRows :
      (k : String) (a : Watch) (w : World) → AllRows P w → AllRows P (upload_logs k a w).1
  upload_logs-AllRows k a w h = AllRows-same P w _ same h
    where
      same : (upload_logs k a w).1.deployments ≡ w.deployments
      same = unfold upload_logs in ground arith

  port_stage-AllRows :
      (k : String) (p : Result (Option ℕ)) (o : Outcome) (w : World)
      → AllRows P w
      → AllRows P (attempt (lift p >>= save_port k o) w).1
  unfolding lift save_port
  port_stage-AllRows k (raised x) o w h = h
  port_stage-AllRows k (ok none) o w h = h
  port_stage-AllRows k (ok (some p)) none w h = record {
    rows = All-update P k (set_port p) w.deployments (writes_port p) h.rows;
  }
  port_stage-AllRows k (ok (some p)) (some x) w h = h

  detect_port-AllRows :
      (k : String) (a : Watch) (w : World) → AllRows P w → AllRows P (detect_port k a w).1
  unfolding detect_port
  detect_port-AllRows k a w h = port_stage-AllRows k a.exposed_port a.port_update w h

  gate_stage-AllRows :
      (k : String) (a : Watch) (r : Result (Unit {0})) (w : World)
      → AllRows P w
      → AllRows P (try_catch (lift r) (λ e. report_failure k a.bucket a.scan_record) w).1
  unfolding lift
  gate_stage-AllRows k a (ok _) w h = h
  gate_stage-AllRows k a (raised x) w h = report_failure-AllRows k a.bucket a.scan_record w h

  build_succeeded-AllRows :
      (k image : String) (a : Watch) (w : World)
      → AllRows P w
      → AllRows P (build_succeeded k image a w).1
  unfolding build_succeeded
  build_succeeded-AllRows k image a w h =
      Keeps-bind (AllRows P) (call a.ecr_client (λ v. v) w) _
        (Keeps-call (AllRows P) a.ecr_client (λ v. v) w h h)
        λ _ v h. Keeps-bind (AllRows P) (detect_port k a v) _ (detect_port-AllRows k a v h) λ _ v h.
          Keeps-bind (AllRows P)
            (try_catch (lift (scan_gate image a.scans))
              (λ e. report_failure k a.bucket a.scan_record) v)
            _ (gate_stage-AllRows k a (scan_gate image a.scans) v h)
            λ _ v h.
              Keeps-bind (AllRows P) (record_build a.bucket k success a.success_record v) _
                (record_build-AllRows a.bucket k success a.success_record v h)
                λ _ v h.
                  update_state-AllRows P k deploying none a.deploying_update v writes_deploying h

  conclude_job-AllRows :
      (k image : String) (a : Watch) (done : Bool) (w : World)
      → AllRows P w
      → AllRows P (conclude_job k image a done w).1
  unfolding conclude_job
  conclude_job-AllRows k image a true w h = build_succeeded-AllRows k image a w h
  conclude_job-AllRows k image a false w h = report_failure-AllRows k a.bucket a.job_record w h

  require_pod-AllRows : (b : Bool) (w : World) → AllRows P w → AllRows P (require_pod b w).1
  unfolding require_pod
  require_pod-AllRows true w h = h
  require_pod-AllRows false w h = h

  poll_stage-AllRows :
      (k image : String) (a : Watch) (r : Result Bool) (w : World)
      → AllRows P w
      → AllRows P ((lift r >>= λ done. upload_logs k a >> conclude_job k image a done) w).1
  unfolding lift
  poll_stage-AllRows k image a (raised x) w h = h
  poll_stage-AllRows k image a (ok done) w h =
      Keeps-bind (AllRows P) (upload_logs k a w) _ (upload_logs-AllRows k a w h)
        (λ _. conclude_job-AllRows k image a done)

  follow-AllRows :
      (k image : String) (a : Watch) (w : World) → AllRows P w → AllRows P (follow k image a w).1
  unfolding follow
  follow-AllRows k image a w h =
      Keeps-bind (AllRows P) (wait_pod k a.events a.events_end w) _
        (wait_pod-AllRows k a.events a.events_end w h)
        λ started v h.
          Keeps-bind (AllRows P) (require_pod started v) _ (require_pod-AllRows started v h)
            λ _ v h.
              Keeps-bind (AllRows P) (update_state k building none a.building_update v) _
                (update_state-AllRows P k building none a.building_update v writes_building h)
                λ _ v h.
                  Keeps-bind (AllRows P) (stream_logs k a v) _ (stream_logs-AllRows k a v h)
                    λ _ v h. poll_stage-AllRows k image a (poll_job a.polls a.polls_end) v h

  pub monitor_job-AllRows :
      (name k image : String) (a : Watch) (w : World)
      → AllRows P w
      → AllRows P (monitor_job name k image a w).1
  unfolding monitor_job
  monitor_job-AllRows name k image a w h =
      let p : Result (Unit {0}) × World =
        try_catch (follow k image a) (λ e. report_failure k a.bucket a.error_record) w in
      Keeps-finally (AllRows P) p.0 (attempt (call a.delete (issue (delete_job name))) p.1) (
        Keeps-try (AllRows P) (call a.delete (issue (delete_job name)) p.1) (λ _. pure tt)
          (Keeps-call (AllRows P) a.delete (issue (delete_job name)) p.1 kept
            (record { rows = kept.rows }))
          (λ _ _ g. g))
    where
      kept :
          AllRows P
            (try_catch (follow k image a) (λ e. report_failure k a.bucket a.error_record) w).1
      kept =
          Keeps-try (AllRows P) (follow k image a w) (λ e. report_failure k a.bucket a.error_record)
            (follow-AllRows k image a w h) (λ _. report_failure-AllRows k a.bucket a.error_record)

-- No row is in the state Failed.
abbrev pub NoneFailed : World → Type 0
NoneFailed w = All (λ d. d.state ≢ failed) w.deployments

-- `monitor_job` never sets a deployment to Failed, whatever goes wrong: if no row was Failed before
-- it, none is after it.
pub monitor_job-NoneFailed :
    (name k image : String) (a : Watch) (w : World)
    → NoneFailed w
    → NoneFailed (monitor_job name k image a w).1
monitor_job-NoneFailed name k image a w h =
    (monitor_job-AllRows (λ d. d.state ≢ failed) (λ _ _ _ e. cc) (λ _ _ _ e. cc) (λ _ _ g. g) name k
      image a w (record { rows = h })).rows
