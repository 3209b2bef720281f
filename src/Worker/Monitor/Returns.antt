-- ===== src/Worker/Monitor/Returns.antt =====
-- When `monitor_job` returns, and what it raises.
use deploy_hub.Prelude.{
  String, eq_refl, ◌≡◌, ◌≢◌, refl, sym, ◌∙◌, Bool, true, false, Option, none, some, arith, inl, inr,
  Option-cases,
}
use deploy_hub.Action.{Action, Result, ok, raised, ◌>>=◌, ◌>>◌, conclude, try_catch, call, attempt}
use deploy_hub.Action.Keeps.{Returns, Returns-bind, Returns-try, Returns-elim}
use deploy_hub.Schema.{building, deploying, Deployment, BuildStatus, success, select_deployment}
use deploy_hub.Schema.Rows.{map_row}
use deploy_hub.Worker.World.{World, issue, delete_job}
use deploy_hub.Worker.StateMachine.{set_state, update_state}
use deploy_hub.Worker.StateMachine.Retry.{Rows, update_state-Rows}
use deploy_hub.Worker.Monitor.{
  Watch, Recording, lift, monitor_job, follow, conclude_job, build_succeeded, report_failure,
  record_build, poll_job, scan_gate, upload_logs, wait_pod, require_pod, stream_logs, detect_port,
}

-- The row of the deployment, where there is one, is Deploying and has no error.
abbrev pub IsDeploying : String → World → Type 0
IsDeploying k w =
    (d : Deployment)
    → select_deployment k w.deployments ≡ some d
    → (d.state ≡ deploying) × (d.last_error ≡ none)

report_failure_raises :
    (Q : World → Type 0) (k bucket : String) (r : Recording) (w : World)
    → Returns Q (report_failure k bucket r w)
unfolding report_failure
report_failure_raises Q k bucket r w =
    Returns-bind Q (record_build bucket k BuildStatus.failed r w) _ (λ _ _. tt)

Rows-IsDeploying :
    (k : String) (w : World) (p : Result (Unit {0}) × World)
    → Rows k deploying none w p
    → Returns (IsDeploying k) p
Rows-IsDeploying k w (ok _, v) (now, rows) =
    λ d e. deploying_row (select_deployment k w.deployments) d (sym (rows k ∙ rw eq_refl) ∙ e)
  where
    deploying_row :
        (o : Option Deployment) (d : Deployment)
        → map_row (set_state deploying none now) o ≡ some d
        → (d.state ≡ deploying) × (d.last_error ≡ none)
    deploying_row none d e = cc
    deploying_row (some c) d e = ground arith
Rows-IsDeploying k w (raised x, v) h = tt

gate_stage-Returns :
    (Q : World → Type 0) (k : String) (a : Watch) (image : String)
    (f : Unit {0} → Action World Unit) (w : World)
    → ((u : Unit {0}) (v : World) → Returns Q (f u v))
    → Returns Q (
        (try_catch (lift (scan_gate image a.scans)) (λ e. report_failure k a.bucket a.scan_record)
            >>= f)
          w)
gate_stage-Returns Q k a image f w h =
    Returns-bind Q
      (try_catch (lift (scan_gate image a.scans)) (λ e. report_failure k a.bucket a.scan_record) w)
      f h

build_succeeded-Returns :
    (k image : String) (a : Watch) (w : World)
    → Returns (IsDeploying k) (build_succeeded k image a w)
unfolding build_succeeded
build_succeeded-Returns k image a w =
    Returns-bind (IsDeploying k) (call a.ecr_client (λ v. v) w) _ λ _ v.
      Returns-bind (IsDeploying k) (detect_port k a v) _ λ _ v.
        gate_stage-Returns (IsDeploying k) k a image _ v λ _ v.
          Returns-bind (IsDeploying k) (record_build a.bucket k success a.success_record v) _ λ _ v.
            Rows-IsDeploying k v (update_state k deploying none a.deploying_update v)
              (update_state-Rows k deploying none a.deploying_update v)

conclude_job-Returns :
    (k image : String) (a : Watch) (done : Bool) (w : World)
    → Returns (IsDeploying k) (conclude_job k image a done w)
unfolding conclude_job
conclude_job-Returns k image a true w = build_succeeded-Returns k image a w
conclude_job-Returns k image a false w =
    report_failure_raises (IsDeploying k) k a.bucket a.job_record w

module _ (Q : World → Type 0) (k image : String) (a : Watch) where
  poll_stage-Returns :
      (r : Result Bool) (w : World)
      → ((done : Bool) → r ≡ ok done → (v : World) → Returns Q (conclude_job k image a done v))
      → Returns Q ((lift r >>= λ done. upload_logs k a >> conclude_job k image a done) w)
  unfolding lift
  poll_stage-Returns (raised x) w h = tt
  poll_stage-Returns (ok done) w h = Returns-bind Q (upload_logs k a w) _ (λ _. h done refl)

  -- `follow` returns only through the end of the job.
  follow-Returns :
      (w : World)
      → ((done : Bool)
          → poll_job a.polls a.polls_end ≡ ok done
          → (v : World) → Returns Q (conclude_job k image a done v))
      → Returns Q (follow k image a w)
  unfolding follow
  follow-Returns w h = Returns-bind Q (wait_pod k a.events a.events_end w) _ λ started v.
      Returns-bind Q (require_pod started v) _ λ _ v.
        Returns-bind Q (update_state k building none a.building_update v) _ λ _ v.
          Returns-bind Q (stream_logs k a v) _
            λ _ v. poll_stage-Returns (poll_job a.polls a.polls_end) v h

  -- The end of the `finally` block leaves the rows as they are.
  cleaned-Returns :
      (name : String) (p : Result (Unit {0}) × World)
      → ((v : World) → Q v → Q (issue (delete_job name) v))
      → Returns Q p
      → Returns Q (conclude p.0 (attempt (call a.delete (issue (delete_job name))) p.1))
  cleaned-Returns name (ok _, v) keep h = elim (Option-cases a.delete) [
    | inl e ↦ rw e (keep v h)
    | inr (x, e) ↦ rw e h
  ]
  cleaned-Returns name (raised x, v) keep h = elim (Option-cases a.delete) [
    | inl e ↦ rw e tt
    | inr (y, e) ↦ rw e tt
  ]

  monitor_job-Returns :
      (name : String) (w : World)
      → ((v : World) → Q v → Q (issue (delete_job name) v))
      → ((done : Bool)
          → poll_job a.polls a.polls_end ≡ ok done
          → (v : World) → Returns Q (conclude_job k image a done v))
      → Returns Q (monitor_job name k image a w)
  unfolding monitor_job
  monitor_job-Returns name w keep h =
      cleaned-Returns name
        (try_catch (follow k image a) (λ e. report_failure k a.bucket a.error_record) w) keep
        (Returns-try Q (follow k image a w) (λ e. report_failure k a.bucket a.error_record)
          (follow-Returns w h) (λ _. report_failure_raises Q k a.bucket a.error_record))

-- If `monitor_job` returns, the row of its deployment is Deploying with no error.
pub monitor_job-IsDeploying :
    (name k image : String) (a : Watch) (w : World)
    → (monitor_job name k image a w).0 ≡ ok tt
    → IsDeploying k (monitor_job name k image a w).1
monitor_job-IsDeploying name k image a w =
    Returns-elim (IsDeploying k) (monitor_job name k image a w) tt (
      monitor_job-Returns (IsDeploying k) k image a name w (λ _ h. h)
        (λ done _. conclude_job-Returns k image a done))

-- If the job has failed, or its status cannot be read, `monitor_job` does not return: it raises.
pub monitor_job_raises :
    (name k image : String) (a : Watch) (w : World)
    → poll_job a.polls a.polls_end ≢ ok true
    → (monitor_job name k image a w).0 ≢ ok tt
monitor_job_raises name k image a w h e =
    Returns-elim (λ _. ⊥) (monitor_job name k image a w) tt
      (monitor_job-Returns (λ _. ⊥) k image a name w (λ _ b. b) fails) e
  where
    fails :
        (done : Bool)
        → poll_job a.polls a.polls_end ≡ ok done
        → (v : World) → Returns (λ _. ⊥) (conclude_job k image a done v)
    fails true p v = absurd (h p)
    fails false p v =
        unfold conclude_job in report_failure_raises (λ _. ⊥) k a.bucket a.job_record v
