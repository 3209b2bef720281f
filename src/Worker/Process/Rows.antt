-- ===== src/Worker/Process/Rows.antt =====
-- What `process_message` leaves in the deployments table.
use deploy_hub.Prelude.{ℕ, String, ◌||◌, Option, none, some, arith, contains, Bool-cases, inl, inr}
use deploy_hub.Action.{Exn, text_of, Outcome, ok, call, pure, ◌>>=◌, ◌>>◌, try_catch}
use deploy_hub.Action.Keeps.{Keeps-bind, Keeps-try, Keeps-finally, Keeps-call}
use deploy_hub.Schema.{Deployment, update_deployment, failed, deploying}
use deploy_hub.Schema.Rows.{All-update}
use deploy_hub.Text.{truthy}
use deploy_hub.Worker.World.{
  World, Message, issue, make_workspace, git_clone, inc, remove_workspace, deployments_processing,
}
use deploy_hub.Worker.StateMachine.{set_state}
use deploy_hub.Worker.StateMachine.AllRows.{
  AllRows, AllRows-same, update_state-AllRows, get_deployment-AllRows,
}
use deploy_hub.Worker.Queue.{ack_message, add_to_dlq}
use deploy_hub.Worker.Builder.{Builder, Overrides, select_builder}
use deploy_hub.Worker.Process.{
  Answers, Request, build, dead_letter, build_failed, start_build, handle_request, handle_parsed,
  process_message, parse_message, read_config, read_package, require_builder, ensure_repository,
  launch_job, write_config, Config, is_in_progress, apply_config, positive,
}

-- A predicate of rows that holds of what the handling writes.
module _ (P : Deployment → Type 0)
    (writes_failed : (text : String) (now : ℕ) (d : Deployment)
      → P d
      → P (set_state failed (some text) now d))
    (writes_deploying : (now : ℕ) (d : Deployment) → P d → P (set_state deploying none now d))
    (writes_config : (c : Config) (d : Deployment) → P d → P (apply_config c d)) where
  write_call-AllRows :
      (k : String) (o : Outcome) (c : Config) (w : World)
      → AllRows P w
      → AllRows P (write_config k o (some c) w).1
  unfolding write_config
  write_call-AllRows k o c w h = elim (Bool-cases (positive c.port || truthy c.health_check_path)) [
    | inl e ↦ rw e (write_stage o)
    | inr e ↦ rw e h
  ]
    where
      write_stage :
          (o : Outcome)
          → AllRows P
              ((call o (λ v. record v {
                deployments = update_deployment k (apply_config c) v.deployments;
              })
                  >> pure c.overrides)
                w).1
      write_stage none = record {
        rows = All-update P k (apply_config c) w.deployments (writes_config c) h.rows;
      }
      write_stage (some x) = h

  write_config-AllRows :
      (k : String) (o : Outcome) (c : Option Config) (w : World)
      → AllRows P w
      → AllRows P (write_config k o c w).1
  write_config-AllRows k o none w h = unfold write_config in h
  write_config-AllRows k o (some c) w h = write_call-AllRows k o c w h

  read_config-AllRows :
      (k : String) (a : Answers) (w : World) → AllRows P w → AllRows P (read_config k a w).1
  unfolding read_config
  read_config-AllRows k a w h = elim (Bool-cases (contains "shipzen.yaml" a.files)) [
    | inl e ↦ rw e (
        Keeps-bind (AllRows P) (a.config, w) (write_config k a.config_update) h
          (write_config-AllRows k a.config_update))
    | inr e ↦ rw e h
  ]

  read_package-AllRows :
      (a : Answers) (o : Overrides) (w : World) → AllRows P w → AllRows P (read_package a o w).1
  read_package-AllRows a o w h = AllRows-same P w _ (unfold read_package in ground arith) h

  require_builder-AllRows :
      (b : Option Builder) (w : World) → AllRows P w → AllRows P (require_builder b w).1
  require_builder-AllRows b w h = AllRows-same P w _ (unfold require_builder in ground arith) h

  ensure_repository-AllRows :
      (i : String) (a : Answers) (w : World) → AllRows P w → AllRows P (ensure_repository i a w).1
  ensure_repository-AllRows i a w h =
      AllRows-same P w _ (unfold ensure_repository in ground arith) h

  launch_job-AllRows :
      (q : Request) (o : Overrides) (a : Answers) (b : Builder) (w : World)
      → AllRows P w
      → AllRows P (launch_job q o a b w).1
  launch_job-AllRows q o a b w h = AllRows-same P w _ (unfold launch_job in ground arith) h

  ack-AllRows :
      (k : String) (o : Outcome) (w : World) → AllRows P w → AllRows P (ack_message k o w).1
  ack-AllRows k o w h = AllRows-same P w _ (unfold ack_message in ground arith) h

  prepared-AllRows :
      (k : String) (q : Request) (a : Answers) (configured : Overrides) (w : World)
      → AllRows P w
      → AllRows P
          ((read_package a configured >>= λ o. require_builder (select_builder a.files) >>= λ b.
              ensure_repository q.image_name a >> (launch_job q o a b >> ack_message k a.ack))
            w).1
  prepared-AllRows k q a configured w h =
      Keeps-bind (AllRows P) (read_package a configured w) _ (read_package-AllRows a configured w h)
        λ o v h.
          Keeps-bind (AllRows P) (require_builder (select_builder a.files) v) _
            (require_builder-AllRows (select_builder a.files) v h)
            λ b v h.
              Keeps-bind (AllRows P) (ensure_repository q.image_name a v) _
                (ensure_repository-AllRows q.image_name a v h)
                λ _ v h.
                  Keeps-bind (AllRows P) (launch_job q o a b v) _ (launch_job-AllRows q o a b v h)
                    λ _ v h. ack-AllRows k a.ack v h

  build-AllRows :
      (k : String) (q : Request) (a : Answers) (w : World)
      → AllRows P w
      → AllRows P (build k q a w).1
  unfolding build
  build-AllRows k q a w h =
      Keeps-bind (AllRows P) (call a.makedirs (issue (make_workspace q.deployment_id)) w) _
        (Keeps-call (AllRows P) a.makedirs (issue (make_workspace q.deployment_id)) w h
          (record { rows = h.rows }))
        λ _ v h.
          Keeps-bind (AllRows P) (call a.clone (issue (git_clone q.repo_url q.branch)) v) _
            (Keeps-call (AllRows P) a.clone (issue (git_clone q.repo_url q.branch)) v h
              (record { rows = h.rows }))
            λ _ v h.
              Keeps-bind (AllRows P) (read_config q.deployment_id a v) _
                (read_config-AllRows q.deployment_id a v h)
                λ configured v h. prepared-AllRows k q a configured v h

  dead_letter-AllRows :
      (k : String) (m : Message) (a : Answers) (w : World)
      → AllRows P w
      → AllRows P (dead_letter k m a w).1
  dead_letter-AllRows k m a w h =
      AllRows-same P w _ (unfold dead_letter add_to_dlq ack_message in ground arith) h

  build_failed-AllRows :
      (k : String) (m : Message) (q : Request) (a : Answers) (e : Exn) (w : World)
      → AllRows P w
      → AllRows P (build_failed k m q a e w).1
  unfolding build_failed
  build_failed-AllRows k m q a e w h =
      Keeps-bind (AllRows P) _ _
        (update_state-AllRows P q.deployment_id failed (some (text_of e)) a.failed_update w
          (writes_failed (text_of e)) h)
        (λ _. dead_letter-AllRows k m a)

  start_build-AllRows :
      (k : String) (m : Message) (q : Request) (a : Answers) (w : World)
      → AllRows P w
      → AllRows P (start_build k m q a w).1
  unfolding start_build
  start_build-AllRows k m q a w h =
      let v : World = issue (inc deployments_processing) w in
      let p =
        Keeps-try (AllRows P) (build k q a v) (λ e. build_failed k m q a e)
          (build-AllRows k q a v (record { rows = h.rows })) (build_failed-AllRows k m q a) in
      Keeps-finally (AllRows P) (try_catch (build k q a) (build_failed k m q a) v).0
        (
          ok tt,
          issue (remove_workspace q.deployment_id)
              (try_catch (build k q a) (build_failed k m q a) v).1,
        )
        (record { rows = p.rows })

  handle_request-AllRows :
      (k : String) (m : Message) (q : Request) (a : Answers) (d : Option Deployment) (w : World)
      → AllRows P w
      → AllRows P (handle_request k m q a d w).1
  unfolding handle_request
  handle_request-AllRows k m q a d w h = elim (Bool-cases (is_in_progress d)) [
    | inl e ↦ rw e (ack-AllRows k a.ack w h)
    | inr e ↦ rw e (elim (Bool-cases q.is_rollback) [
      | inl r ↦ simp r (
          Keeps-bind (AllRows P) _ _
            (update_state-AllRows P q.deployment_id deploying none a.rollback_update w
              writes_deploying h)
            (λ _. ack-AllRows k a.ack))
      | inr r ↦ simp r (start_build-AllRows k m q a w h)
    ])
  ]

  handle_parsed-AllRows :
      (k : String) (m : Message) (a : Answers) (o : Option Request) (w : World)
      → AllRows P w
      → AllRows P (handle_parsed k m a o w).1
  unfolding handle_parsed
  handle_parsed-AllRows k m a none w h =
      AllRows-same P w _ (unfold add_to_dlq ack_message in ground arith) h
  handle_parsed-AllRows k m a (some q) w h =
      Keeps-bind (AllRows P) _ _ (get_deployment-AllRows P q.deployment_id a.fetch w h)
        (handle_request-AllRows k m q a)

  -- It holds of every row after the handling of a message if it does before, whatever fails.
  pub process_message-AllRows :
      (k : String) (m : Message) (a : Answers) (w : World)
      → AllRows P w
      → AllRows P (process_message k m a w).1
  unfolding process_message
  process_message-AllRows k m a w h = handle_parsed-AllRows k m a (parse_message m) w h
