-- ===== src/Worker/Process/Jobs.antt =====
-- The jobs that the handling of a message creates.
use deploy_hub.Prelude.{
  ℕ, String, ◌≡◌, refl, sym, subst, Bool, true, false, Option, none, some, inl, inr, All, arith,
  contains, Bool-cases, Option-cases,
}
use deploy_hub.Action.{
  Exn, text_of, Outcome, Result, ok, raised, call, pure, raise, ◌>>=◌, ◌>>◌, try_catch,
}
use deploy_hub.Action.Keeps.{Keeps-bind, Keeps-try, Keeps-finally, Keeps-call}
use deploy_hub.Schema.{State, Deployment, failed, deploying}
use deploy_hub.Text.{before_last, after_first}
use deploy_hub.Json.{Json}
use deploy_hub.Worker.World.{
  World, Message, Command, issue, make_workspace, git_clone, inc, dlq_depth, xack, xadd_dlq,
  remove_workspace, deployments_failed, deployment_failure, deployments_processing, create_job,
  create_repository, start_monitor, publish_status,
}
use deploy_hub.Worker.StateMachine.{Attempt, update_state, get_deployment}
use deploy_hub.Worker.StateMachine.Retry.{Written, update_state-Written, Read, get_deployment-Read}
use deploy_hub.Worker.Queue.{ack_message, add_to_dlq}
use deploy_hub.Worker.Builder.{Builder, Overrides, Registry, select_builder, generate_job_manifest}
use deploy_hub.Worker.Process.{
  Answers, Request, build, dead_letter, build_failed, start_build, handle_request, read_config,
  read_package, require_builder, ensure_repository, launch_job, require_name, job_failed,
  write_config, Config, is_in_progress, handle_parsed, process_message, parse_message,
}

-- The commands that create no job.
abbrev pub is_job : Command → Bool
is_job (create_job m) = true
is_job c = false

-- A predicate of the commands of the handling of `q`: it holds of all but the jobs, and of the jobs for
-- the request.
module _ (q : Request) (L : Command → Type 0) (others : (c : Command) → is_job c ≡ false → L c)
    (jobs : (b : Builder) (reg : Registry) (o : Overrides)
      → L (
          create_job
            (generate_job_manifest b reg q.deployment_id q.repo_url q.branch q.image_name o))) where
  -- It holds of every call that went through.
  pub record Issued (w : World) : Type 0 where
    pub calls : All L w.issued

  same : (w v : World) → v.issued ≡ w.issued → Issued w → Issued v
  same w v e h = record { calls = subst (All L) (sym e) h.calls }

  issue-Issued : (c : Command) (w : World) → is_job c ≡ false → Issued w → Issued (issue c w)
  issue-Issued c w n h = record { calls = (others c n, h.calls) }

  call-Issued :
      (o : Outcome) (c : Command) (w : World)
      → is_job c ≡ false
      → Issued w
      → Issued (call o (issue c) w).1
  call-Issued o c w n h = Keeps-call Issued o (issue c) w h (issue-Issued c w n h)

  Written-Issued :
      (k : String) (s : State) (e : Option String) (w : World) (p : Result (Unit {0}) × World)
      → Written k s e w p
      → Issued w
      → Issued p.1
  Written-Issued k s e w (ok _, v) (now, d, b, inl i) h = same w v i h
  Written-Issued k s e w (ok _, v) (now, d, b, inr i) h =
      same (issue (publish_status k s e) w) v i (issue-Issued (publish_status k s e) w refl h)
  Written-Issued k s e w (raised x, v) r h = same w v r.issued h

  update_state-Issued :
      (k : String) (s : State) (e : Option String) (attempts : ℕ → Attempt) (w : World)
      → Issued w
      → Issued (update_state k s e attempts w).1
  update_state-Issued k s e attempts w =
      Written-Issued k s e w (update_state k s e attempts w) (update_state-Written k s e w attempts)

  write_config-Issued :
      (k : String) (o : Outcome) (c : Option Config) (w : World)
      → Issued w
      → Issued (write_config k o c w).1
  write_config-Issued k o none w h = unfold write_config in h
  write_config-Issued k o (some c) w h = same w _ (unfold write_config in ground arith) h

  read_config-Issued :
      (k : String) (a : Answers) (w : World) → Issued w → Issued (read_config k a w).1
  unfolding read_config
  read_config-Issued k a w h = elim (Bool-cases (contains "shipzen.yaml" a.files)) [
    | inl e ↦ rw e (
        Keeps-bind Issued (a.config, w) (write_config k a.config_update) h
          (write_config-Issued k a.config_update))
    | inr e ↦ rw e h
  ]

  read_package-Issued :
      (a : Answers) (o : Overrides) (w : World) → Issued w → Issued (read_package a o w).1
  read_package-Issued a o w h = same w _ (unfold read_package in ground arith) h

  require_builder-Issued :
      (b : Option Builder) (w : World) → Issued w → Issued (require_builder b w).1
  require_builder-Issued b w h = same w _ (unfold require_builder in ground arith) h

  require_name-Issued : (m : Json) (w : World) → Issued w → Issued (require_name m w).1
  require_name-Issued m w h = same w _ (unfold require_name in ground arith) h

  ensure_repository-Issued :
      (i : String) (a : Answers) (w : World) → Issued w → Issued (ensure_repository i a w).1
  unfolding ensure_repository
  ensure_repository-Issued i a w h = elim (Option-cases (after_first b'/' (before_last b':' i))) [
    | inl n ↦ rw (n, ensure_repository) h
    | inr (repo, n) ↦ elim (Option-cases a.ecr_client) [
      | inr (x, f) ↦ rw (n, f, ensure_repository) h
      | inl f ↦
          rw (n, f, ensure_repository)
            (Keeps-try Issued (call a.create_repository (issue (create_repository repo)) w)
              (λ _. pure tt) (call-Issued a.create_repository (create_repository repo) w refl h)
              (λ _ _ g. g))
    ]
  ]

  launch_job-Issued :
      (o : Overrides) (a : Answers) (b : Builder) (w : World)
      → Issued w
      → Issued (launch_job q o a b w).1
  unfolding launch_job
  launch_job-Issued o a b w h =
      let m =
        generate_job_manifest b a.registry q.deployment_id q.repo_url q.branch q.image_name o in
      Keeps-bind Issued (require_name m w) _ (require_name-Issued m w h) λ job v h.
        Keeps-bind Issued
          (try_catch (call a.create_job (issue (create_job m))) (λ e. raise (job_failed e)) v) _
          (Keeps-try Issued (call a.create_job (issue (create_job m)) v) (λ e. raise (job_failed e))
            (Keeps-call Issued a.create_job (issue (create_job m)) v h
              (record { calls = (jobs b a.registry o, h.calls) }))
            (λ _ _ g. g))
          λ _ v h. call-Issued a.start (start_monitor job q.deployment_id) v refl h

  ack-Issued : (k : String) (o : Outcome) (w : World) → Issued w → Issued (ack_message k o w).1
  unfolding ack_message
  ack-Issued k o w h = call-Issued o (xack k) w refl h

  prepared-Issued :
      (k : String) (a : Answers) (configured : Overrides) (w : World)
      → Issued w
      → Issued
          ((read_package a configured >>= λ o. require_builder (select_builder a.files) >>= λ b.
              ensure_repository q.image_name a >> (launch_job q o a b >> ack_message k a.ack))
            w).1
  prepared-Issued k a configured w h =
      Keeps-bind Issued (read_package a configured w) _ (read_package-Issued a configured w h)
        λ o v h.
          Keeps-bind Issued (require_builder (select_builder a.files) v) _
            (require_builder-Issued (select_builder a.files) v h)
            λ b v h.
              Keeps-bind Issued (ensure_repository q.image_name a v) _
                (ensure_repository-Issued q.image_name a v h)
                λ _ v h.
                  Keeps-bind Issued (launch_job q o a b v) _ (launch_job-Issued o a b v h)
                    λ _ v h. ack-Issued k a.ack v h

  build-Issued : (k : String) (a : Answers) (w : World) → Issued w → Issued (build k q a w).1
  unfolding build
  build-Issued k a w h =
      Keeps-bind Issued (call a.makedirs (issue (make_workspace q.deployment_id)) w) _
        (call-Issued a.makedirs (make_workspace q.deployment_id) w refl h)
        λ _ v h.
          Keeps-bind Issued (call a.clone (issue (git_clone q.repo_url q.branch)) v) _
            (call-Issued a.clone (git_clone q.repo_url q.branch) v refl h)
            λ _ v h.
              Keeps-bind Issued (read_config q.deployment_id a v) _
                (read_config-Issued q.deployment_id a v h)
                λ configured v h. prepared-Issued k a configured v h

  add_to_dlq-Issued :
      (k : String) (m : Message) (add ack : Outcome) (w : World)
      → Issued w
      → Issued (add_to_dlq k m add ack w).1
  unfolding add_to_dlq
  add_to_dlq-Issued k m add ack w h =
      Keeps-bind Issued (call add (issue (xadd_dlq m)) w) _ (call-Issued add (xadd_dlq m) w refl h)
        (λ _. ack-Issued k ack)

  dead_letter-Issued :
      (k : String) (m : Message) (a : Answers) (w : World)
      → Issued w
      → Issued (dead_letter k m a w).1
  unfolding dead_letter
  dead_letter-Issued k m a w h =
      let u = issue (inc deployment_failure) w in
      let v = issue (inc deployments_failed) u in
      Keeps-bind Issued (add_to_dlq k m a.dlq_add a.dlq_ack v) _
        (add_to_dlq-Issued k m a.dlq_add a.dlq_ack v (
          issue-Issued (inc deployments_failed) u refl
            (issue-Issued (inc deployment_failure) w refl h)))
        λ _ v h. issue-Issued (inc dlq_depth) v refl h

  build_failed-Issued :
      (k : String) (m : Message) (a : Answers) (e : Exn) (w : World)
      → Issued w
      → Issued (build_failed k m q a e w).1
  unfolding build_failed
  build_failed-Issued k m a e w h =
      Keeps-bind Issued (update_state q.deployment_id failed (some (text_of e)) a.failed_update w) _
        (update_state-Issued q.deployment_id failed (some (text_of e)) a.failed_update w h)
        (λ _. dead_letter-Issued k m a)

  start_build-Issued :
      (k : String) (m : Message) (a : Answers) (w : World)
      → Issued w
      → Issued (start_build k m q a w).1
  unfolding start_build
  start_build-Issued k m a w h =
      let v : World = issue (inc deployments_processing) w in
      let p = try_catch (build k q a) (build_failed k m q a) v in
      Keeps-finally Issued p.0 (ok tt, issue (remove_workspace q.deployment_id) p.1)
        (issue-Issued (remove_workspace q.deployment_id) p.1 refl (
          Keeps-try Issued (build k q a v) (λ e. build_failed k m q a e)
            (build-Issued k a v (issue-Issued (inc deployments_processing) w refl h))
            (build_failed-Issued k m a)))

  handle_request-Issued :
      (k : String) (m : Message) (a : Answers) (d : Option Deployment) (w : World)
      → Issued w
      → Issued (handle_request k m q a d w).1
  unfolding handle_request
  handle_request-Issued k m a d w h = elim (Bool-cases (is_in_progress d)) [
    | inl e ↦ rw e (ack-Issued k a.ack w h)
    | inr e ↦ rw e (elim (Bool-cases q.is_rollback) [
      | inl r ↦ simp r (
          Keeps-bind Issued (update_state q.deployment_id deploying none a.rollback_update w) _
            (update_state-Issued q.deployment_id deploying none a.rollback_update w h)
            (λ _. ack-Issued k a.ack))
      | inr r ↦ simp r (start_build-Issued k m a w h)
    ])
  ]

  Read-Issued :
      (k : String) (w : World) (p : Result (Option Deployment) × World)
      → Read k w p
      → Issued w
      → Issued p.1
  Read-Issued k w (ok d, v) (e, r) h = same w v r.issued h
  Read-Issued k w (raised x, v) r h = same w v r.issued h

  -- It holds of every call after the handling of a message of this request if it does before.
  pub process_message-Issued :
      (k : String) (m : Message) (a : Answers) (w : World)
      → parse_message m ≡ some q
      → Issued w
      → Issued (process_message k m a w).1
  unfolding process_message handle_parsed
  process_message-Issued k m a w parsed h =
      rw (parsed, handle_parsed)
        (Keeps-bind Issued (get_deployment q.deployment_id a.fetch w) _
          (Read-Issued q.deployment_id w (get_deployment q.deployment_id a.fetch w)
            (get_deployment-Read q.deployment_id a.fetch w) h)
          (handle_request-Issued k m a))
