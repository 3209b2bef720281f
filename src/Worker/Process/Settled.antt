-- ===== src/Worker/Process/Settled.antt =====
-- A message is acknowledged exactly when its handling returns, and then once.
use deploy_hub.Prelude.{
  ℕ, ◌+◌, String, ◌==◌, eq_refl, ◌≡◌, refl, ◌∙◌, ap, subst, if◌then◌else◌, inl, inr, Bool, false,
  Option, none, some, ◌∷◌, arith, count, contains, Bool-cases,
}
use deploy_hub.Action.{Exn, text_of, Outcome, Result, ok, raised, call}
use deploy_hub.Action.Counts.{
  Counts, Counts-same, Counts-from, Counts-bind, Counts-try, Counts-finally, Counts-call,
  Counts-then_modify,
}
use deploy_hub.Schema.{State, Deployment, failed, deploying}
use deploy_hub.Worker.World.{
  World, Message, Command, publish_status, xack, xadd_dlq, issue, inc, dlq_depth, remove_workspace,
  deployments_failed, deployment_failure, deployments_processing,
}
use deploy_hub.Worker.StateMachine.{Attempt, update_state, get_deployment}
use deploy_hub.Worker.StateMachine.Retry.{Written, Read, update_state-Written, get_deployment-Read}
use deploy_hub.Worker.Queue.{ack_message, add_to_dlq}
use deploy_hub.Worker.Builder.{Builder, Overrides, select_builder}
use deploy_hub.Worker.Process.{
  Answers, Request, build, dead_letter, build_failed, start_build, handle_request, handle_parsed,
  process_message, parse_message, read_config, read_package, require_builder, ensure_repository,
  launch_job, write_config, Config, is_in_progress,
}

-- How many of the calls that went through pass a test.
abbrev pub tally : (Command → Bool) → World → ℕ
tally c w = count c w.issued

abbrev pub is_ack : String → Command → Bool
is_ack k (xack j) = j == k
is_ack k _ = false

module _ (c : Command → Bool) (w : World) where
  Written-Counts :
      (k : String) (s : State) (e : Option String) (p : Result (Unit {0}) × World)
      → c (publish_status k s e) ≡ false
      → Written k s e w p
      → Counts (tally c) 0 w p
  Written-Counts k s e (ok _, v) h (now, d, b, inl i) = omega (arith, ap (count c) i)
  Written-Counts k s e (ok _, v) h (now, d, b, inr i) = ap (count c) i ∙ skip_one
    where
      skip_one : count c (publish_status k s e ∷ w.issued) ≡ 0 + count c w.issued
      skip_one = rw h
  Written-Counts k s e (raised x, v) h r = ap (count c) r.issued

  pub update_state-Counts :
      (k : String) (s : State) (e : Option String) (attempts : ℕ → Attempt)
      → c (publish_status k s e) ≡ false
      → Counts (tally c) 0 w (update_state k s e attempts w)
  update_state-Counts k s e attempts h =
      Written-Counts k s e (update_state k s e attempts w) h (update_state-Written k s e w attempts)

  Read-Counts :
      (k : String) (p : Result (Option Deployment) × World) → Read k w p → Counts (tally c) 0 w p
  Read-Counts k (ok d, v) (e, h) = omega (arith, ap (count c) h.issued)
  Read-Counts k (raised x, v) h = ap (count c) h.issued

  pub get_deployment-Counts :
      (k : String) (attempts : ℕ → Attempt) → Counts (tally c) 0 w (get_deployment k attempts w)
  get_deployment-Counts k attempts =
      Read-Counts k (get_deployment k attempts w) (get_deployment-Read k attempts w)

-- The handling of the message `k`, and the acknowledgements of an id.
module _ (k id : String) where
  abbrev acks : World → ℕ
  acks = tally (is_ack id)

  abbrev once : ℕ
  once = if k == id then 1 else 0

  ack-Counts : (o : Outcome) (w : World) → Counts acks once w (ack_message k o w)
  unfolding ack_message
  ack-Counts o w = Counts-call acks once w o (issue (xack k)) refl

  add_to_dlq-Counts :
      (m : Message) (add ack : Outcome) (w : World) → Counts acks once w (add_to_dlq k m add ack w)
  unfolding add_to_dlq
  add_to_dlq-Counts m add ack w =
      Counts-bind acks once w (call add (issue (xadd_dlq m)) w) _
        (Counts-call acks 0 w add (issue (xadd_dlq m)) (omega arith)) (λ _. ack-Counts ack)

  write_config-Counts :
      (j : String) (o : Outcome) (c : Option Config) (w : World)
      → Counts acks 0 w (write_config j o c w)
  unfolding write_config
  write_config-Counts j o none w = omega arith
  write_config-Counts j o (some c) w = Counts-same acks w _ (ground arith)

  read_config-Counts : (j : String) (a : Answers) (w : World) → Counts acks 0 w (read_config j a w)
  unfolding read_config
  read_config-Counts j a w = elim (Bool-cases (contains "shipzen.yaml" a.files)) [
    | inl e ↦ rw e (
        Counts-bind acks 0 w (a.config, w) (write_config j a.config_update)
          (Counts-same acks w (a.config, w) refl) (write_config-Counts j a.config_update))
    | inr e ↦ rw e (omega arith)
  ]

  read_package-Counts :
      (a : Answers) (o : Overrides) (w : World) → Counts acks 0 w (read_package a o w)
  unfolding read_package
  read_package-Counts a o w = Counts-same acks w _ (ground arith)

  require_builder-Counts : (b : Option Builder) (w : World) → Counts acks 0 w (require_builder b w)
  unfolding require_builder
  require_builder-Counts none w = refl
  require_builder-Counts (some b) w = omega arith

  ensure_repository-Counts :
      (i : String) (a : Answers) (w : World) → Counts acks 0 w (ensure_repository i a w)
  unfolding ensure_repository
  ensure_repository-Counts i a w = Counts-same acks w _ (ground arith)

  launch_job-Counts :
      (q : Request) (o : Overrides) (a : Answers) (b : Builder) (w : World)
      → Counts acks 0 w (launch_job q o a b w)
  unfolding launch_job
  launch_job-Counts q o a b w = Counts-same acks w _ (ground arith)

  build-Counts : (q : Request) (a : Answers) (w : World) → Counts acks once w (build k q a w)
  unfolding build
  build-Counts q a w =
      Counts-bind acks once w _ _ (Counts-call acks 0 w a.makedirs _ (omega arith)) λ _ v.
        Counts-bind acks once v _ _ (Counts-call acks 0 v a.clone _ (omega arith)) λ _ v.
          Counts-bind acks once v _ _ (read_config-Counts q.deployment_id a v) λ configured v.
            Counts-bind acks once v _ _ (read_package-Counts a configured v) λ o v.
              Counts-bind acks once v _ _ (require_builder-Counts (select_builder a.files) v) λ b v.
                Counts-bind acks once v _ _ (ensure_repository-Counts q.image_name a v) λ _ v.
                  Counts-bind acks once v _ _ (launch_job-Counts q o a b v)
                    λ _ v. ack-Counts a.ack v

  dead_letter-Counts :
      (m : Message) (a : Answers) (w : World) → Counts acks once w (dead_letter k m a w)
  unfolding dead_letter
  dead_letter-Counts m a w =
      let u : World = issue (inc deployments_failed) (issue (inc deployment_failure) w) in
      Counts-from acks once w u _ (omega arith) (
        Counts-then_modify acks once u (add_to_dlq k m a.dlq_add a.dlq_ack u)
          (issue (inc dlq_depth)) (λ _. omega arith) (add_to_dlq-Counts m a.dlq_add a.dlq_ack u))

  build_failed-Counts :
      (m : Message) (q : Request) (a : Answers) (e : Exn) (w : World)
      → Counts acks once w (build_failed k m q a e w)
  unfolding build_failed
  build_failed-Counts m q a e w =
      Counts-bind acks once w _ _
        (update_state-Counts (is_ack id) w q.deployment_id failed (some (text_of e)) a.failed_update
          refl)
        (λ _. dead_letter-Counts m a)

  start_build-Counts :
      (m : Message) (q : Request) (a : Answers) (w : World)
      → Counts acks once w (start_build k m q a w)
  unfolding start_build
  start_build-Counts m q a w =
      let v : World = issue (inc deployments_processing) w in
      Counts-from acks once w v _ (omega arith) (
        Counts-finally acks once v _ (issue (remove_workspace q.deployment_id)) (λ _. omega arith)
          (Counts-try acks once v _ _ (build-Counts q a v) (build_failed-Counts m q a)))

  handle_request-Counts :
      (m : Message) (q : Request) (a : Answers) (d : Option Deployment) (w : World)
      → Counts acks once w (handle_request k m q a d w)
  unfolding handle_request
  handle_request-Counts m q a d w = elim (Bool-cases (is_in_progress d)) [
    | inl e ↦ rw e (ack-Counts a.ack w)
    | inr e ↦ rw e (elim (Bool-cases q.is_rollback) [
      | inl r ↦ simp r (
          Counts-bind acks once w _ _
            (update_state-Counts (is_ack id) w q.deployment_id deploying none a.rollback_update
              refl)
            (λ _. ack-Counts a.ack))
      | inr r ↦ simp r (start_build-Counts m q a w)
    ])
  ]

  handle_parsed-Counts :
      (m : Message) (a : Answers) (o : Option Request) (w : World)
      → Counts acks once w (handle_parsed k m a o w)
  unfolding handle_parsed
  handle_parsed-Counts m a none w = add_to_dlq-Counts m a.dlq_add a.dlq_ack w
  handle_parsed-Counts m a (some q) w =
      Counts-bind acks once w _ _ (get_deployment-Counts (is_ack id) w q.deployment_id a.fetch)
        (handle_request-Counts m q a)

one : (k : String) → ◌≡◌ {A = ℕ} (if k == k then 1 else 0) 1
one k = rw (eq_refl k) refl

-- The handling of a message acknowledges its own id and no other.
pub process_message-CountsOf :
    (k id : String) (m : Message) (a : Answers) (w : World)
    → Counts (tally (is_ack id)) (if k == id then 1 else 0) w (process_message k m a w)
unfolding process_message
process_message-CountsOf k id m a w = handle_parsed-Counts k id m a (parse_message m) w

-- Every message is settled: if `process_message` returns, its id has been acknowledged once, on
-- whichever branch; if it raises, the id has not been acknowledged, and the message stays pending.
pub process_message-Counts :
    (message_id : String) (m : Message) (a : Answers) (w : World)
    → Counts (tally (is_ack message_id)) 1 w (process_message message_id m a w)
process_message-Counts message_id m a w =
    subst (λ n. Counts (tally (is_ack message_id)) n w (process_message message_id m a w))
      (one message_id) (process_message-CountsOf message_id message_id m a w)
