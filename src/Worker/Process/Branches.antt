-- ===== src/Worker/Process/Branches.antt =====
-- What `process_message` leaves behind of a deployment that is in progress, and of a rollback.
use deploy_hub.Prelude.{
  ℕ, String, ◌≡◌, ◌∙◌, ap, ◌⊎◌, inl, inr, true, false, Option, none, some, ◌∷◌, arith,
}
use deploy_hub.Action.{Outcome, Result, ok, raised, resume}
use deploy_hub.Schema.{Deployment, deploying, update_deployment, select_deployment}
use deploy_hub.Worker.World.{World, Message, xack}
use deploy_hub.Worker.StateMachine.{set_state, update_state, get_deployment}
use deploy_hub.Worker.StateMachine.Retry.{
  SameData, Written, Read, update_state-Written, get_deployment-Read,
}
use deploy_hub.Worker.Queue.{ack_message}
use deploy_hub.Worker.Process.{
  Answers, Request, handle_request, handle_parsed, process_message, parse_message, is_in_progress,
}

-- No row is written, and no call is made but the acknowledgement.
abbrev pub OnlyAcked : String → World → World → Type 0
OnlyAcked message_id w v =
    (v.deployments ≡ w.deployments)
    × (v.builds ≡ w.builds)
    × ((v.issued ≡ w.issued) ⊎ (v.issued ≡ xack message_id ∷ w.issued))

in_progress_stage :
    (message_id : String) (m : Message) (q : Request) (a : Answers) (w : World)
    (p : Result (Option Deployment) × World)
    → Read q.deployment_id w p
    → is_in_progress (select_deployment q.deployment_id w.deployments) ≡ true
    → OnlyAcked message_id w (resume p.0 (handle_request message_id m q a) p.1).1
unfolding handle_request ack_message
in_progress_stage message_id m q a w (raised x, v) h b = (h.deployments, h.builds, inl h.issued)
in_progress_stage message_id m q a w (ok d, v) (e, h) b =
    rw (ap is_in_progress e ∙ b) (ground arith)

-- A message of a deployment that is building, deploying or running is only acknowledged: no row
-- changes and no other call is made, so a message that is delivered again does no harm.
pub process_message_in_progress :
    (message_id : String) (m : Message) (a : Answers) (w : World) (q : Request)
    → parse_message m ≡ some q
    → is_in_progress (select_deployment q.deployment_id w.deployments) ≡ true
    → OnlyAcked message_id w (process_message message_id m a w).1
unfolding process_message handle_parsed
process_message_in_progress message_id m a w q parsed b =
    rw (parsed, handle_parsed)
      (in_progress_stage message_id m q a w (get_deployment q.deployment_id a.fetch w)
        (get_deployment-Read q.deployment_id a.fetch w) b)

-- The row is Deploying with no error; after an exception it is so or untouched.
abbrev pub RolledForward : String → World → Result (Unit {0}) × World → Type 0
RolledForward k w (ok _, v) =
    (now : ℕ) × (v.deployments ≡ update_deployment k (set_state deploying none now) w.deployments)
RolledForward k w (raised x, v) =
    (v.deployments ≡ w.deployments)
    ⊎ ((now : ℕ) × (v.deployments
          ≡ update_deployment k (set_state deploying none now) w.deployments))

ack_stage :
    (message_id k : String) (w : World) (ack : Outcome) (p : Result (Unit {0}) × World)
    → Written k deploying none w p
    → RolledForward k w (resume p.0 (λ _. ack_message message_id ack) p.1)
unfolding ack_message
ack_stage message_id k w none (ok _, v) (now, d, b, i) = (now, d)
ack_stage message_id k w (some x) (ok _, v) (now, d, b, i) = inr (now, d)
ack_stage message_id k w ack (raised x, v) h = inl h.deployments

RolledForward-SameData :
    (k : String) (w t : World) (p : Result (Unit {0}) × World)
    → SameData t w
    → RolledForward k t p
    → RolledForward k w p
RolledForward-SameData k w t (ok _, v) h (now, d) =
    (now, d ∙ ap (update_deployment k (set_state deploying none now)) h.deployments)
RolledForward-SameData k w t (raised x, v) h (inl d) = inl (d ∙ h.deployments)
RolledForward-SameData k w t (raised x, v) h (inr (now, d)) =
    inr (now, d ∙ ap (update_deployment k (set_state deploying none now)) h.deployments)

rollback_stage :
    (message_id : String) (m : Message) (q : Request) (a : Answers) (w : World)
    (p : Result (Option Deployment) × World)
    → Read q.deployment_id w p
    → is_in_progress (select_deployment q.deployment_id w.deployments) ≡ false
    → q.is_rollback ≡ true
    → RolledForward q.deployment_id w (resume p.0 (handle_request message_id m q a) p.1)
unfolding handle_request
rollback_stage message_id m q a w (raised x, v) h b r = inl h.deployments
rollback_stage message_id m q a w (ok d, v) (e, h) b r = rw (ap is_in_progress e ∙ b) (
    simp r (
      RolledForward-SameData q.deployment_id w v _ h (
        ack_stage message_id q.deployment_id v a.ack
          (update_state q.deployment_id deploying none a.rollback_update v)
          (update_state-Written q.deployment_id deploying none v a.rollback_update))))

-- A rollback of a deployment that is not in progress: when the handling returns, the row is
-- Deploying with no error; when it raises, the row is that or untouched.
pub process_message_rollback :
    (message_id : String) (m : Message) (a : Answers) (w : World) (q : Request)
    → parse_message m ≡ some q
    → is_in_progress (select_deployment q.deployment_id w.deployments) ≡ false
    → q.is_rollback ≡ true
    → RolledForward q.deployment_id w (process_message message_id m a w)
unfolding process_message handle_parsed
process_message_rollback message_id m a w q parsed b r =
    rw (parsed, handle_parsed)
      (rollback_stage message_id m q a w (get_deployment q.deployment_id a.fetch w)
        (get_deployment-Read q.deployment_id a.fetch w) b r)
