-- ===== src/Worker/Process/Fates.antt =====
-- What becomes of a message that `process_message` of worker/main.py handles.
use deploy_hub.Prelude.{
  ℕ, suc, String, ◌≡◌, ◌⊎◌, refl, sym, ap, ◌∙◌, inl, inr, true, false, Option, none, some, ◌∷◌,
  arith, Bool-cases, Option-cases,
}
use deploy_hub.Action.{Outcome, Result, ok, raised, resume}
use deploy_hub.Schema.{
  building, deploying, running, Deployment, update_deployment, select_deployment,
}
use deploy_hub.Worker.World.{World, Message, xack, issue}
use deploy_hub.Worker.StateMachine.{set_state, update_state, get_deployment}
use deploy_hub.Worker.StateMachine.Retry.{
  SameData, Written, Read, update_state-Written, get_deployment-Read,
}
use deploy_hub.Worker.Queue.{ack_message, add_to_dlq}
use deploy_hub.Worker.Process.{
  Answers, Request, start_build, handle_request, handle_parsed, process_message, parse_message,
  is_in_progress,
}
use deploy_hub.Worker.Process.Letters.{letters, jobs_in, Same, calls_kept, Same-trans, Written-Same}
use deploy_hub.Worker.Process.Starts.{IsDead, AtMostOne, IsLaunched, Started, start_build-Started}

-- The row says that the deployment is under way.
abbrev pub IsUnderWay : Deployment → Type 0
IsUnderWay d = (d.state ≡ building) ⊎ ((d.state ≡ deploying) ⊎ (d.state ≡ running))

in_progress-IsUnderWay :
    (o : Option Deployment)
    → is_in_progress o ≡ true
    → (d : Deployment) × (o ≡ some d) × IsUnderWay d
in_progress-IsUnderWay none h = cc
in_progress-IsUnderWay (some d) h = (d, refl, ground (arith, h))

-- How the handling of a message ends.
pub data Fate (m : Message) (w v : World) : Type 0 where
  -- It does not name a deployment, a repository and an image: it goes to the dead-letter queue.
  malformed :
      parse_message m ≡ none
      → letters v.issued ≡ m ∷ letters w.issued
      → v.deployments ≡ w.deployments
      → Fate m w v
  -- Its deployment is building, deploying or running: nothing is done.
  under_way :
      (q : Request) (d : Deployment)
      → parse_message m ≡ some q
      → select_deployment q.deployment_id w.deployments ≡ some d
      → IsUnderWay d
      → Same v w
      → v.deployments ≡ w.deployments
      → Fate m w v
  -- It is a rollback: the row is Deploying, and nothing is built.
  rolled_back :
      (q : Request) (now : ℕ)
      → parse_message m ≡ some q
      → q.is_rollback ≡ true
      → Same v w
      → v.deployments
        ≡ update_deployment q.deployment_id (set_state deploying none now) w.deployments
      → Fate m w v
  -- One job is created, and no letter is sent.
  launched :
      (q : Request) → parse_message m ≡ some q → q.is_rollback ≡ false → IsLaunched w v → Fate m w v
  -- The message goes to the dead-letter queue, and the deployment is Failed with the text of an
  -- exception.
  dead :
      (q : Request)
      → parse_message m ≡ some q
      → q.is_rollback ≡ false
      → IsDead m q.deployment_id w v
      → Fate m w v

abbrev pub Fated : Message → World → Result (Unit {0}) × World → Type 0
Fated m w (ok _, v) = Fate m w v
Fated m w (raised x, v) = AtMostOne m w v

started_stage :
    (m : Message) (q : Request) (w u : World) (p : Result (Unit {0}) × World)
    → parse_message m ≡ some q
    → q.is_rollback ≡ false
    → SameData u w
    → Started m q.deployment_id u p
    → Fated m w p
started_stage m q w u (ok _, v) e r h (inl (l, x, f)) =
    dead q e r (l ∙ ap (λ c. m ∷ letters c) h.issued, x, f)
started_stage m q w u (ok _, v) e r h (inr (l, j)) =
    launched q e r (l ∙ ap letters h.issued, j ∙ ap (λ c. suc (jobs_in c)) h.issued)
started_stage m q w u (raised x, v) e r h (inl l) = inl (l ∙ ap letters h.issued)
started_stage m q w u (raised x, v) e r h (inr l) = inr (l ∙ ap (λ c. m ∷ letters c) h.issued)

-- An acknowledgement at the end of a branch that sends no letter.
acked_stage :
    (message_id : String) (m : Message) (w v : World) (ack : Outcome)
    → Same v w
    → ((u : World) → Same u w → u.deployments ≡ v.deployments → Fate m w u)
    → Fated m w (ack_message message_id ack v)
unfolding ack_message
acked_stage message_id m w v none h f =
    f (issue (xack message_id) v) (record { letters = h.letters; jobs = h.jobs }) refl
acked_stage message_id m w v (some x) h f = inl h.letters

rollback_stage :
    (message_id : String) (m : Message) (q : Request) (w u : World) (ack : Outcome)
    (p : Result (Unit {0}) × World)
    → parse_message m ≡ some q
    → q.is_rollback ≡ true
    → SameData u w
    → Written q.deployment_id deploying none u p
    → Fated m w (resume p.0 (λ _. ack_message message_id ack) p.1)
rollback_stage message_id m q w u ack (ok _, v) e r h (now, d, b, i) =
    acked_stage message_id m w v ack
      (Same-trans v u w (Written-Same q.deployment_id deploying none u (ok tt, v) (now, d, b, i))
        (calls_kept u w h.issued))
      (λ t s c. rolled_back q now e r s (
        c
        ∙ (d
            ∙ ap (update_deployment q.deployment_id (set_state deploying none now)) h.deployments)))
rollback_stage message_id m q w u ack (raised x, v) e r h g = inl (ap letters (g.issued ∙ h.issued))

request_stage :
    (message_id : String) (m : Message) (q : Request) (a : Answers) (w : World)
    (p : Result (Option Deployment) × World)
    → parse_message m ≡ some q
    → Read q.deployment_id w p
    → Fated m w (resume p.0 (handle_request message_id m q a) p.1)
unfolding handle_request
request_stage message_id m q a w (raised x, v) e h = inl (ap letters h.issued)
request_stage message_id m q a w (ok o, v) e (s, h) = elim (Bool-cases (is_in_progress o)) [
  | inl b ↦ rw b (
      let (d, f, u) = in_progress-IsUnderWay o b in
      acked_stage message_id m w v a.ack (calls_kept v w h.issued)
        (λ t g c. under_way q d e (sym s ∙ f) u g (c ∙ h.deployments)))
  | inr b ↦ rw b (elim (Bool-cases q.is_rollback) [
    | inl r ↦ simp r (
        rollback_stage message_id m q w v a.ack
          (update_state q.deployment_id deploying none a.rollback_update v) e r h
          (update_state-Written q.deployment_id deploying none v a.rollback_update))
    | inr r ↦ simp r (
        started_stage m q w v (start_build message_id m q a v) e r h
          (start_build-Started message_id m q a v))
  ])
]

malformed_stage :
    (message_id : String) (m : Message) (a : Answers) (w : World) (add ack : Outcome)
    → parse_message m ≡ none
    → Fated m w (add_to_dlq message_id m add ack w)
unfolding add_to_dlq ack_message
malformed_stage message_id m a w none none e = malformed e refl refl
malformed_stage message_id m a w none (some x) e = inr refl
malformed_stage message_id m a w (some x) ack e = inl refl

-- If `process_message` returns, then the message itself is in the dead-letter
-- queue once more, because it does not name a deployment, a repository and an image, or because
-- every row of its deployment is now Failed with the text of an exception; or no letter is sent, and
-- its deployment was building, deploying or running and the table is as it was, or it is a rollback
-- and its row is set to Deploying, or it is not and one job more is created. If it raises, then no
-- letter but the message itself is sent, and that at most once.
pub process_message-Fated :
    (message_id : String) (m : Message) (a : Answers) (w : World)
    → Fated m w (process_message message_id m a w)
unfolding process_message handle_parsed
process_message-Fated message_id m a w = elim (Option-cases (parse_message m)) [
  | inl e ↦ rw (e, handle_parsed) (malformed_stage message_id m a w a.dlq_add a.dlq_ack e)
  | inr (q, e) ↦
      rw (e, handle_parsed)
        (request_stage message_id m q a w (get_deployment q.deployment_id a.fetch w) e
          (get_deployment-Read q.deployment_id a.fetch w))
]
