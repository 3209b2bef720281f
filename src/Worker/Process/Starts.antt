-- ===== src/Worker/Process/Starts.antt =====
-- The `try` statement around a build: a job, or a letter and a deployment that is Failed.
use deploy_hub.Prelude.{
  ℕ, suc, String, ◌==◌, eq_iff, ◌≡◌, ◌⊎◌, refl, sym, ap, ◌∙◌, inl, inr, none, some, List, [], ◌∷◌,
  All, arith, subst, Bool-cases,
}
use deploy_hub.Action.{Exn, text_of, Outcome, Result, ok, raised, resume, handle, conclude, modify}
use deploy_hub.Schema.{failed, Deployment, update_deployment}
use deploy_hub.Worker.World.{World, Message, issue, inc, remove_workspace, deployments_processing}
use deploy_hub.Worker.StateMachine.{set_state, update_state}
use deploy_hub.Worker.StateMachine.Retry.{Written, update_state-Written}
use deploy_hub.Worker.Queue.{ack_message, add_to_dlq}
use deploy_hub.Worker.Process.{Answers, Request, build, dead_letter, build_failed, start_build}
use deploy_hub.Worker.Process.Letters.{letters, jobs, Built, build-Built, Written-Same}

-- Every row of the deployment is Failed with the exception's text.
abbrev pub AreFailed : String → Exn → List Deployment → Type 0
AreFailed k x ds =
    All (λ d. d.deployment_id ≡ k → (d.state ≡ failed) × (d.last_error ≡ some (text_of x))) ds

failed_rows :
    (k : String) (x : Exn) (now : ℕ) (ds : List Deployment)
    → AreFailed k x (update_deployment k (set_state failed (some (text_of x)) now) ds)
unfolding update_deployment
failed_rows k x now [] = tt
failed_rows k x now (d ∷ ds) = elim (Bool-cases (d.deployment_id == k)) [
  | inl e ↦ (rw e (λ _. (refl, refl)), failed_rows k x now ds)
  | inr e ↦ (rw e (λ i. ground (arith, e, eq_iff d.deployment_id k, i)), failed_rows k x now ds)
]

-- The message is in the dead-letter queue once more, and the deployment is Failed.
abbrev pub IsDead : Message → String → World → World → Type 0
IsDead m k w v = (letters v.issued ≡ m ∷ letters w.issued) × (x : Exn) × AreFailed k x v.deployments

-- At most this message is there once more.
abbrev pub AtMostOne : Message → World → World → Type 0
AtMostOne m w v = (letters v.issued ≡ letters w.issued) ⊎ (letters v.issued ≡ m ∷ letters w.issued)

abbrev Dead : Message → String → World → Result (Unit {0}) × World → Type 0
Dead m k w (ok _, v) = IsDead m k w v
Dead m k w (raised x, v) = AtMostOne m w v

sent_stage :
    (k message_id : String) (m : Message) (x : Exn) (now : ℕ) (ds : List Deployment) (u v : World)
    (a : Answers) (add ack : Outcome)
    → letters v.issued ≡ letters u.issued
    → v.deployments ≡ update_deployment k (set_state failed (some (text_of x)) now) ds
    → a.dlq_add ≡ add
    → a.dlq_ack ≡ ack
    → Dead m k u (dead_letter message_id m a v)
unfolding dead_letter add_to_dlq ack_message
sent_stage k message_id m x now ds u v a none none l d g h =
    rw g (rw h (ap (λ c. m ∷ c) l, x, subst (AreFailed k x) (sym d) (failed_rows k x now ds)))
sent_stage k message_id m x now ds u v a none (some y) l d g h =
    rw g (rw h (inr (ap (λ c. m ∷ c) l)))
sent_stage k message_id m x now ds u v a (some y) ack l d g h = rw g (inl l)

letter_stage :
    (k message_id : String) (m : Message) (a : Answers) (x : Exn) (u : World)
    (p : Result (Unit {0}) × World)
    → Written k failed (some (text_of x)) u p
    → Dead m k u (resume p.0 (λ _. dead_letter message_id m a) p.1)
letter_stage k message_id m a x u (ok _, v) (now, d, b, i) =
    let same = Written-Same k failed (some (text_of x)) u (ok tt, v) (now, d, b, i) in
    sent_stage k message_id m x now u.deployments u v a a.dlq_add a.dlq_ack same.letters d refl refl
letter_stage k message_id m a x u (raised y, v) h = inl (ap letters h.issued)

build_failed-Dead :
    (message_id : String) (m : Message) (q : Request) (a : Answers) (x : Exn) (u : World)
    → Dead m q.deployment_id u (build_failed message_id m q a x u)
unfolding build_failed
build_failed-Dead message_id m q a x u =
    letter_stage q.deployment_id message_id m a x u
      (update_state q.deployment_id failed (some (text_of x)) a.failed_update u)
      (update_state-Written q.deployment_id failed (some (text_of x)) u a.failed_update)

-- A job was created and no letter was sent.
abbrev pub IsLaunched : World → World → Type 0
IsLaunched w v = (letters v.issued ≡ letters w.issued) × (jobs v ≡ suc (jobs w))

abbrev pub Started : Message → String → World → Result (Unit {0}) × World → Type 0
Started m k w (ok _, v) = IsDead m k w v ⊎ IsLaunched w v
Started m k w (raised x, v) = AtMostOne m w v

Dead-Started :
    (m : Message) (k : String) (w u : World) (p : Result (Unit {0}) × World)
    → letters u.issued ≡ letters w.issued
    → Dead m k u p
    → Started m k w p
Dead-Started m k w u (ok _, v) e (l, x, f) = inl (l ∙ ap (λ c. m ∷ c) e, x, f)
Dead-Started m k w u (raised x, v) e (inl l) = inl (l ∙ e)
Dead-Started m k w u (raised x, v) e (inr l) = inr (l ∙ ap (λ c. m ∷ c) e)

try_stage :
    (message_id : String) (m : Message) (q : Request) (a : Answers) (w : World)
    (p : Result (Unit {0}) × World)
    → Built w p
    → Started m q.deployment_id w (handle p.0 (build_failed message_id m q a) p.1)
unfolding Built
try_stage message_id m q a w (ok _, v) h = inr h
try_stage message_id m q a w (raised x, u) l =
    Dead-Started m q.deployment_id w u (build_failed message_id m q a x u) l
      (build_failed-Dead message_id m q a x u)

cleaned_stage :
    (m : Message) (k j : String) (w : World) (p : Result (Unit {0}) × World)
    → Started m k w p
    → Started m k w (conclude p.0 (modify (issue (remove_workspace j)) p.1))
cleaned_stage m k j w (ok _, v) h = h
cleaned_stage m k j w (raised x, v) h = h

pub start_build-Started :
    (message_id : String) (m : Message) (q : Request) (a : Answers) (w : World)
    → Started m q.deployment_id w (start_build message_id m q a w)
unfolding start_build
start_build-Started message_id m q a w =
    let v : World = issue (inc deployments_processing) w in
    cleaned_stage m q.deployment_id q.deployment_id w
      (handle (build message_id q a v).0 (build_failed message_id m q a) (build message_id q a v).1)
      (try_stage message_id m q a v (build message_id q a v) (build-Built message_id q a v))
