-- ===== src/Worker/Process/Letters.antt =====
-- The letters and the jobs that a build leaves in the list of the calls.
use deploy_hub.Prelude.{
  ℕ, suc, String, ◌≡◌, refl, ap, ◌∙◌, inl, inr, Option, none, some, List, [], ◌∷◌, arith, contains,
  Bool-cases,
}
use deploy_hub.Action.{Outcome, Action, Result, ok, raised, resume, call, ◌>>=◌, ◌>>◌}
use deploy_hub.Schema.{State}
use deploy_hub.Worker.World.{
  World, Message, Command, xack, xadd_dlq, issue, make_workspace, git_clone, create_job,
}
use deploy_hub.Worker.StateMachine.Retry.{Written}
use deploy_hub.Worker.Queue.{ack_message}
use deploy_hub.Worker.Builder.{Builder, Overrides, select_builder}
use deploy_hub.Worker.Process.{
  Answers, Request, Config, build, read_config, read_package, require_builder, ensure_repository,
  launch_job, write_config,
}

-- The messages in the dead-letter queue, the newest first.
abbrev pub letters : List Command → List Message
letters [] = []
letters (xadd_dlq m ∷ cs) = m ∷ letters cs
letters (_ ∷ cs) = letters cs

-- How many jobs were created.
abbrev pub jobs_in : List Command → ℕ
jobs_in [] = 0
jobs_in (create_job j ∷ cs) = suc (jobs_in cs)
jobs_in (_ ∷ cs) = jobs_in cs

abbrev pub jobs : World → ℕ
jobs w = jobs_in w.issued

-- No letter and no job is added.
pub record Same (v w : World) : Type 0 where
  pub letters : letters v.issued ≡ letters w.issued
  pub jobs : jobs v ≡ jobs w

pub calls_kept : (v w : World) → v.issued ≡ w.issued → Same v w
calls_kept v w h = record { letters = ap letters h; jobs = ap (jobs_in) h }

pub Same-trans : (u v w : World) → Same u v → Same v w → Same u w
Same-trans u v w g h = record { letters = g.letters ∙ h.letters; jobs = g.jobs ∙ h.jobs }

-- The build returned and created one job, or raised; no letter is added.
unfoldable pub Built : World → Result (Unit {0}) × World → Type 0
Built w (ok _, v) = (letters v.issued ≡ letters w.issued) × (jobs v ≡ suc (jobs w))
Built w (raised x, v) = letters v.issued ≡ letters w.issued

Built-from : (w u : World) (p : Result (Unit {0}) × World) → Same u w → Built u p → Built w p
unfolding Built
Built-from w u (ok _, v) h (l, j) = (l ∙ h.letters, j ∙ ap suc h.jobs)
Built-from w u (raised x, v) h l = l ∙ h.letters

Built-bind :
    {A : Type 0} (w : World) (p : Result A × World) (f : A → Action World Unit)
    → Same p.1 w
    → ((a : A) (v : World) → Built v (f a v))
    → Built w (resume p.0 f p.1)
unfolding Built
Built-bind w (ok a, v) f h k = Built-from w v (f a v) h (k a v)
Built-bind w (raised x, v) f h k = h.letters

Built-then :
    (w : World) (p : Result (Unit {0}) × World) (m : Action World Unit)
    → Built w p
    → ((v : World) → Same (m v).1 v)
    → Built w (resume p.0 (λ _. m) p.1)
unfolding Built
Built-then w (ok _, v) m (l, j) k = ends (m v) (k v)
  where
    ends : (q : Result (Unit {0}) × World) → Same q.1 v → Built w q
    ends (ok _, u) h = (h.letters ∙ l, h.jobs ∙ j)
    ends (raised x, u) h = h.letters ∙ l
Built-then w (raised x, v) m l k = l

call-Same :
    (o : Outcome) (c : Command) (w : World)
    → letters (c ∷ w.issued) ≡ letters w.issued
    → jobs_in (c ∷ w.issued) ≡ jobs_in w.issued
    → Same (call o (issue c) w).1 w
call-Same none c w l j = record { letters = l; jobs = j }
call-Same (some e) c w l j = record { letters = refl; jobs = refl }

write_config-Same :
    (j : String) (o : Outcome) (c : Option Config) (w : World) → Same (write_config j o c w).1 w
unfolding write_config
write_config-Same j o none w = calls_kept _ w refl
write_config-Same j o (some c) w = calls_kept _ w (ground arith)

read_config-Same : (j : String) (a : Answers) (w : World) → Same (read_config j a w).1 w
unfolding read_config
read_config-Same j a w = elim (Bool-cases (contains "shipzen.yaml" a.files)) [
  | inl e ↦ rw e (configured a.config)
  | inr e ↦ rw e (calls_kept w w refl)
]
  where
    configured :
        (r : Result (Option Config)) → Same (resume r (write_config j a.config_update) w).1 w
    configured (ok c) = write_config-Same j a.config_update c w
    configured (raised x) = calls_kept w w refl

read_package-Same : (a : Answers) (o : Overrides) (w : World) → Same (read_package a o w).1 w
unfolding read_package
read_package-Same a o w = calls_kept _ w (ground arith)

require_builder-Same : (b : Option Builder) (w : World) → Same (require_builder b w).1 w
unfolding require_builder
require_builder-Same b w = calls_kept _ w (ground arith)

ensure_repository-Same : (i : String) (a : Answers) (w : World) → Same (ensure_repository i a w).1 w
unfolding ensure_repository
ensure_repository-Same i a w = record { letters = ground arith; jobs = ground arith }

launch_job-Built :
    (q : Request) (o : Overrides) (a : Answers) (b : Builder) (w : World)
    → Built w (launch_job q o a b w)
unfolding Built launch_job
launch_job-Built q o a b w = ground arith

ack-Same : (k : String) (o : Outcome) (w : World) → Same (ack_message k o w).1 w
unfolding ack_message
ack-Same k o w = call-Same o (xack k) w refl refl

prepared-Built :
    (k : String) (q : Request) (a : Answers) (configured : Overrides) (w : World)
    → Built w (
        (read_package a configured >>= λ o. require_builder (select_builder a.files) >>= λ b.
        ensure_repository q.image_name a >> (launch_job q o a b >> ack_message k a.ack))
          w)
prepared-Built k q a configured w =
    Built-bind w (read_package a configured w) _ (read_package-Same a configured w) λ o v.
      Built-bind v (require_builder (select_builder a.files) v) _
        (require_builder-Same (select_builder a.files) v)
        λ b v.
          Built-bind v (ensure_repository q.image_name a v) _
            (ensure_repository-Same q.image_name a v)
            λ _ v.
              Built-then v (launch_job q o a b v) (ack_message k a.ack) (launch_job-Built q o a b v)
                (ack-Same k a.ack)

pub build-Built : (k : String) (q : Request) (a : Answers) (w : World) → Built w (build k q a w)
unfolding build
build-Built k q a w =
    Built-bind w (call a.makedirs (issue (make_workspace q.deployment_id)) w) _
      (call-Same a.makedirs (make_workspace q.deployment_id) w refl refl)
      λ _ v.
        Built-bind v (call a.clone (issue (git_clone q.repo_url q.branch)) v) _
          (call-Same a.clone (git_clone q.repo_url q.branch) v refl refl)
          λ _ v.
            Built-bind v (read_config q.deployment_id a v) _ (read_config-Same q.deployment_id a v)
              λ configured v. prepared-Built k q a configured v

-- Of an update, no letter and no job comes.
pub Written-Same :
    (k : String) (s : State) (e : Option String) (w : World) (p : Result (Unit {0}) × World)
    → Written k s e w p
    → Same p.1 w
Written-Same k s e w (ok _, v) (now, d, b, inl i) = calls_kept v w i
Written-Same k s e w (ok _, v) (now, d, b, inr i) = record {
  letters = ap letters i;
  jobs = ap (jobs_in) i;
}
Written-Same k s e w (raised x, v) h = calls_kept v w h.issued
