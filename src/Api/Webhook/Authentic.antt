-- ===== src/Api/Webhook/Authentic.antt =====
-- What a push has to show before it changes anything.
use deploy_hub.Prelude.{
  String, ◌==◌, eq_iff, ◌≡◌, refl, ◌⊎◌, inl, inr, true, Option, none, some, arith, false,
  Bool-cases, Option-cases,
}
use deploy_hub.Action.{
  Exn, http_exception, operational_error, database_error, unique_violation, api_exception,
  name_error, exception, Action, resume, Outcome, Result, ok, raised, ◌>>=◌,
}
use deploy_hub.Text.{truthy}
use deploy_hub.Schema.{Deployment, Project, select_project}
use deploy_hub.Api.World.{World}
use deploy_hub.Api.Deploy.{Answers}
use deploy_hub.Api.Webhook.{
  Payload, Push, Mac, Replies, is_push, require_secret, read_secret, database_error_500, is_signed,
  last_deploy, insert_pushed, insert_checked, trigger, with_repo, with_payload, checked,
  with_signature, github_webhook,
}

-- The rows and the stream are as they were.
abbrev pub Quiet : World → World → Type 0
Quiet w v = (v.deployments ≡ w.deployments) × (v.stream ≡ w.stream)

-- The last deployment of the project is of this repository.
abbrev pub Matches : String → String → World → Type 0
Matches k repo w = (l : Deployment) × (last_deploy k w.deployments ≡ some l) × (l.repo_url ≡ repo)

-- The body is a push to the project's repository.
abbrev pub MatchesPayload : String → Option Payload → World → Type 0
MatchesPayload k payload w =
    (p : Payload) × (repo : String) × (payload ≡ some p)
    × (p.clone_url ≡ some repo)
    × Matches k repo w

-- The project has a secret, and the signature is that of the body under it.
abbrev pub Signed : Mac → String → Push → World → Type 0
Signed mac k push w =
    (p : Project) × (secret : String) × (signature : String) × (select_project k w.projects
      ≡ some p)
    × (p.webhook_secret ≡ some secret)
    × (truthy (some secret) ≡ true)
    × (push.signature ≡ some signature)
    × (is_signed mac secret push signature ≡ true)

trigger_stage :
    (ecr k repo : String) (p : Payload) (a : Answers) (w : World)
    → Quiet w (trigger ecr k repo p a w).1 ⊎ Matches k repo w
unfolding trigger insert_checked insert_pushed
trigger_stage ecr k repo p a w = elim (Option-cases (last_deploy k w.deployments)) [
  | inl e ↦ inl (ground (arith, e))
  | inr (l, e) ↦ elim (Bool-cases (l.repo_url == repo)) [
    | inl t ↦ inr (l, e, ground (arith, t, eq_iff l.repo_url repo))
    | inr f ↦ inl (ground (arith, e, f))
  ]
]

repo_stage :
    (ecr k : String) (o : Option String) (p : Payload) (a : Answers) (w : World)
    → Quiet w (with_repo ecr k o p a w).1 ⊎ ((repo : String) × (o ≡ some repo) × Matches k repo w)
unfolding with_repo
repo_stage ecr k none p a w = inl (refl, refl)
repo_stage ecr k (some repo) p a w = elim (Bool-cases (truthy (some repo))) [
  | inl e ↦ elim (trigger_stage ecr k repo p a w) [
    | inl q ↦ rw e (inl q)
    | inr m ↦ inr (repo, refl, m)
  ]
  | inr e ↦ rw e (inl (refl, refl))
]

payload_stage :
    (ecr k : String) (o : Option Payload) (a : Answers) (w : World)
    → Quiet w (with_payload ecr k o a w).1 ⊎ MatchesPayload k o w
unfolding with_payload
payload_stage ecr k none a w = inl (refl, refl)
payload_stage ecr k (some p) a w = elim (repo_stage ecr k p.clone_url p a w) [
  | inl q ↦ inl q
  | inr (repo, e, m) ↦ inr (p, repo, refl, e, m)
]

-- The secret of a project that has one.
secret_stage :
    (o : Option Project)
    → ((p : Project) × (secret : String) × (o ≡ some p)
        × (p.webhook_secret ≡ some secret)
        × (truthy (some secret) ≡ true)
        × ((w : World) → require_secret o w ≡ (ok secret, w)))
      ⊎ ((x : Exn) × ((w : World) → require_secret o w ≡ (raised x, w)))
unfolding require_secret
secret_stage none = inr (_, λ w. refl)
secret_stage (some p) = elim (Option-cases p.webhook_secret) [
  | inl e ↦ inr (http_exception 404 "Webhook secret not found", λ w. rw e refl)
  | inr (s, e) ↦ elim (Bool-cases (truthy (some s))) [
    | inl t ↦ inl (p, s, refl, e, t, λ w. rw e (rw t refl))
    | inr f ↦ inr (http_exception 404 "Webhook secret not found", λ w. rw e (rw f refl))
  ]
]

-- What a push that changes anything has shown.
abbrev pub Authentic : Mac → String → Push → World → Type 0
Authentic mac k push w = Signed mac k push w × MatchesPayload k push.payload w

abbrev Changed : Mac → String → Push → World → Result (Option String) × World → Type 0
Changed mac k push w r = Quiet w r.1 ⊎ Authentic mac k push w

checked_stage :
    (mac : Mac) (ecr k : String) (push : Push) (signature secret : String) (a : Answers) (w : World)
    → (is_signed mac secret push signature ≡ true → Signed mac k push w)
    → Changed mac k push w (checked mac ecr k push signature a secret w)
unfolding checked
checked_stage mac ecr k push signature secret a w sign =
    elim (Bool-cases (is_signed mac secret push signature)) [
      | inl e ↦ elim (payload_stage ecr k push.payload a w) [
        | inl q ↦ rw e (inl q)
        | inr m ↦ inr (sign e, m)
      ]
      | inr e ↦ rw e (inl (refl, refl))
    ]

secret_error :
    (x : Exn) (f : String → Action World (Option String)) (w : World)
    → Quiet w (resume (database_error_500 x w).0 f (database_error_500 x w).1).1
unfolding database_error_500
secret_error (operational_error s) f w = (refl, refl)
secret_error (unique_violation s) f w = (refl, refl)
secret_error (database_error s) f w = (refl, refl)
secret_error (api_exception n s) f w = (refl, refl)
secret_error (name_error s) f w = (refl, refl)
secret_error (http_exception n s) f w = (refl, refl)
secret_error (exception s) f w = (refl, refl)

secret_read_stage :
    (mac : Mac) (ecr k : String) (push : Push) (signature : String) (o : Outcome) (a : Answers)
    (w : World)
    → push.signature ≡ some signature
    → Changed mac k push w ((read_secret k o >>= checked mac ecr k push signature a) w)
unfolding read_secret
secret_read_stage mac ecr k push signature (some x) a w h =
    inl (secret_error x (checked mac ecr k push signature a) w)
secret_read_stage mac ecr k push signature none a w h =
    elim (secret_stage (select_project k w.projects)) [
      | inl (p, s, e, t, b, r) ↦
          rw (r w)
            (checked_stage mac ecr k push signature s a w (λ d. (p, s, signature, e, t, b, h, d)))
      | inr (x, r) ↦ rw (r w) (inl (secret_error x (checked mac ecr k push signature a) w))
    ]

signature_stage :
    (mac : Mac) (ecr k : String) (push : Push) (signature : String) (r : Replies) (w : World)
    → push.signature ≡ some signature
    → Changed mac k push w (with_signature mac ecr k push signature r w)
unfolding with_signature
signature_stage mac ecr k push signature r w h = elim (Bool-cases (is_push push.event)) [
  | inl e ↦ rw e (secret_read_stage mac ecr k push signature r.secret r.deploy w h)
  | inr e ↦ rw e (inl (refl, refl))
]

-- If a request to `github_webhook` changes the deployments or the stream in any way, then the project
-- has a secret that is not empty, the header carries the MAC of the body under that secret, the body
-- is JSON, and it names the repository of the last deployment of the project.
pub github_webhook-Authentic :
    (mac : Mac) (ecr k : String) (push : Push) (r : Replies) (w : World)
    → ¬ Quiet w (github_webhook mac ecr k push r w).1
    → Authentic mac k push w
unfolding github_webhook
github_webhook-Authentic mac ecr k push r w h = elim (Option-cases push.signature) [
  | inl e ↦ absurd (h (rw e (refl, refl)))
  | inr (s, e) ↦ elim (Bool-cases (truthy (some s))) [
    | inl t ↦ elim (signature_stage mac ecr k push s r w e) [
      | inl q ↦ absurd (h (rw e (rw t q)))
      | inr m ↦ m
    ]
    | inr f ↦ absurd (h (rw e (rw f (refl, refl))))
  ]
]

-- While the database answers, a push to another repository than that of the project's last deployment
-- is answered with the status 500, not with the 403 that is raised for it; nothing changes.
trigger_mismatch :
    (ecr k repo : String) (p : Payload) (a : Answers) (w : World) (l : Deployment)
    → a.connect ≡ none
    → last_deploy k w.deployments ≡ some l
    → (l.repo_url == repo) ≡ false
    → trigger ecr k repo p a w ≡ (raised (http_exception 500 "Failed to process webhook"), w)
unfolding trigger insert_checked insert_pushed
trigger_mismatch ecr k repo p a w l c e f = rw (c, e, f) refl
