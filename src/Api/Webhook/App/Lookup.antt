-- ===== src/Api/Webhook/App/Lookup.antt =====
-- What a push to the GitHub App has to show, and what it leaves behind when Redis is down.
use deploy_hub.Prelude.{
  String, ◌≡◌, refl, ◌⊎◌, inl, inr, true, Option, none, some, ◌∷◌, arith, Bool-cases, Option-cases,
}
use deploy_hub.Action.{Exn, http_exception, Outcome, raised}
use deploy_hub.Text.{truthy}
use deploy_hub.Schema.{queued, Deployment}
use deploy_hub.Api.World.{World}
use deploy_hub.Api.Deploy.{Answers, insert_row}
use deploy_hub.Api.Webhook.{Payload, Push, Mac, is_signed, is_push}
use deploy_hub.Api.Webhook.Authentic.{Quiet}
use deploy_hub.Api.Webhook.App.{
  last_match, find_match, app_submit, app_matched, app_payload, app_signed, app_push,
  github_app_webhook,
}

-- The secret is set, the header carries the MAC of the body under it, and the body is a push to a
-- repository of which there is a deployment.
abbrev pub AppAuthentic : Mac → Option String → Push → World → Type 0
AppAuthentic mac secret push w =
    (s : String) × (signature : String) × (p : Payload) × (l : Deployment) × (secret ≡ some s)
    × (truthy (some s) ≡ true)
    × (push.signature ≡ some signature)
    × (is_signed mac s push signature ≡ true)
    × (push.payload ≡ some p)
    × (last_match p w.deployments ≡ some l)

payload_stage :
    (ecr : String) (o : Option Payload) (lookup : Outcome) (a : Answers) (w : World)
    → Quiet w (app_payload ecr o lookup a w).1
      ⊎ ((p : Payload) × (l : Deployment) × (o ≡ some p) × (last_match p w.deployments ≡ some l))
unfolding app_payload find_match app_matched
payload_stage ecr none lookup a w = inl (refl, refl)
payload_stage ecr (some p) lookup a w = elim (Option-cases (last_match p w.deployments)) [
  | inl e ↦ inl (ground (arith, e))
  | inr (l, e) ↦ inr (p, l, refl, e)
]

signed_stage :
    (mac : Mac) (ecr : String) (push : Push) (signature : String) (secret : Option String)
    (lookup : Outcome) (a : Answers) (w : World)
    → push.signature ≡ some signature
    → Quiet w (app_signed mac ecr push signature secret lookup a w).1
      ⊎ AppAuthentic mac secret push w
unfolding app_signed
signed_stage mac ecr push signature none lookup a w h = inl (refl, refl)
signed_stage mac ecr push signature (some s) lookup a w h = elim (Bool-cases (truthy (some s))) [
  | inr f ↦ rw f (inl (refl, refl))
  | inl t ↦ elim (Bool-cases (is_signed mac s push signature)) [
    | inr f ↦ rw t (rw f (inl (refl, refl)))
    | inl m ↦ elim (payload_stage ecr push.payload lookup a w) [
      | inl q ↦ rw t (rw m (inl q))
      | inr (p, l, e, d) ↦ inr (s, signature, p, l, refl, t, h, m, e, d)
    ]
  ]
]

push_stage :
    (mac : Mac) (ecr : String) (push : Push) (o : Option String) (secret : Option String)
    (lookup : Outcome) (a : Answers) (w : World)
    → push.signature ≡ o
    → Quiet w (app_push mac ecr push o secret lookup a w).1 ⊎ AppAuthentic mac secret push w
unfolding app_push
push_stage mac ecr push none secret lookup a w h = inl (refl, refl)
push_stage mac ecr push (some g) secret lookup a w h = elim (Bool-cases (truthy (some g))) [
  | inr f ↦ rw f (inl (refl, refl))
  | inl t ↦ elim (Bool-cases (is_push push.event)) [
    | inr f ↦ rw t (rw f (inl (refl, refl)))
    | inl y ↦ rw t (rw y (signed_stage mac ecr push g secret lookup a w h))
  ]
]

-- If a request to `github_app_webhook` changes the deployments or the stream in any way, then the
-- secret is set and not empty, the header carries the MAC of the body under it, the body is JSON, and
-- there is a deployment of the repository that it names.
pub github_app_webhook-AppAuthentic :
    (mac : Mac) (ecr : String) (secret : Option String) (push : Push) (lookup : Outcome)
    (a : Answers) (w : World)
    → ¬ Quiet w (github_app_webhook mac ecr secret push lookup a w).1
    → AppAuthentic mac secret push w
unfolding github_app_webhook
github_app_webhook-AppAuthentic mac ecr secret push lookup a w h =
    elim (push_stage mac ecr push push.signature secret lookup a w refl) [
      | inl q ↦ absurd (h q)
      | inr m ↦ m
    ]

-- When Redis is down, `github_app_webhook` fails with the status 500, and the row that it has
-- inserted stays Queued, with no message on the stream.
app_submit_strands :
    (ecr : String) (p : Payload) (l : Deployment) (a : Answers) (w : World) (x : Exn)
    → a.connect ≡ none
    → a.insert ≡ none
    → a.commit ≡ none
    → a.enqueue ≡ some x
    → ((app_submit ecr p l a w).0
        ≡ raised (http_exception 500 "Failed to enqueue webhook deployment"))
      × ((d : Deployment) × ((app_submit ecr p l a w).1.deployments ≡ d ∷ w.deployments)
          × (d.state ≡ queued)
          × (d.deployment_id ≡ a.deployment_id))
      × ((app_submit ecr p l a w).1.stream ≡ w.stream)
unfolding app_submit insert_row
app_submit_strands ecr p l a w x c i m e = rw (c, i, m, e) (refl, (_, refl, refl, refl), refl)
