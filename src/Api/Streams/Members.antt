-- ===== src/Api/Streams/Members.antt =====
-- Who receives the log lines of a deployment.
use Prim.Native.String.{◌++◌ as append}
use deploy_hub.Prelude.{
  String, ◌≡◌, ◌≢◌, ◌⊎◌, refl, sym, ap, ◌∙◌, true, false, Bool, Option, none, some, List, [],
  Bool-cases, inl, inr,
}
use deploy_hub.Action.{
  Exn, operational_error, unique_violation, database_error, api_exception, name_error,
  http_exception, exception, Outcome, Result, ok, raised,
}
use deploy_hub.Text.{truthy}
use deploy_hub.Schema.{Project, Deployment}
use deploy_hub.Api.World.{World, role_in}
use deploy_hub.Api.Access.{User, is_admin, live_project, verify_project_access}
use deploy_hub.Api.Access.Laws.{verify_project_access_opens}
use deploy_hub.Api.Builds.{find_deployment, get_deployment_or_404}
use deploy_hub.Api.Builds.Location.{get_deployment_or_404-found}
use deploy_hub.Api.Streams.{
  Event, Socket, accepted, forward_logs, refused, with_deployment, with_project, with_user,
  websocket_deployment_logs,
}

-- The caller is authenticated and has access to the project, the deployment is one of the project,
-- and what is sent are the messages.
pub record Entitled (auth : Result User) (p k : String) (w : World) (es : List (Event String))
    (lines : List String) : Type 0 where
  pub caller : User
  pub authenticated : auth ≡ ok caller
  pub project : Project
  pub live : live_project p w.projects ≡ some project
  pub reason : (is_admin caller ≡ true) ⊎ (role_in p caller.user_id w.members ≢ none)
  pub deployment : Deployment
  pub found : find_deployment p k w.deployments ≡ some deployment
  pub sent : lines ≡ forward_logs es

is_accepted : Socket String → Bool
is_accepted (accepted l) = true
is_accepted _ = false

refused_closed : (e : Exn) → is_accepted (refused e) ≡ false
unfolding is_accepted
refused_closed (operational_error s) = refl
refused_closed (unique_violation s) = refl
refused_closed (database_error s) = refl
refused_closed (api_exception n s) = refl
refused_closed (name_error s) = refl
refused_closed (http_exception n s) = refl
refused_closed (exception s) = refl

not_sent : (e : Exn) (lines : List String) → refused e ≡ accepted lines → true ≡ false
unfolding is_accepted
not_sent e lines h = ap is_accepted (sym h) ∙ refused_closed e

lines_in : Socket String → List String
lines_in (accepted l) = l
lines_in _ = []

deployment_stage :
    (es : List (Event String)) (lines : List String) (r : Result Deployment)
    → with_deployment es r ≡ accepted lines
    → (d : Deployment) × (r ≡ ok d) × (lines ≡ forward_logs es)
unfolding with_deployment lines_in
deployment_stage es lines (ok d) h = (d, refl, sym (ap lines_in h))
deployment_stage es lines (raised e) h = let bad = not_sent e lines h in cc

module _ (auth : Result User) (p k : String) (w : World) (es : List (Event String))
    (lines : List String) where
  project_stage :
      (first second : Outcome) (u : User)
      → auth ≡ ok u
      → (r : Result Project) → (verify_project_access first p u w).0 ≡ r
      → with_project second p k w es r ≡ accepted lines
      → Entitled auth p k w es lines
  unfolding with_project
  project_stage first second u a (raised e) v h = let bad = not_sent e lines h in cc
  project_stage first second u a (ok q) v h =
      let (l, m) = verify_project_access_opens first p u w q v in
      let (d, f, s) =
        deployment_stage es lines (get_deployment_or_404 second p k w.deployments) h in
      record {
        caller = u;
        authenticated = a;
        project = q;
        live = l;
        reason = m;
        deployment = d;
        found = get_deployment_or_404-found second p k w.deployments d f;
        sent = s;
      }

user_stage :
    (channel : String → List (Event String)) (auth : Result User) (p k : String) (w : World)
    (lines : List String) (first second : Outcome) (r : Result User)
    → auth ≡ r
    → with_user channel first second p k w r ≡ accepted lines
    → Entitled auth p k w (channel (append "shipzen:logs:" k)) lines
unfolding with_user is_accepted
user_stage channel auth p k w lines first second (raised e) a h = let bad = ap is_accepted h in cc
user_stage channel auth p k w lines first second (ok u) a h =
    project_stage auth p k w (channel (append "shipzen:logs:" k)) lines first second u a
      (verify_project_access first p u w).0 refl h

-- Log lines go only to a caller who is authenticated and is an administrator or a member of the
-- project, only for a deployment of that project, and they are the messages of the channel that is
-- named after the deployment, in order, until one cannot be sent.
pub websocket_deployment_logs-Entitled :
    (channel : String → List (Event String)) (token : Option String) (auth : Result User)
    (first second : Outcome) (p k : String) (w : World) (lines : List String)
    → websocket_deployment_logs channel token auth first second p k w ≡ accepted lines
    → Entitled auth p k w (channel (append "shipzen:logs:" k)) lines
unfolding websocket_deployment_logs is_accepted
websocket_deployment_logs-Entitled channel token auth first second p k w lines =
    elim (Bool-cases (truthy token)) [
      | inl t ↦ rw t (user_stage channel auth p k w lines first second auth refl)
      | inr t ↦ rw t (λ h. let bad = ap is_accepted h in cc)
    ]
