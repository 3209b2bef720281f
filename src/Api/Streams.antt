-- ===== src/Api/Streams.antt =====
-- `websocket_deployment_status` and `websocket_deployment_logs` of api/main.py: what goes out on the
-- socket, from what Redis delivers on a channel. A list of events ends where the
-- listening ends.
pub mod Members
pub mod Http
mod Tests
use Prim.Native.String.{◌++◌ as append}
use deploy_hub.Prelude.{
  String, ◌==◌, if◌then◌else◌, Bool, true, false, ◌||◌, Option, none, some, List, [], ◌∷◌, ◌++◌,
}
use deploy_hub.Action.{Exn, http_exception, Outcome, Result, ok, raised}
use deploy_hub.Text.{truthy}
use deploy_hub.Schema.{Project, Deployment}
use deploy_hub.Api.World.{World}
use deploy_hub.Api.Access.{User, verify_project_access}
use deploy_hub.Api.Builds.{find_deployment, get_deployment_or_404}

-- An item of `pubsub.listen()`: one that is no message, or a message and how sending it goes.
pub data Event (A : Type 0) : Type 0 where
  notice : Event A
  message : A → Outcome → Event A

-- What becomes of a socket: it is closed with 1008 before it is accepted, it is dropped by an
-- exception before that, or it is accepted and this is sent.
pub data Socket (A : Type 0) : Type 0 where
  policy_violation : Socket A
  dropped : Exn → Socket A
  accepted : List A → Socket A

-- A status message, as JSON.
pub record Update : Type 0 where
  pub state : Option String
  pub last_error : Option String

is_final : Option String → Bool
is_final none = false
is_final (some s) = s == "Running" || s == "Failed" || s == "DLQ"

-- The loop of the status socket. A message that is no JSON, or cannot be sent, ends it.
unfoldable pub forward_updates : List (Event (Result Update)) → List Update
unfolding is_final
forward_updates [] = []
forward_updates (notice ∷ es) = forward_updates es
forward_updates (message (raised e) o ∷ es) = []
forward_updates (message (ok u) (some e) ∷ es) = []
forward_updates (message (ok u) none ∷ es) =
    let rest = forward_updates es in if is_final u.state then u ∷ [] else u ∷ rest

-- The row at the start, where there is one, before the messages. A row that cannot be read or sent
-- ends the connection.
pub record Initial : Type 0 where
  pub row : Result (Option Update)
  pub send : Outcome

with_row : Initial → List Update → List Update
with_row i rest = elim i.row [
  | raised e ↦ []
  | ok none ↦ rest
  | ok (some u) ↦ elim i.send [ none ↦ u ∷ rest | some e ↦ [] ]
]

-- `get_current_user_from_token` answers `auth`.
pub websocket_deployment_status :
    Option String → Result User → Initial → List (Event (Result Update)) → Socket Update
unfolding with_row forward_updates
websocket_deployment_status token auth i es =
    if truthy token
    then elim auth [
      | raised e ↦ policy_violation
      | ok u ↦ accepted (with_row i (forward_updates es))
    ]
    else policy_violation

-- The loop of the log socket.
unfoldable pub forward_logs : List (Event String) → List String
forward_logs [] = []
forward_logs (notice ∷ es) = forward_logs es
forward_logs (message line none ∷ es) = line ∷ forward_logs es
forward_logs (message line (some e) ∷ es) = []

-- `except HTTPException`; no other exception is caught.
abbrev pub refused : Exn → Socket String
refused (http_exception n s) = policy_violation
refused e = dropped e

abbrev pub with_deployment : List (Event String) → Result Deployment → Socket String
unfolding forward_logs
with_deployment es (ok d) = accepted (forward_logs es)
with_deployment es (raised e) = refused e

abbrev pub with_project :
    Outcome → String → String → World → List (Event String) → Result Project → Socket String
unfolding get_deployment_or_404 with_deployment
with_project o p k w es (ok _) = with_deployment es (get_deployment_or_404 o p k w.deployments)
with_project o p k w es (raised e) = refused e

-- The channel that the socket subscribes to.
abbrev pub log_channel : String → String
log_channel k = append "shipzen:logs:" k

abbrev pub with_user :
    (String → List (Event String))
    → Outcome
    → Outcome
    → String
    → String
    → World
    → Result User
    → Socket String
unfolding with_project
with_user channel first second p k w (raised e) = policy_violation
with_user channel first second p k w (ok u) =
    with_project second p k w (channel (log_channel k)) (verify_project_access first p u w).0

-- The outcomes are of the two connections; `channel` is what Redis delivers on a channel.
unfoldable pub websocket_deployment_logs :
    (String → List (Event String))
    → Option String
    → Result User
    → Outcome
    → Outcome
    → String
    → String
    → World
    → Socket String
unfolding with_user
websocket_deployment_logs channel token auth first second p k w =
    if truthy token then with_user channel first second p k w auth else policy_violation
