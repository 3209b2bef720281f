-- ===== src/Api/Streams/Http.antt =====
-- `stream_logs` of api/main.py: the log lines of a deployment as server-sent events. What Redis
-- delivers on a channel is a parameter.
use Prim.Native.String.{◌++◌ as append}
use deploy_hub.Prelude.{
  String, ◌≡◌, ◌≢◌, ◌⊎◌, refl, sym, ap, ◌∙◌, true, none, some, List, [], ◌∷◌, map,
}
use deploy_hub.Action.{Outcome, Result, ok, raised}
use deploy_hub.Schema.{Project}
use deploy_hub.Api.World.{World, role_in}
use deploy_hub.Api.Access.{User, is_admin, live_project, verify_project_access}
use deploy_hub.Api.Access.Laws.{verify_project_access_opens}
use deploy_hub.Api.Streams.{Event, notice, message, forward_logs}

abbrev pub chunk : String → String
chunk line = append "data: " (append line "\n\n")

-- What the generator yields until a chunk cannot be sent.
unfoldable pub event_stream : List (Event String) → List String
event_stream [] = []
event_stream (notice ∷ es) = event_stream es
event_stream (message line none ∷ es) = chunk line ∷ event_stream es
event_stream (message line (some e) ∷ es) = []

abbrev pub streamed : List (Event String) → Result Project → Result (List String)
unfolding event_stream
streamed es (raised e) = raised e
streamed es (ok p) = ok (event_stream es)

-- Of the deployment `k`, to the caller `u`.
unfoldable pub stream_logs :
    (String → List (Event String)) → Outcome → String → String → User → World → Result (List String)
unfolding streamed
stream_logs channel o p k u w =
    streamed (channel (append "shipzen:logs:" k)) (verify_project_access o p u w).0

event_stream-forward_logs :
    (es : List (Event String)) → event_stream es ≡ map chunk (forward_logs es)
unfolding event_stream forward_logs
event_stream-forward_logs [] = refl
event_stream-forward_logs (notice ∷ es) = event_stream-forward_logs es
event_stream-forward_logs (message line none ∷ es) =
    ap (λ cs. chunk line ∷ cs) (event_stream-forward_logs es)
event_stream-forward_logs (message line (some e) ∷ es) = refl

-- The caller may open the project, and what is sent are the lines that the socket would send. Nothing
-- relates the deployment to the project.
pub record Streamed (p k : String) (u : User) (w : World) (es : List (Event String))
    (chunks : List String) : Type 0 where
  pub project : Project
  pub live : live_project p w.projects ≡ some project
  pub reason : (is_admin u ≡ true) ⊎ (role_in p u.user_id w.members ≢ none)
  pub sent : chunks ≡ map chunk (forward_logs es)

chunks_in : Result (List String) → List String
chunks_in (ok l) = l
chunks_in (raised e) = []

streamed_stage :
    (o : Outcome) (p k : String) (u : User) (w : World) (es : List (Event String))
    (chunks : List String) (r : Result Project)
    → (verify_project_access o p u w).0 ≡ r
    → streamed es r ≡ ok chunks
    → Streamed p k u w es chunks
unfolding streamed chunks_in
streamed_stage o p k u w es chunks (raised e) v h = cc
streamed_stage o p k u w es chunks (ok q) v h =
    let (l, m) = verify_project_access_opens o p u w q v in
    record {
      project = q;
      live = l;
      reason = m;
      sent = sym (ap chunks_in h) ∙ event_stream-forward_logs es;
    }

-- Log lines are streamed only to an administrator or a member of the project, and they are the lines
-- that the socket sends, each as an event.
pub stream_logs-Streamed :
    (channel : String → List (Event String)) (o : Outcome) (p k : String) (u : User) (w : World)
    (chunks : List String)
    → stream_logs channel o p k u w ≡ ok chunks
    → Streamed p k u w (channel (append "shipzen:logs:" k)) chunks
unfolding stream_logs
stream_logs-Streamed channel o p k u w chunks h =
    streamed_stage o p k u w (channel (append "shipzen:logs:" k)) chunks
      (verify_project_access o p u w).0 refl h
