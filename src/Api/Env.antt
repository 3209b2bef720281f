-- ===== src/Api/Env.antt =====
-- `get_env_vars`, `put_env_var` and `delete_env_var` of api/main.py, behind `verify_project_access`.
-- AWS Secrets Manager and the json module are parameters. The body of a request holds texts or misses
-- them, as its documentation says; the details of audit events are left out.
pub mod Edits
pub mod Put
pub mod Delete
mod Tests
use Prim.Native.String.{◌++◌ as append}
use deploy_hub.Prelude.{
  String, if◌then◌else◌, Bool, true, false, ◌&&◌, Option, none, some, List, [], ◌∷◌, contains, ◌≡◌,
  ◌≢◌,
}
use deploy_hub.Action.{
  Exn, http_exception, exception, Outcome, Action, Result, ok, raised, pure, raise, ◌>>◌, ◌>>=◌,
  try_catch,
}
use deploy_hub.Text.{truthy}
use deploy_hub.Dict.{Dict, keys, assign, erase, has_unique_keys}
use deploy_hub.Schema.{Project}
use deploy_hub.Api.World.{World, AuditEvent, log_audit_event}
use deploy_hub.Api.Access.{User}

-- What a call of the Secrets Manager answers.
pub data Answer (A : Type 0) : Type 0 where
  answered : A → Answer A
  not_found : Answer A  -- ResourceNotFoundException
  refused : Exn → Answer A

-- The client of the Secrets Manager, over its state `V` and what it stores, `T`; `get_secret_value`
-- answers SecretString, which a binary secret does not have.
pub record SecretsManager (V T : Type 0) : Type 0 where
  pub get_secret_value : String → V → Answer (Option T)
  pub update_secret : String → T → V → Answer V
  pub create_secret : String → T → V → Answer V

-- What its documentation says: a secret that is written is read back, no other secret changes, and a
-- secret that is there can be found by an update.
pub record IsManager {V T : Type 0} (sm : SecretsManager V T) : Type 0 where
  pub read_updated :
      (k : String) (t : T) (v w : V)
      → sm.update_secret k t v ≡ answered w
      → sm.get_secret_value k w ≡ answered (some t)
  pub read_created :
      (k : String) (t : T) (v w : V)
      → sm.create_secret k t v ≡ answered w
      → sm.get_secret_value k w ≡ answered (some t)
  pub updates_one :
      (j k : String) (t : T) (v w : V)
      → j ≢ k
      → sm.update_secret k t v ≡ answered w
      → sm.get_secret_value j w ≡ sm.get_secret_value j v
  pub creates_one :
      (j k : String) (t : T) (v w : V)
      → j ≢ k
      → sm.create_secret k t v ≡ answered w
      → sm.get_secret_value j w ≡ sm.get_secret_value j v
  pub missing :
      (k : String) (t : T) (v : V)
      → sm.update_secret k t v ≡ not_found
      → sm.get_secret_value k v ≡ not_found

-- json.dumps and json.loads on objects of texts, and the text "{}".
pub record Json (T : Type 0) : Type 0 where
  pub dumps : Dict String → T
  pub loads : T → Result (Dict String)
  pub empty_object : T

pub record IsJson {T : Type 0} (json : Json T) : Type 0 where
  pub read_dumped : (d : Dict String) → has_unique_keys d ≡ true → json.loads (json.dumps d) ≡ ok d
  pub unique : (t : T) (d : Dict String) → json.loads t ≡ ok d → has_unique_keys d ≡ true

-- Which calls of a request fail on the way, and the write of the audit event.
pub record Answers : Type 0 where
  pub client : Outcome  -- boto3.client
  pub get : Outcome
  pub update : Outcome
  pub create : Outcome
  pub audit : Outcome

abbrev pub secret_id : Project → String
secret_id p = append "shipzen/project/" p.id

-- A call that may fail on the way.
abbrev pub asked : {A : Type 0} → Outcome → Answer A → Answer A
asked none a = a
asked (some e) a = refused e

-- The client is made first, outside of the `try` statement.
abbrev pub with_client : {S A : Type 0} → Outcome → Action S A → Action S A
with_client none m s = m s
with_client (some e) m s = (raised e, s)

abbrev pub if_client : {A : Type 0} → Outcome → Result A → Result A
if_client none r = r
if_client (some e) r = raised e

env_event : String → Project → User → AuditEvent
env_event action p u = record {
  project_id = some p.id;
  user_id = u.user_id;
  action = action;
  resource_type = "project";
  resource_id = p.id;
}

module _ {V T : Type 0} (sm : SecretsManager V T) (json : Json T) where
  -- `res.get('SecretString', '{}')`.
  abbrev pub string_of : Option T → T
  string_of none = json.empty_object
  string_of (some t) = t

  -- The variables in a secret; a project without a secret has none.
  abbrev pub read_dict : Answer (Option T) → Result (Dict String)
  read_dict (answered t) = json.loads (string_of t)
  read_dict not_found = ok []
  read_dict (refused e) = raised e

  abbrev pub listed : Result (Dict String) → Result (List String)
  listed (ok d) = ok (keys d)
  listed (raised e) = raised (http_exception 500 "Failed to fetch env vars")

  -- The keys only.
  unfoldable pub get_env_vars : Outcome → Outcome → Project → V → Result (List String)
  get_env_vars client o p v =
      if_client client (listed (read_dict (asked o (sm.get_secret_value (secret_id p) v))))

  unfoldable pub log : String → Project → User → Outcome → Action (V × World) Unit
  unfolding log_audit_event env_event
  log action p u o (v, w) = let (r, x) = log_audit_event o (env_event action p u) w in (r, (v, x))

  abbrev pub created : V × World → Answer V → Result (Unit {0}) × (V × World)
  created (v, w) (answered x) = (ok tt, (x, w))
  created s not_found = (raised (exception "ResourceNotFoundException"), s)
  created s (refused e) = (raised e, s)

  -- The secret is updated, or created where there is none.
  abbrev pub saved : V × World → Answer V → Answer V → Result (Unit {0}) × (V × World)
  saved (v, w) (answered x) c = (ok tt, (x, w))
  saved s not_found c = created s c
  saved s (refused e) c = (raised e, s)

  abbrev pub save : Project → Answers → Dict String → Action (V × World) Unit
  save p a d (v, w) =
      saved (v, w) (asked a.update (sm.update_secret (secret_id p) (json.dumps d) v))
        (asked a.create (sm.create_secret (secret_id p) (json.dumps d) v))

  abbrev pub set_in :
      Project → User → String → String → Answers → Result (Dict String) → Action (V × World) Unit
  set_in p u key value a (raised e) = raise e
  set_in p u key value a (ok d) = save p a (assign key value d) >> log "UPDATE_ENV" p u a.audit

  put_error : Exn
  put_error = http_exception 500 "Failed to update env var"

  missing_field : Exn
  missing_field = http_exception 400 "Missing key or value"

  abbrev pub set_env : Project → User → String → String → Answers → Action (V × World) Unit
  set_env p u key value a (v, w) =
      set_in p u key value a (read_dict (asked a.get (sm.get_secret_value (secret_id p) v))) (v, w)

  unfoldable pub put_env_var :
      Project → User → Option String → Option String → Answers → Action (V × World) Unit
  unfolding put_error missing_field
  put_env_var p u (some key) (some value) a =
      if truthy (some key) && truthy (some value)
      then with_client a.client (try_catch (set_env p u key value a) (λ _. raise put_error))
      else raise missing_field
  put_env_var p u _ _ a = raise missing_field

  delete_error : Exn
  delete_error = http_exception 500 "Failed to delete env var"

  -- The update of a deletion: that there is no secret counts as done, before the event is written.
  abbrev pub deleted : Project → User → Outcome → Answer V → Action (V × World) Unit
  deleted p u o (answered x) (v, w) = log "DELETE_ENV" p u o (x, w)
  deleted p u o not_found s = (ok tt, s)
  deleted p u o (refused e) s = (raised e, s)

  abbrev pub delete_from :
      Project → User → String → Answers → Result (Dict String) → Action (V × World) Unit
  delete_from p u key a (raised e) s = (raised e, s)
  delete_from p u key a (ok d) (v, w) =
      if contains key (keys d)
      then deleted p u a.audit
          (asked a.update (sm.update_secret (secret_id p) (json.dumps (erase key d)) v)) (v, w)
      else (ok tt, (v, w))

  unfoldable pub delete_env_var : Project → User → String → Answers → Action (V × World) Unit
  unfolding delete_error
  delete_env_var p u key a (v, w) =
      with_client a.client
        (try_catch
          (delete_from p u key a (read_dict (asked a.get (sm.get_secret_value (secret_id p) v))))
          (λ _. raise delete_error))
        (v, w)
