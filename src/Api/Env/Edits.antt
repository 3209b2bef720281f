-- ===== src/Api/Env/Edits.antt =====
-- Setting and deleting a variable, and listing the keys.
use text.Mathlib.TextLemmas.{append_cancel_left}
use deploy_hub.Prelude.{
  String, ◌==◌, if◌then◌else◌, true, Option, none, some, [], ◌≡◌, ◌≢◌, ◌⊎◌, inl, inr, refl, ap,
  subst, ◌∙◌,
}
use deploy_hub.Action.{Exn, Outcome, Action, Result, ok, raised, raise, handle}
use deploy_hub.Dict.{Dict, keys, lookup, has_unique_keys}
use deploy_hub.Schema.{Project}
use deploy_hub.Api.World.{World, log_audit_event}
use deploy_hub.Api.Access.{User}
use deploy_hub.Api.Env.{
  Answer, answered, not_found, refused, SecretsManager, IsManager, Json, IsJson, Answers, secret_id,
  asked, string_of, read_dict, listed, get_env_vars, log, with_client, if_client,
}

-- What the lookup of a key finds once a variable is set, and once it is deleted.
abbrev pub set_to : String → String → String → Option String → Option String
set_to key value j o = if key == j then some value else o

abbrev pub without : String → String → Option String → Option String
without key j o = if key == j then none else o

-- The dict that was read, and none where the read raised.
unfoldable pub dict_of : Result (Dict String) → Dict String
dict_of (ok d) = d
dict_of (raised e) = []

module _ {V T : Type 0} (sm : SecretsManager V T) (json : Json T) where
  -- The variables of a project.
  abbrev pub contents : Project → V → Result (Dict String)
  contents p v = read_dict sm json (sm.get_secret_value (secret_id p) v)

  -- The variables of the project are changed by `f`, key by key, and are listed; those of no other
  -- project change.
  pub record Edited (p : Project) (f : String → Option String → Option String) (v x : V)
      : Type 0 where
    pub before : Dict String
    pub after : Dict String
    pub held : contents p v ≡ ok before
    pub holds : contents p x ≡ ok after
    pub finds : (j : String) → lookup j after ≡ f j (lookup j before)
    pub lists : get_env_vars sm json none none p x ≡ ok (keys after)
    pub others :
        (c o : Outcome) (q : Project)
        → q.id ≢ p.id
        → get_env_vars sm json c o q x ≡ get_env_vars sm json c o q v

  -- Why a request fails.
  pub data Cause (p : Project) (a : Answers) (v : V) : Type 0 where
    client_failed : (e : Exn) → a.client ≡ some e → Cause p a v
    get_failed : (e : Exn) → a.get ≡ some e → Cause p a v
    update_failed : (e : Exn) → a.update ≡ some e → Cause p a v
    create_failed : (e : Exn) → a.create ≡ some e → Cause p a v
    unreadable : (e : Exn) → contents p v ≡ raised e → Cause p a v
    update_refused :
        (t : T) (e : Exn) → sm.update_secret (secret_id p) t v ≡ refused e → Cause p a v
    create_refused :
        (t : T) (e : Exn) → sm.create_secret (secret_id p) t v ≡ refused e → Cause p a v
    create_unanswered : (t : T) → sm.create_secret (secret_id p) t v ≡ not_found → Cause p a v

  -- The request succeeds with this effect, or fails for such a cause and with none.
  abbrev pub EditsOrFails :
      Project
      → (String → Option String → Option String)
      → Type 0
      → V × World
      → Result (Unit {0}) × (V × World)
      → Type 0
  EditsOrFails p f C s r =
      ((r.0 ≡ ok tt) × Edited p f s.0 r.1.0) ⊎ (C × (e : Exn) × (r ≡ (raised e, s)))

  module _ (im : IsManager sm) (ij : IsJson json) (p : Project) where
    module _ (f : String → Option String → Option String) (C : Type 0) (s : V × World) where
      pub logged :
          (action : String) (u : User) (o : Outcome) (x : V)
          → Edited p f s.0 x
          → EditsOrFails p f C s (log sm json action p u o (x, s.1))
      unfolding log log_audit_event
      logged action u none x e = inl (refl, e)
      logged action u (some _) x e = inl (refl, e)

      pub caught :
          (e : Exn) (r : Result (Unit {0})) (t : V × World)
          → EditsOrFails p f C s (r, t)
          → EditsOrFails p f C s (handle r (λ _. raise e) t)
      caught e (ok _) t h = h
      caught e (raised x) t (inl (h, _)) = cc
      caught e (raised x) t (inr (c, y, h)) = inr (c, e, ap (λ z. (raised e, z.1)) h)

    -- No client, and nothing is done.
    pub client_stage :
        (f : String → Option String → Option String) (a : Answers) (s : V × World)
        (m : Action (V × World) Unit) (o : Outcome)
        → a.client ≡ o
        → EditsOrFails p f (Cause p a s.0) s (m s)
        → EditsOrFails p f (Cause p a s.0) s (with_client o m s)
    client_stage f a s m none h r = r
    client_stage f a s m (some e) h r = inr (client_failed e h, e, refl)

    pub read_unique :
        (a : Answer (Option T)) (d : Dict String)
        → read_dict sm json a ≡ ok d
        → has_unique_keys d ≡ true
    unfolding has_unique_keys dict_of
    read_unique (answered t) d h = ij.unique (string_of sm json t) d h
    read_unique not_found d h = subst (λ r. has_unique_keys (dict_of r) ≡ true) h refl
    read_unique (refused e) d h = subst (λ r. has_unique_keys (dict_of r) ≡ true) h refl

    module _ (f : String → Option String → Option String) (v : V) (d after : Dict String)
        (held : contents p v ≡ ok d) (u : has_unique_keys after ≡ true)
        (finds : (j : String) → lookup j after ≡ f j (lookup j d)) where
      pub written :
          (x : V)
          → sm.get_secret_value (secret_id p) x ≡ answered (some (json.dumps after))
          → ((j : String) → j ≢ secret_id p → sm.get_secret_value j x ≡ sm.get_secret_value j v)
          → Edited p f v x
      unfolding get_env_vars
      written x h g =
          let now : contents p x ≡ ok after = ap (read_dict sm json) h ∙ ij.read_dumped after u in
          record {
            before = d;
            after = after;
            held = held;
            holds = now;
            finds = finds;
            lists = ap (listed sm json) now;
            others = λ c o q n.
                ap (λ a. if_client c (listed sm json (read_dict sm json (asked o a))))
                  (g (secret_id q) (λ e. n (append_cancel_left "shipzen/project/" q.id p.id e)));
          }
