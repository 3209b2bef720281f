-- ===== src/Api/Env/Delete.antt =====
-- Deleting a variable.
use deploy_hub.Prelude.{
  String, true, false, none, some, ◌≡◌, inl, inr, refl, sym, ap, ◌∙◌, contains, Bool-cases,
}
use deploy_hub.Action.{Outcome, Result, ok, raised}
use deploy_hub.Dict.{Dict, keys, lookup, erase}
use deploy_hub.Dict.Laws.{lookup-erase, erase_unique, erase-absent}
use deploy_hub.Schema.{Project}
use deploy_hub.Api.World.{World}
use deploy_hub.Api.Access.{User}
use deploy_hub.Api.Env.{
  Answer, answered, not_found, refused, SecretsManager, IsManager, Json, IsJson, Answers, secret_id,
  asked, read_dict, listed, get_env_vars, deleted, delete_from, delete_env_var,
}
use deploy_hub.Api.Env.Edits.{
  without, contents, Edited, Cause, get_failed, update_failed, unreadable, update_refused,
  EditsOrFails, logged, caught, client_stage, dict_of, read_unique, written,
}

module _ {V T : Type 0} (sm : SecretsManager V T) (json : Json T) (im : IsManager sm)
    (ij : IsJson json) (p : Project) (u : User) (a : Answers) where
  -- Nothing is written sm json im ij p where the variable is not there.
  unchanged :
      (key : String) (v : V) (w : World) (d : Dict String)
      → contents sm json p v ≡ ok d
      → contains key (keys d) ≡ false
      → Edited sm json p (without key) v v
  unfolding get_env_vars
  unchanged key v w d h c = record {
    before = d;
    after = d;
    held = h;
    holds = h;
    finds = λ j.
        ap (lookup j) (sym (erase-absent key d c))
        ∙ lookup-erase j key d
            (read_unique sm json im ij p (sm.get_secret_value (secret_id p) v) d h);
    lists = ap (listed sm json) h;
    others = λ c o q n. refl;
  }

  -- A secret that is not found holds no variable.
  never_missing :
      (key : String) (v : V) (d : Dict String) (t : T)
      → contents sm json p v ≡ ok d
      → contains key (keys d) ≡ true
      → sm.update_secret (secret_id p) t v ≡ not_found
      → true ≡ false
  unfolding keys dict_of
  never_missing key v d t h c m =
      sym c
      ∙ (ap (λ r. contains key (keys (dict_of r)))
          (sym h ∙ ap (read_dict sm json) (im.missing (secret_id p) t v m)))

  erase_edits :
      (key : String) (v : V) (w : World) (d : Dict String)
      → contents sm json p v ≡ ok d
      → contains key (keys d) ≡ true
      → (o : Outcome) (x : Answer V) → a.update ≡ o
      → sm.update_secret (secret_id p) (json.dumps (erase key d)) v ≡ x
      → EditsOrFails sm json p
          (without key)
          (Cause sm json p a v)
          (v, w)
          (deleted sm json p u a.audit (asked o x) (v, w))
  erase_edits key v w d h c none (answered x) ho hx =
      let unique = read_unique sm json im ij p (sm.get_secret_value (secret_id p) v) d h in
      logged sm json im ij p (without key) (Cause sm json p a v) (v, w) "DELETE_ENV" u a.audit x
        (written sm json im ij p (without key) v d (erase key d) h (erase_unique key d unique)
          (λ j. lookup-erase j key d unique) x
          (im.read_updated (secret_id p) (json.dumps (erase key d)) v x hx)
          (λ j n. im.updates_one j (secret_id p) (json.dumps (erase key d)) v x n hx))
  erase_edits key v w d h c none not_found ho hx =
      let bad = never_missing key v d (json.dumps (erase key d)) h c hx in cc
  erase_edits key v w d h c none (refused e) ho hx =
      inr (update_refused (json.dumps (erase key d)) e hx, e, refl)
  erase_edits key v w d h c (some e) x ho hx = inr (update_failed e ho, e, refl)

  delete_edits :
      (key : String) (v : V) (w : World) (r : Result (Dict String))
      → contents sm json p v ≡ r
      → EditsOrFails sm json p
          (without key)
          (Cause sm json p a v)
          (v, w)
          (delete_from sm json p u key a r (v, w))
  delete_edits key v w (raised e) h = inr (unreadable e h, e, refl)
  delete_edits key v w (ok d) h = elim (Bool-cases (contains key (keys d))) [
    | inl c ↦ rw c (
        erase_edits key v w d h c a.update
          (sm.update_secret (secret_id p) (json.dumps (erase key d)) v) refl refl)
    | inr c ↦ rw c (inl (refl, unchanged key v w d h c))
  ]

  delete_read :
      (key : String) (v : V) (w : World) (o : Outcome)
      → a.get ≡ o
      → EditsOrFails sm json p
          (without key)
          (Cause sm json p a v)
          (v, w)
          (delete_from sm json p u key a
            (read_dict sm json (asked o (sm.get_secret_value (secret_id p) v)))
            (v, w))
  delete_read key v w none h = delete_edits key v w (contents sm json p v) refl
  delete_read key v w (some e) h = inr (get_failed e h, e, refl)

  -- A request to delete a variable leaves the secret of the project without it and all others as
  -- they were, whether the variable was there or not, and the keys that are then listed are those
  -- of the variables that are left; or it changes nothing and fails, because a call failed or was
  -- refused or the secret could not be read.
  pub delete_env_var-EditsOrFails :
      (key : String) (s : V × World)
      → EditsOrFails sm json p
          (without key)
          (Cause sm json p a s.0)
          s
          (delete_env_var sm json p u key a s)
  unfolding delete_env_var
  delete_env_var-EditsOrFails key (v, w) =
      client_stage sm json im ij p (without key) a (v, w) _ a.client refl
        (caught sm json im ij p (without key) (Cause sm json p a v) (v, w) _ _ _
          (delete_read key v w a.get refl))
