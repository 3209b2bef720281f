-- ===== src/Controller/Manifests.antt =====
-- `apply_manifests`: each document is created, or patched if it exists and its kind can be patched.
pub mod Effects
use deploy_hub.Prelude.{
  ℕ, String, ltb, if◌then◌else◌, ◌&&◌, not, Bool, true, false, Option, none, some, List, [], ◌∷◌,
}
use deploy_hub.Action.{
  Exn, operational_error, api_exception, Outcome, Action, Result, ok, raised, raise, pure, ◌>>=◌,
  ◌>>◌, try_catch, call, attempt,
}
use deploy_hub.Controller.World.{World, Kind, other_kind, issue, applied, patched}

-- A document, with what Kubernetes answers when it is created and when it is patched.
pub record Doc : Type 0 where
  pub kind : Kind
  pub name : String
  pub create : Outcome
  pub patch : Outcome

abbrev pub is_conflict : ℕ → Bool
is_conflict n = not (ltb n 409) && not (ltb 409 n)

-- The kinds that the ladder of `patch_...` calls knows.
abbrev pub can_patch : Kind → Bool
can_patch other_kind = false
can_patch _ = true

patch_doc : Doc → Action World Unit
patch_doc d =
    if can_patch d.kind then attempt (call d.patch (issue (patched d.kind d.name))) else pure tt

-- The two `except` clauses.
create_failed : Doc → Exn → Action World Unit
unfolding patch_doc
create_failed d (api_exception n s) = if is_conflict n then patch_doc d else pure tt
create_failed d e = pure tt

apply_doc : Doc → Action World Unit
unfolding create_failed
apply_doc d = try_catch (call d.create (issue (applied d.kind d.name))) (create_failed d)

-- The loop over the documents. An empty one is passed over; one that is no mapping, or whose metadata
-- is none, raises where its kind and name are read, outside of the `try` statement.
apply_docs : List (Option (Result Doc)) → Action World Unit
unfolding apply_doc
apply_docs [] = pure tt
apply_docs (none ∷ ds) = apply_docs ds
apply_docs (some (raised e) ∷ ds) = raise e
apply_docs (some (ok d) ∷ ds) = apply_doc d >> apply_docs ds

lift_docs : Result (List (Option (Result Doc))) → Action World (List (Option (Result Doc)))
lift_docs r w = (r, w)

-- `docs` is the answer of the YAML parser.
unfoldable pub apply_manifests : Result (List (Option (Result Doc))) → Action World Unit
unfolding apply_docs lift_docs
apply_manifests docs = lift_docs docs >>= apply_docs
