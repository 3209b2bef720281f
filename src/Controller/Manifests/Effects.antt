-- ===== src/Controller/Manifests/Effects.antt =====
-- How `apply_manifests` ends and which calls it makes, by its documents and the answers of Kubernetes.
use deploy_hub.Prelude.{
  ◌≡◌, refl, ◌∙◌, ap, sym, Option, none, some, List, [], ◌∷◌, ◌++◌, append_assoc, arith,
  if◌then◌else◌,
}
use deploy_hub.Action.{api_exception, Outcome, Result, ok, raised}
use deploy_hub.Controller.World.{World, Command, applied, patched}
use deploy_hub.Controller.Manifests.{
  Doc, is_conflict, can_patch, apply_doc, apply_docs, apply_manifests,
}

-- The call that a document leads to.
abbrev pub effect_of : Doc → Outcome → Outcome → List Command
effect_of d none patch = applied d.kind d.name ∷ []
effect_of d (some (api_exception n s)) none =
    if is_conflict n then (if can_patch d.kind then patched d.kind d.name ∷ [] else []) else []
effect_of d (some e) patch = []

abbrev pub effects : List (Option (Result Doc)) → List Command
effects [] = []
effects (none ∷ ds) = effects ds
effects (some (raised e) ∷ ds) = []
effects (some (ok d) ∷ ds) = effects ds ++ effect_of d d.create d.patch

-- How it ends: at the first document that cannot be read, or behind the last.
abbrev pub ending : List (Option (Result Doc)) → Result (Unit {0})
ending [] = ok tt
ending (none ∷ ds) = ending ds
ending (some (raised e) ∷ ds) = raised e
ending (some (ok d) ∷ ds) = ending ds

apply_doc-effect :
    (d : Doc) (w : World)
    → apply_doc d w ≡ (ok tt, record w { issued = effect_of d d.create d.patch ++ w.issued })
unfolding apply_doc
apply_doc-effect d w = ground arith

apply_docs-effects :
    (ds : List (Option (Result Doc))) (w : World)
    → apply_docs ds w ≡ (ending ds, record w { issued = effects ds ++ w.issued })
unfolding apply_docs
apply_docs-effects [] w = refl
apply_docs-effects (none ∷ ds) w = apply_docs-effects ds w
apply_docs-effects (some (raised e) ∷ ds) w = refl
apply_docs-effects (some (ok d) ∷ ds) w = rw (apply_doc-effect d w) (
    apply_docs-effects ds (record w { issued = effect_of d d.create d.patch ++ w.issued })
    ∙ ap (λ l. (ending ds, record w { issued = l }))
        (sym (append_assoc (effects ds) (effect_of d d.create d.patch) w.issued)))

-- Once the YAML is parsed: how it ends, and the calls that it makes.
pub apply_manifests-effects :
    (ds : List (Option (Result Doc))) (w : World)
    → apply_manifests (ok ds) w ≡ (ending ds, record w { issued = effects ds ++ w.issued })
unfolding apply_manifests
apply_manifests-effects ds w = apply_docs-effects ds w
