-- ===== src/Api/Builds/Listed.antt =====
-- `list_builds` of api/main.py, behind `verify_project_access`.
mod Tests
use mathlib.Core.List.{Perm}
use deploy_hub.Prelude.{
  ℕ, String, ◌==◌, eq_iff, ltb, if◌then◌else◌, Bool, true, false, Option, none, some, List, [], ◌∷◌,
  ◌≡◌, refl, ◌⊎◌, inl, inr, All, select, arith,
}
use deploy_hub.Action.{Exn, http_exception, Outcome, Result, ok, raised}
use deploy_hub.Schema.{Deployment, Build}
use deploy_hub.Ordered.{sort}
use deploy_hub.Ordered.Sorted.{sort-perm, All-sort}
use deploy_hub.Ordered.Top.{Falling, sort-Falling, All-passed}
use deploy_hub.Api.Builds.{find_deployment, get_deployment_or_404, found}

-- A row of builds, with its started_at.
abbrev pub Started : Type 0
Started = Build × ℕ

-- `ORDER BY started_at DESC`.
abbrev pub started_later : Started → Started → Bool
started_later a b = ltb b.1 a.1

abbrev pub is_build_of : String → Started → Bool
is_build_of k b = b.0.deployment_id == k

select_builds : Outcome → String → List Started → Result Deployment → Result (List Started)
unfolding sort
select_builds o k builds (raised e) = raised e
select_builds (some e) k builds (ok d) = raised (http_exception 500 "Failed to list builds")
select_builds none k builds (ok d) = ok (sort started_later (select (is_build_of k) builds))

-- The two outcomes are of the two connections.
unfoldable pub list_builds :
    Outcome → Outcome → String → String → List Deployment → List Started → Result (List Started)
unfolding select_builds get_deployment_or_404
list_builds first second p k ds builds =
    select_builds second k builds (get_deployment_or_404 first p k ds)

irrefl : (a : Started) → started_later a a ≡ false
irrefl a = ground arith

trans :
    (a b c : Started)
    → started_later a b ≡ true
    → started_later b c ≡ true
    → started_later a c ≡ true
trans a b c h g = ground (arith, h, g)

-- The builds of the deployment `k`, which is one of the project `p`, each once, the latest first.
pub record BuildsOf (p k : String) (ds : List Deployment) (builds rows : List Started)
    : Type 0 where
  pub deployment : Deployment
  pub in_project : find_deployment p k ds ≡ some deployment
  pub each_once : Perm rows (select (is_build_of k) builds)
  pub latest_first : Falling started_later rows
  pub of_deployment : All (λ b. b.0.deployment_id ≡ k) rows

of_id :
    (k : String) (rows : List Started)
    → All (λ b. is_build_of k b ≡ true) rows
    → All (λ b. b.0.deployment_id ≡ k) rows
of_id k [] h = tt
of_id k (b ∷ bs) h = ((eq_iff b.0.deployment_id k).0 h.0, of_id k bs h.1)

-- The answer by what is found.
abbrev pub Lists : String → String → List Deployment → List Started → Result (List Started) → Type 0
Lists p k ds builds (ok rows) = BuildsOf p k ds builds rows
Lists p k ds builds (raised e) =
    (n : ℕ) × (detail : String) × (e ≡ http_exception n detail)
    × ((n ≡ 500) ⊎ ((n ≡ 404) × (find_deployment p k ds ≡ none)))

found_stage :
    (second : Outcome) (p k : String) (ds : List Deployment) (builds : List Started)
    (o : Option Deployment)
    → find_deployment p k ds ≡ o
    → Lists p k ds builds (select_builds second k builds (found k o))
unfolding select_builds found
found_stage second p k ds builds none e = (404, _, refl, inr (refl, e))
found_stage (some x) p k ds builds (some d) e = (500, _, refl, inl refl)
found_stage none p k ds builds (some d) e =
    let chosen = select (is_build_of k) builds in
    record {
      deployment = d;
      in_project = e;
      each_once = sort-perm started_later chosen;
      latest_first = sort-Falling started_later irrefl trans chosen;
      of_deployment = of_id k (sort started_later chosen) (
          All-sort started_later (λ b. is_build_of k b ≡ true) chosen
            (All-passed (is_build_of k) builds));
    }

-- `list_builds` answers with the builds of a deployment of the project, every one and each once, the
-- latest first; or with the status 404, only if the project has no such deployment; or with 500.
pub list_builds-Lists :
    (first second : Outcome) (p k : String) (ds : List Deployment) (builds : List Started)
    → Lists p k ds builds (list_builds first second p k ds builds)
unfolding list_builds
list_builds-Lists (some x) second p k ds builds = (500, _, refl, inl refl)
list_builds-Lists none second p k ds builds =
    found_stage second p k ds builds (find_deployment p k ds) refl
