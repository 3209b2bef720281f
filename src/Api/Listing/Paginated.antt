-- ===== src/Api/Listing/Paginated.antt =====
-- `get_deployments_paginated` of api/database.py, which nothing calls: a page of the deployments of a
-- project, below a time. How the database reads a time is a parameter.
use deploy_hub.Prelude.{
  ℕ, String, ltb, if◌then◌else◌, Bool, true, false, ◌≡◌, refl, sym, ap, ◌∙◌, subst, Option, none,
  some, List, [], select, arith,
}
use deploy_hub.Action.{database_error, Outcome, Result, ok, raised}
use deploy_hub.Text.{truthy}
use deploy_hub.Schema.{Deployment, deployments_of}
use deploy_hub.Ordered.{take, sort}
use deploy_hub.Ordered.Top.{IsTop, take-sort}

-- `ORDER BY updated_at DESC`.
abbrev pub updated_later : Deployment → Deployment → Bool
updated_later a b = ltb b.updated_at a.updated_at

abbrev pub before_time : Option ℕ → Deployment → Bool
before_time none d = true
before_time (some t) d = ltb d.updated_at t

select_before : Outcome → String → ℕ → Option ℕ → List Deployment → Result (List Deployment)
unfolding take sort
select_before (some e) k limit b ds = raised e
select_before none k limit b ds =
    ok (take limit (sort updated_later (select (before_time b) (deployments_of k ds))))

-- The text of the cursor, or none where it is none or empty.
unfoldable pub get_deployments_paginated :
    (String → Option ℕ)
    → Outcome
    → String
    → ℕ
    → Option String
    → List Deployment
    → Result (List Deployment)
unfolding select_before
get_deployments_paginated read_time o k limit none ds = select_before o k limit none ds
get_deployments_paginated read_time o k limit (some s) ds =
    if truthy (some s)
    then elim (read_time s) [
      | none ↦ raised (database_error "invalid input syntax for type timestamp")
      | some t ↦ select_before o k limit (some t) ds
    ]
    else select_before o k limit none ds

irrefl : (a : Deployment) → updated_later a a ≡ false
irrefl a = ground arith

trans :
    (a b c : Deployment)
    → updated_later a b ≡ true
    → updated_later b c ≡ true
    → updated_later a c ≡ true
trans a b c h g = ground (arith, h, g)

rows_in : Result (List Deployment) → List Deployment
rows_in (ok l) = l
rows_in (raised e) = []

-- A page below the time that a cursor names has the `limit` latest rows of the project before it.
get_deployments_paginated-IsTop :
    (read_time : String → Option ℕ) (k c : String) (t limit : ℕ) (ds rows : List Deployment)
    → truthy (some c) ≡ true
    → read_time c ≡ some t
    → get_deployments_paginated read_time none k limit (some c) ds ≡ ok rows
    → IsTop updated_later (before_time (some t)) limit (deployments_of k ds) rows
unfolding get_deployments_paginated select_before rows_in
get_deployments_paginated-IsTop read_time k c t limit ds rows h r e =
    subst (IsTop updated_later (before_time (some t)) limit (deployments_of k ds))
      (ap rows_in (page ∙ e))
      (take-sort updated_later irrefl trans (before_time (some t)) limit (deployments_of k ds))
  where
    page :
        ok (take limit (sort updated_later (select (before_time (some t)) (deployments_of k ds))))
        ≡ get_deployments_paginated read_time none k limit (some c) ds
    page = sym (rw h (rw r refl))
