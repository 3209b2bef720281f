-- ===== src/Api/Listing/Tests.antt =====
-- Three deployments, and a unary clock.
use mathlib.Core.List.{Perm}
use deploy_hub.Prelude.{
  ℕ, zero, suc, ◌<◌, String, ltb, false, Option, none, some, List, [], ◌∷◌, ◌≡◌, refl, inl, inr,
  arith, length,
}
use deploy_hub.Action.{http_exception, ok, raised}
use deploy_hub.Text.{has_code}
use deploy_hub.Schema.{running, Deployment, deployments_of}
use deploy_hub.Ordered.{Comparable, Descending, follow}
use deploy_hub.Api.Listing.{Formats, above, list_deployments, cursor_for}
use deploy_hub.Api.Listing.Paginated.{get_deployments_paginated}
use deploy_hub.Api.Listing.Pages.{IsSound, page_after, list_deployments-follow}

ticks : ℕ → String
ticks zero = String.[]
ticks (suc n) = String.◌∷◌ "t" (ticks n)

count_ticks : String → Option ℕ
count_ticks String.[] = some zero
count_ticks (String.◌∷◌ c s) = elim (count_ticks s) [ none ↦ none | some n ↦ some (suc n) ]

size : String → ℕ
size String.[] = 0
size (String.◌∷◌ c s) = suc (size s)

abbrev unary : Formats
unary = record { less = λ a b. ltb (size a) (size b); shown = ticks; read_time = count_ticks }

ticks_plain : (n : ℕ) → has_code b'|' (ticks n) ≡ false
unfolding has_code ticks
ticks_plain zero = refl
ticks_plain (suc n) = ticks_plain n

ticks_read : (n : ℕ) → count_ticks (ticks n) ≡ some n
unfolding ticks count_ticks
ticks_read zero = refl
ticks_read (suc n) = rw (ticks_read n) refl

unary-IsSound : IsSound unary
unary-IsSound = record {
  plain = ticks_plain;
  reads = ticks_read;
  irrefl = λ a. ground arith;
  trans = λ a b c p q. ground (arith, p, q);
}

abbrev row : String → ℕ → Deployment
row k now = record {
  deployment_id = k;
  project_id = "p1";
  repo_url = "https://github.com/acme/shop.git";
  image_uri = "reg/shipzen-builds/p1:d1";
  replicas = 1;
  port = 8080;
  health_check_path = "/";
  state = running;
  updated_at = now;
  last_error = none;
}

abbrev table : List Deployment
table = row "d1" 4 ∷ row "d2" 9 ∷ row "d10" 4 ∷ []

table-Comparable : Comparable (above unary) (deployments_of "p1" table)
unfolding deployments_of size
table-Comparable = ((inr refl, (inr refl, tt)), ((inl refl, tt), (tt, tt)))

table_short : length (deployments_of "p1" table) < 4
unfolding deployments_of
table_short = omega arith

list_deployments-follow_example :
    ((c : Option Deployment)
      → list_deployments unary none "p1" 2 (cursor_for unary c) table
        ≡ ok (page_after unary "p1" 2 table c))
    × (rows : List Deployment) × (follow (page_after unary "p1" 2 table) 4 none ≡ some rows)
    × Perm rows (deployments_of "p1" table)
    × Descending (above unary) rows
list_deployments-follow_example =
    list_deployments-follow unary "p1" 1 4 table unary-IsSound table-Comparable table_short
      (omega arith)

-- Of two rows of one time, a page of one row shows one, and no later page the other.
get_deployments_paginated_example :
    (get_deployments_paginated count_ticks none "p1" 1 none (row "d1" 4 ∷ row "d2" 4 ∷ [])
      ≡ ok (row "d2" 4 ∷ []))
    × (get_deployments_paginated count_ticks none "p1" 1
          (some "tttt")
          (row "d1" 4 ∷ row "d2" 4 ∷ [])
        ≡ ok [])
unfolding get_deployments_paginated deployments_of count_ticks
get_deployments_paginated_example = (refl, refl)

-- A limit of 101 is refused, and 100 is not.
list_deployments_limit :
    (list_deployments unary none "p1" 101 none []
      ≡ raised (http_exception 422 "Unprocessable Entity"))
    × (list_deployments unary none "p1" 0 none []
        ≡ raised (http_exception 422 "Unprocessable Entity"))
unfolding list_deployments
list_deployments_limit = (refl, refl)
