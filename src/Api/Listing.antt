-- ===== src/Api/Listing.antt =====
-- `list_deployments` of api/main.py, behind `verify_project_access`: a page of the deployments of a
-- project, the newest first, below the key that the cursor names. How the database orders ids, and how
-- a time is written into a response and read from a query, are parameters.
pub mod Pages
pub mod Paginated
mod Tests
use Prim.Native.String.{◌++◌ as append}
use deploy_hub.Prelude.{
  ℕ, String, ◌==◌, ltb, if◌then◌else◌, Bool, true, false, ◌&&◌, ◌||◌, not, Option, none, some, List,
  [], ◌∷◌, select,
}
use deploy_hub.Action.{Exn, http_exception, Outcome, Result, ok, raised}
use deploy_hub.Text.{truthy, has_code, before_first, after_first}
use deploy_hub.Schema.{Deployment, deployments_of}
use deploy_hub.Ordered.{take, sort}

-- (updated_at, deployment_id).
abbrev pub Key : Type 0
Key = ℕ × String

-- What PostgreSQL and the serialization do with ids and times.
pub record Formats : Type 0 where
  pub less : String → String → Bool  -- the collation of deployment_id
  pub shown : ℕ → String  -- isoformat
  pub read_time : String → Option ℕ  -- a TIMESTAMP from its text; none where it is refused

module _ (f : Formats) where
  -- `(updated_at, deployment_id) < (%s, %s)`.
  abbrev pub below_key : Key → Deployment → Bool
  below_key (t, k) d = ltb d.updated_at t || (not (ltb t d.updated_at) && f.less d.deployment_id k)

  -- `ORDER BY updated_at DESC, deployment_id DESC`: the first is listed before the second.
  abbrev pub above : Deployment → Deployment → Bool
  above c d = below_key (c.updated_at, c.deployment_id) d

  -- The rows under the cursor's key, where there is one.
  abbrev pub under_key : Option Key → Deployment → Bool
  under_key none d = true
  under_key (some b) d = below_key b d

  -- The SELECT.
  pub select_page : String → Option Key → ℕ → List Deployment → List Deployment
  unfolding take sort
  select_page k b limit ds = take limit (sort above (select (under_key b) (deployments_of k ds)))

  failed_query : Exn
  failed_query = http_exception 500 "Failed to list deployments"

  run_query : Outcome → String → Option Key → ℕ → List Deployment → Result (List Deployment)
  unfolding select_page failed_query
  run_query none k b limit ds = ok (select_page k b limit ds)
  run_query (some e) k b limit ds = raised failed_query

  -- A time that the database cannot read makes the query fail.
  query_under :
      Outcome → String → Option ℕ → String → ℕ → List Deployment → Result (List Deployment)
  unfolding run_query failed_query
  query_under o k none d limit ds = raised failed_query
  query_under o k (some t) d limit ds = run_query o k (some (t, d)) limit ds

  -- `cursor.split("|", 1)`.
  query_cursor : Outcome → String → String → ℕ → List Deployment → Result (List Deployment)
  unfolding query_under before_first after_first
  query_cursor o k s limit ds = elim (after_first b'|' s) [
    | none ↦ raised (http_exception 400 "Invalid cursor format")
    | some d ↦ query_under o k (f.read_time (before_first b'|' s)) d limit ds
  ]

  -- The handler, for a limit in the range that the query parameter has.
  page_for : Outcome → String → ℕ → Option String → List Deployment → Result (List Deployment)
  unfolding query_cursor run_query
  page_for o k limit none ds = run_query o k none limit ds
  page_for o k limit (some s) ds =
      if truthy (some s) then query_cursor o k s limit ds else run_query o k none limit ds

  -- `Query(default=20, ge=1, le=100)`.
  pub list_deployments :
      Outcome → String → ℕ → Option String → List Deployment → Result (List Deployment)
  unfolding page_for
  list_deployments o k limit cursor ds =
      if not (ltb limit 1) && not (ltb 100 limit)
      then page_for o k limit cursor ds
      else raised (http_exception 422 "Unprocessable Entity")

  -- "Pass the `<updated_at>|<deployment_id>` value of the last item as `cursor`".
  abbrev pub cursor_of : Deployment → String
  cursor_of d = append (f.shown d.updated_at) (append "|" d.deployment_id)

  abbrev pub cursor_for : Option Deployment → Option String
  cursor_for none = none
  cursor_for (some d) = some (cursor_of d)
