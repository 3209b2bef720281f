-- ===== src/Api/Builds.antt =====
-- `_get_deployment_or_404` and `get_build_logs` of api/main.py, behind `verify_project_access`. What
-- S3 answers to a bucket and a key is a parameter.
pub mod Location
pub mod Listed
use Prim.Native.String.{◌++◌ as append}
use deploy_hub.Prelude.{
  ℕ, String, ◌==◌, if◌then◌else◌, Bool, true, false, ◌&&◌, Option, none, some, List, [], ◌∷◌,
}
use deploy_hub.Action.{Exn, http_exception, exception, Outcome, Result, ok, raised}
use deploy_hub.Text.{truthy, starts_with, split, join}
use deploy_hub.Schema.{Deployment, Build}

-- What `s3.get_object` answers.
pub data S3Object : Type 0 where
  body : String → S3Object
  no_such_key : S3Object
  s3_failure : Exn → S3Object

-- `SELECT * FROM deployments WHERE deployment_id = %s AND project_id = %s` and its first row.
unfoldable pub find_deployment : String → String → List Deployment → Option Deployment
find_deployment p k [] = none
find_deployment p k (d ∷ ds) =
    if d.deployment_id == k && d.project_id == p then some d else find_deployment p k ds

unfoldable found : String → Option Deployment → Result Deployment
found k none = raised (http_exception 404 (append "Deployment '" (append k "' not found")))
found k (some d) = ok d

-- `_get_deployment_or_404`.
unfoldable pub get_deployment_or_404 :
    Outcome → String → String → List Deployment → Result Deployment
unfolding found
get_deployment_or_404 (some e) p k ds = raised (http_exception 500 "Database error")
get_deployment_or_404 none p k ds = found k (find_deployment p k ds)

-- `SELECT s3_log_uri FROM builds WHERE build_id = %s AND deployment_id = %s` and its first row.
unfoldable pub find_build : String → String → List Build → Option Build
find_build b k [] = none
find_build b k (r ∷ rs) =
    if r.build_id == b && r.deployment_id == k then some r else find_build b k rs

-- Bucket and key of a URI; `split("/")[2]` does not exist in a text with fewer than three parts.
abbrev pub parts : List String → Option (String × String)
parts (scheme ∷ gap ∷ bucket ∷ key) = some (bucket, join "/" key)
parts _ = none

unfoldable pub location : String → Option (String × String)
unfolding split join
location uri = parts (split b'/' uri)

log_error : Exn
log_error = http_exception 500 "Failed to get logs"

fetched : S3Object → Result String
unfolding log_error
fetched (body text) = ok text
fetched no_such_key = raised (http_exception 404 "Log file not found in S3")
fetched (s3_failure e) = raised log_error

unfoldable pub fetch_at : (String → String → S3Object) → Option (String × String) → Result String
unfolding fetched log_error
fetch_at s3 none = raised log_error
fetch_at s3 (some (bucket, key)) =
    if truthy (some bucket)
    then fetched (s3 bucket key)
    else raised (http_exception 404 "Log storage not configured")

unfoldable pub fetch_log : (String → String → S3Object) → Option Build → Result String
unfolding fetch_at location starts_with
fetch_log s3 none = raised (http_exception 404 "Log not found")
fetch_log s3 (some r) =
    if truthy (some r.s3_log_uri)
    then (if starts_with "s3://" r.s3_log_uri
        then fetch_at s3 (location r.s3_log_uri)
        else raised (http_exception 400 "Invalid log URI"))
    else raised (http_exception 404 "Log not found")

unfoldable read_log :
    (String → String → S3Object)
    → Outcome
    → String
    → String
    → List Build
    → Result Deployment
    → Result String
unfolding log_error
read_log s3 o b k builds (raised e) = raised e
read_log s3 (some e) b k builds (ok d) = raised log_error
read_log s3 none b k builds (ok d) = fetch_log s3 (find_build b k builds)

-- `get_build_logs` of the build `b` of the deployment `k` of the project `p`; the two outcomes are of
-- the two connections.
unfoldable pub get_build_logs :
    (String → String → S3Object)
    → Outcome
    → Outcome
    → String
    → String
    → String
    → List Deployment
    → List Build
    → Result String
unfolding read_log get_deployment_or_404
get_build_logs s3 first second p k b ds builds =
    read_log s3 second b k builds (get_deployment_or_404 first p k ds)
