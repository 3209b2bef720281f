-- ===== src/Handoff/Logs.antt =====
-- The log of a build: worker/main.py uploads it and records where, and api/main.py finds it there.
use Prim.Native.String.{◌++◌ as append}
use text.Mathlib.TextLemmas.{cons-append, append_assoc}
use deploy_hub.Prelude.{
  String, eq_refl, true, false, none, some, List, ◌∷◌, ◌≡◌, refl, ap, ◌∙◌, arith,
}
use deploy_hub.Action.{ok}
use deploy_hub.Text.{has_code, starts_with, truthy}
use deploy_hub.Schema.{Deployment, Build, BuildStatus}
use deploy_hub.Worker.World.{World}
use deploy_hub.Worker.Monitor.{Recording, record_build}
use deploy_hub.Api.Builds.{
  S3Object, body, get_build_logs, find_deployment, find_build, fetch_at, fetch_log,
}
use deploy_hub.Api.Builds.Location.{log_uri, location-log_uri, get_build_logs-found}

starts_with-append : (p s : String) → starts_with p (append p s) ≡ true
unfolding starts_with
starts_with-append String.[] s = refl
starts_with-append (String.◌∷◌ c p) s = rw cons-append (ground (arith, starts_with-append p s))

starts_with-truthy : (s : String) → starts_with "s3://" s ≡ true → truthy (some s) ≡ true
unfolding starts_with
starts_with-truthy String.[] h = ground (arith, h)
starts_with-truthy (String.◌∷◌ c s) h = refl

-- `s3_log_key`.
abbrev pub log_key : String → String
log_key k = append "logs/" (append k "/build.log")

-- `s3_uri`, as it is put together.
recorded_uri : String → String → String
recorded_uri bucket k = append "s3://" (append bucket (append "/logs/" (append k "/build.log")))

recorded-log_uri : (bucket k : String) → recorded_uri bucket k ≡ log_uri bucket (log_key k)
unfolding recorded_uri
recorded-log_uri bucket k =
    ap (λ t. append "s3://" (append bucket t)) (append_assoc "/" "logs/" (append k "/build.log"))

new_build : String → String → BuildStatus → Recording → Build
unfolding recorded_uri
new_build bucket k s r = record {
  build_id = r.build_id;
  deployment_id = k;
  s3_log_uri = recorded_uri bucket k;
  status = s;
  completed_at = none;
}

recorded :
    (bucket k : String) (s : BuildStatus) (r : Recording) (w : World)
    → truthy (some bucket) ≡ true
    → r.insert ≡ none
    → (record_build bucket k s r w).1.builds ≡ new_build bucket k s r ∷ w.builds
unfolding record_build new_build recorded_uri
recorded String.[] k s r w t i = ground (arith, t)
recorded (String.◌∷◌ c b) k s r w t i = rw i refl

find_new :
    (bucket k : String) (s : BuildStatus) (r : Recording) (bs : List Build)
    → find_build r.build_id k (new_build bucket k s r ∷ bs) ≡ some (new_build bucket k s r)
unfolding find_build new_build
find_new bucket k s r bs = rw (eq_refl r.build_id) (rw (eq_refl k) refl)

fetch_body :
    (s3 : String → String → S3Object) (bucket key text : String)
    → truthy (some bucket) ≡ true
    → s3 bucket key ≡ body text
    → fetch_at s3 (some (bucket, key)) ≡ ok text
unfolding fetch_at
fetch_body s3 bucket key text t b = rw t (rw b refl)

fetch_new :
    (s3 : String → String → S3Object) (bucket k text : String) (s : BuildStatus) (r : Recording)
    → truthy (some bucket) ≡ true
    → has_code b'/' bucket ≡ false
    → s3 bucket (log_key k) ≡ body text
    → fetch_log s3 (some (new_build bucket k s r)) ≡ ok text
unfolding fetch_log new_build
fetch_new s3 bucket k text s r t h b =
    let p = starts_with-append "s3://" (append bucket (append "/" (log_key k))) in
    rw (recorded-log_uri bucket k) (
      rw p (
        rw (starts_with-truthy (log_uri bucket (log_key k)) p) (
          ap (fetch_at s3) (location-log_uri bucket (log_key k) h)
          ∙ fetch_body s3 bucket (log_key k) text t b)))

-- What the worker uploads to S3 under its key, and records as the log of a build, is what the API
-- returns for that build, if the database takes the record, the bucket's name is not empty and has no
-- slash in it, and the deployment is one of the project.
pub record_build-get_build_logs :
    (s3 : String → String → S3Object) (bucket k p text : String) (s : BuildStatus) (r : Recording)
    (w : World) (ds : List Deployment) (d : Deployment)
    → truthy (some bucket) ≡ true
    → has_code b'/' bucket ≡ false
    → r.insert ≡ none
    → find_deployment p k ds ≡ some d
    → s3 bucket (log_key k) ≡ body text
    → get_build_logs s3 none none p k r.build_id ds (record_build bucket k s r w).1.builds ≡ ok text
record_build-get_build_logs s3 bucket k p text s r w ds d t h i f b =
    rw (recorded bucket k s r w t i) (
      get_build_logs-found s3 p r.build_id k ds (new_build bucket k s r ∷ w.builds) d f
      ∙ (ap (fetch_log s3) (find_new bucket k s r w.builds) ∙ fetch_new s3 bucket k text s r t h b))
