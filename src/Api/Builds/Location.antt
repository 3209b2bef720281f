-- ===== src/Api/Builds/Location.antt =====
-- Requests that find their build; the URI that the worker records is taken apart into the bucket and the key that it was made of.
use Prim.Native.String.{◌++◌ as append}
use text.Mathlib.TextLemmas.{nil-append, cons-append, append_assoc}
use deploy_hub.Prelude.{String, false, none, Option, none, some, List, ◌∷◌, ◌≡◌, refl, sym, ap, ◌∙◌}
use deploy_hub.Text.{has_code, split}
use deploy_hub.Text.Split.{append-one}
use deploy_hub.Text.Join.{split-append, join-split}
use deploy_hub.Action.{Outcome, Result, ok, raised}
use deploy_hub.Schema.{Deployment, Build}
use deploy_hub.Api.Builds.{
  S3Object, find_deployment, find_build, fetch_log, read_log, found, get_deployment_or_404,
  get_build_logs, parts, location,
}

abbrev pub log_uri : String → String → String
log_uri bucket key = append "s3://" (append bucket (append "/" key))

scheme :
    (s : String)
    → append "s3://" s ≡ append "s3:" (String.◌∷◌ "/" (append String.[] (String.◌∷◌ "/" s)))
scheme s =
    append_assoc "s3:" "//" s
    ∙ ap (append "s3:") (
        cons-append "/" "/" s
        ∙ ap (String.◌∷◌ "/") (
            cons-append "/" String.[] s
            ∙ (ap (String.◌∷◌ "/") (nil-append s) ∙ sym (nil-append (String.◌∷◌ "/" s)))))

split_slash :
    (s t : String)
    → has_code b'/' s ≡ false
    → split b'/' (append s (String.◌∷◌ "/" t)) ≡ s ∷ split b'/' t
split_slash = split-append b'/' "/" refl

split-log_uri :
    (bucket key : String)
    → has_code b'/' bucket ≡ false
    → split b'/' (log_uri bucket key) ≡ "s3:" ∷ String.[] ∷ bucket ∷ split b'/' key
unfolding has_code
split-log_uri bucket key h =
    ap (split b'/') (scheme (append bucket (append "/" key)))
    ∙ (split_slash "s3:" (append String.[] (String.◌∷◌ "/" (append bucket (append "/" key)))) refl
        ∙ ap (◌∷◌ "s3:") (
            split_slash String.[] (append bucket (append "/" key)) refl
            ∙ ap (◌∷◌ String.[])
                (ap (split b'/') (append-one "/" bucket key) ∙ split_slash bucket key h)))

-- The parts of a URI whose bucket has no slash.
pub location-log_uri :
    (bucket key : String)
    → has_code b'/' bucket ≡ false
    → location (log_uri bucket key) ≡ some (bucket, key)
unfolding location
location-log_uri bucket key h =
    ap parts (split-log_uri bucket key h)
    ∙ ap (λ (k : String). some (bucket, k)) (join-split b'/' "/" refl key)

-- A request that finds its deployment answers with the log of the build that it finds.
pub get_build_logs-found :
    (s3 : String → String → S3Object) (p b k : String) (ds : List Deployment) (bs : List Build)
    (d : Deployment)
    → find_deployment p k ds ≡ some d
    → get_build_logs s3 none none p k b ds bs ≡ fetch_log s3 (find_build b k bs)
unfolding get_build_logs get_deployment_or_404 found read_log
get_build_logs-found s3 p b k ds bs d f = ap (λ o. read_log s3 none b k bs (found k o)) f

deployment_in : Result Deployment → Option Deployment
deployment_in (ok d) = some d
deployment_in (raised e) = none

found_in : (k : String) (o : Option Deployment) → deployment_in (found k o) ≡ o
unfolding found deployment_in
found_in k none = refl
found_in k (some d) = refl

-- A deployment that is returned is one of the project.
pub get_deployment_or_404-found :
    (o : Outcome) (p k : String) (ds : List Deployment) (d : Deployment)
    → get_deployment_or_404 o p k ds ≡ ok d
    → find_deployment p k ds ≡ some d
unfolding get_deployment_or_404 deployment_in
get_deployment_or_404-found none p k ds d h =
    sym (found_in k (find_deployment p k ds)) ∙ ap deployment_in h
get_deployment_or_404-found (some e) p k ds d h = let bad = ap deployment_in h in cc
