-- ===== src/Worker/Builder/Choice.antt =====
-- Which builder is chosen, and what all jobs have in common.
use deploy_hub.Prelude.{
  String, ◌==◌, ◌≡◌, ◌≢◌, ◌↔◌, ◌⊎◌, ◌&&◌, ◌||◌, Bool, true, false, Option, none, some, List, [],
  ◌∷◌, refl, arith, contains,
}
use deploy_hub.Json.{
  Json, string, integer, array, obj, arr, Items, no_item, item, Key, index, at, string_in, list_in,
}
use deploy_hub.Json as Json
use deploy_hub.Worker.Builder.{
  Builder, dockerfile_builder, railpack_builder, buildpack_builder, select_builder, Overrides,
  Registry, generate_job_manifest, job_name,
}

-- A builder is always found (`No suitable builder found` is never raised): the Dockerfile builder
-- exactly for a workspace with a Dockerfile; Railpack exactly without one and with a Cargo.toml or a
-- bun.lockb; buildpacks exactly where none of the three files stands.
select_builder_exact :
    (files : List String)
    → (select_builder files ≢ none)
      × ((select_builder files ≡ some dockerfile_builder) ↔ (contains "Dockerfile" files ≡ true))
      × ((select_builder files ≡ some railpack_builder) ↔ (
          (contains "Dockerfile" files ≡ false)
          × ((contains "Cargo.toml" files ≡ true) ⊎ (contains "bun.lockb" files ≡ true))))
      × ((select_builder files ≡ some buildpack_builder) ↔ (
          (contains "Dockerfile" files ≡ false)
          × (contains "Cargo.toml" files ≡ false)
          × (contains "bun.lockb" files ≡ false)))
unfolding select_builder
select_builder_exact files = (ground arith, ground arith, ground arith, ground arith)

-- The path to the job's pod.
abbrev pub pod : List Key → List Key
pod ks = Json.name "spec" ∷ Json.name "template" ∷ Json.name "spec" ∷ ks

same_name : String → Option String → Bool
same_name s none = false
same_name s (some t) = s == t

has_volume : String → Items → Bool
unfolding same_name at string_in
has_volume s no_item = false
has_volume s (item v vs) = same_name s (string_in (at (Json.name "name" ∷ []) v)) || has_volume s vs

names_volume : Items → Option String → Bool
names_volume vs none = false
names_volume vs (some s) = has_volume s vs

mounts_declared : Items → Items → Bool
unfolding names_volume has_volume at string_in
mounts_declared vs no_item = true
mounts_declared vs (item m ms) =
    names_volume vs (string_in (at (Json.name "name" ∷ []) m)) && mounts_declared vs ms

all_mounts : Items → Items → Bool
unfolding mounts_declared at list_in
all_mounts vs no_item = true
all_mounts vs (item c cs) =
    mounts_declared vs (list_in (at (Json.name "volumeMounts" ∷ []) c)) && all_mounts vs cs

-- Every mount of every container is of a volume that the pod declares.
pub is_mounted : Json → Bool
unfolding all_mounts
is_mounted m =
    let vs = list_in (at (pod (Json.name "volumes" ∷ [])) m) in
    all_mounts vs (list_in (at (pod (Json.name "initContainers" ∷ [])) m))
    && all_mounts vs (list_in (at (pod (Json.name "containers" ∷ [])) m))

-- A job for this deployment.
pub record IsJobFor (d : String) (m : Json) : Type 0 where
  pub name : string_in (at (Json.name "metadata" ∷ Json.name "name" ∷ []) m) ≡ some (job_name d)
  pub namespace :
      string_in (at (Json.name "metadata" ∷ Json.name "namespace" ∷ []) m) ≡ some "shipzen-build"
  pub deployment :
      string_in (
        at
          (Json.name "metadata"
            ∷ Json.name "labels"
            ∷ Json.name "shipzen.jeneeldumasia.codes/deployment"
            ∷ [])
          m)
      ≡ some d
  pub once : at (Json.name "spec" ∷ Json.name "backoffLimit" ∷ []) m ≡ some (integer 0)
  pub deadline :
      at (Json.name "spec" ∷ Json.name "activeDeadlineSeconds" ∷ []) m ≡ some (integer 1800)
  pub never_restarted : string_in (at (pod (Json.name "restartPolicy" ∷ [])) m) ≡ some "Never"
  pub mounted : is_mounted m ≡ true

-- Whatever the builder, the job is named after the first eight characters of the deployment's id and
-- labelled with the whole, runs in the build namespace, is tried once, for at most 30 minutes, with
-- no restart of a container, and mounts only volumes that it declares.
pub generate-IsJobFor :
    (kind : Builder) (reg : Registry) (d r b i : String) (o : Overrides)
    → IsJobFor d (generate_job_manifest kind reg d r b i o)
unfolding generate_job_manifest obj arr at string_in list_in is_mounted
generate-IsJobFor dockerfile_builder reg d r b i o = record {
  name = refl;
  namespace = refl;
  deployment = refl;
  once = refl;
  deadline = refl;
  never_restarted = refl;
  mounted = refl;
}
generate-IsJobFor railpack_builder reg d r b i o = record {
  name = refl;
  namespace = refl;
  deployment = refl;
  once = refl;
  deadline = refl;
  never_restarted = refl;
  mounted = refl;
}
generate-IsJobFor buildpack_builder reg d r b i o = record {
  name = refl;
  namespace = refl;
  deployment = refl;
  once = refl;
  deadline = refl;
  never_restarted = refl;
  mounted = refl;
}
