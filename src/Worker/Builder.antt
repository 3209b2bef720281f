-- ===== src/Worker/Builder.antt =====
-- worker/builder.py: the builders, in the order in which they are tried, and the Kubernetes job of each.
-- The answers of ECR, base64 and json.dumps are arguments.
mod Server
mod Scripts
mod Parts
pub mod Choice
pub mod Clone
pub mod Samples
mod Tests
pub use Scripts.{Overrides, Registry}
unfoldable pub use Scripts.{get_ecr_credentials, clone_command, server_script, setup_script}
unfoldable pub use Parts.{job_name}
use deploy_hub.Prelude.{String, Bool, true, ◌||◌, Option, List, [], ◌∷◌, contains, find}
use deploy_hub.Json.{Json, integer, string, arr, obj}
use Parts.{
  metadata, tolerations, volumes, clone_container, buildkit_container, setup_container,
  pack_container,
}

pub data Builder : Type 0 where
  dockerfile_builder railpack_builder buildpack_builder : Builder

-- `detect`, over the names that stand in the root of the workspace.
unfoldable pub detect : Builder → List String → Bool
detect dockerfile_builder files = contains "Dockerfile" files
detect railpack_builder files = contains "Cargo.toml" files || contains "bun.lockb" files
detect buildpack_builder files = true

-- The loop of `process_message` over the builders.
unfoldable pub select_builder : List String → Option Builder
unfolding detect
select_builder files =
    find (λ b. detect b files) (dockerfile_builder ∷ railpack_builder ∷ buildpack_builder ∷ [])

unfoldable pub dockerfile_manifest : Registry → String → String → String → String → Json
unfolding clone_container buildkit_container metadata tolerations volumes
dockerfile_manifest reg deployment_id repo_url branch image_uri = obj (
    ("apiVersion", string "batch/v1")
    ∷ ("kind", string "Job")
    ∷ ("metadata", metadata deployment_id "dockerfile")
    ∷ (
      "spec",
      obj (
          ("backoffLimit", integer 0)
          ∷ ("activeDeadlineSeconds", integer 1800)
          ∷ (
            "template",
            obj (
                (
                  "metadata",
                  obj (
                      (
                        "annotations",
                        obj (
                            (
                              "container.apparmor.security.beta.kubernetes.io/buildkit",
                              string "unconfined",
                            )
                            ∷ []),
                      )
                      ∷ []),
                )
                ∷ (
                  "spec",
                  obj (
                      ("restartPolicy", string "Never")
                      ∷ ("tolerations", tolerations)
                      ∷ ("initContainers", arr (clone_container branch repo_url ∷ []))
                      ∷ ("containers", arr (buildkit_container reg image_uri ∷ []))
                      ∷ ("volumes", volumes)
                      ∷ []),
                )
                ∷ []),
          )
          ∷ []),
    )
    ∷ [])

unfoldable pub buildpack_manifest : Registry → String → String → String → String → Overrides → Json
unfolding setup_container pack_container metadata tolerations volumes
buildpack_manifest reg deployment_id repo_url branch image_uri overrides = obj (
    ("apiVersion", string "batch/v1")
    ∷ ("kind", string "Job")
    ∷ ("metadata", metadata deployment_id "buildpack")
    ∷ (
      "spec",
      obj (
          ("backoffLimit", integer 0)
          ∷ ("activeDeadlineSeconds", integer 1800)
          ∷ (
            "template",
            obj (
                (
                  "spec",
                  obj (
                      ("restartPolicy", string "Never")
                      ∷ ("tolerations", tolerations)
                      ∷ ("initContainers", arr (setup_container branch repo_url overrides ∷ []))
                      ∷ ("containers", arr (pack_container reg image_uri overrides ∷ []))
                      ∷ ("volumes", volumes)
                      ∷ []),
                )
                ∷ []),
          )
          ∷ []),
    )
    ∷ [])

unfoldable pub generate_job_manifest :
    Builder → Registry → String → String → String → String → Overrides → Json
unfolding dockerfile_manifest buildpack_manifest
generate_job_manifest dockerfile_builder reg d r b i o = dockerfile_manifest reg d r b i
generate_job_manifest railpack_builder reg d r b i o = buildpack_manifest reg d r b i o
generate_job_manifest buildpack_builder reg d r b i o = buildpack_manifest reg d r b i o
