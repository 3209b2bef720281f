-- ===== src/Worker/Builder/Parts.antt =====
-- worker/builder.py: the parts of the jobs' manifests.
use Prim.Native.String.{◌++◌ as append}
use deploy_hub.Prelude.{String, true, false, List, [], ◌∷◌}
use deploy_hub.Text.{take_text}
use deploy_hub.Json.{Json, boolean, integer, string, arr, obj}
use deploy_hub.Worker.Builder.Scripts.{
  Overrides, Registry, clone_command, setup_script, build_script, pack_script, env_vars,
}

-- f"build-{deployment_id[:8]}".
unfoldable pub job_name : String → String
unfolding take_text
job_name deployment_id = append "build-" (take_text 8 deployment_id)

abbrev pub strings : List String → List Json
strings [] = []
strings (s ∷ ss) = string s ∷ strings ss

unfoldable pub metadata : String → String → Json
unfolding job_name
metadata deployment_id tier = obj (
    ("name", string (job_name deployment_id))
    ∷ ("namespace", string "shipzen-build")
    ∷ (
      "labels",
      obj (
          ("shipzen.jeneeldumasia.codes/deployment", string deployment_id)
          ∷ ("shipzen.jeneeldumasia.codes/tier", string tier)
          ∷ []),
    )
    ∷ [])

unfoldable pub tolerations : Json
tolerations = arr (
    obj (
      ("key", string "shipzen.jeneeldumasia.codes/dedicated")
      ∷ ("operator", string "Equal")
      ∷ ("value", string "builder")
      ∷ ("effect", string "NoSchedule")
      ∷ [])
    ∷ [])

unfoldable pub volume_mounts : Json
volume_mounts =
    arr (obj (("name", string "workspace") ∷ ("mountPath", string "/workspace") ∷ []) ∷ [])

unfoldable pub volumes : Json
volumes = arr (obj (("name", string "workspace") ∷ ("emptyDir", obj []) ∷ []) ∷ [])

-- The security context of the container that clones.
unfoldable pub unprivileged : Json
unprivileged = obj (
    ("runAsUser", integer 1000)
    ∷ ("runAsGroup", integer 1000)
    ∷ ("allowPrivilegeEscalation", boolean false)
    ∷ ("seccompProfile", obj (("type", string "RuntimeDefault") ∷ []))
    ∷ [])

unfoldable pub clone_container : String → String → Json
unfolding clone_command volume_mounts unprivileged
clone_container branch repo_url = obj (
    ("name", string "git-clone")
    ∷ ("image", string "alpine/git:2.43.0")
    ∷ ("command", arr (strings ("sh" ∷ "-c" ∷ [])))
    ∷ ("args", arr (strings (clone_command branch repo_url ∷ [])))
    ∷ ("volumeMounts", volume_mounts)
    ∷ ("securityContext", unprivileged)
    ∷ [])

unfoldable pub buildkit_container : Registry → String → Json
unfolding build_script volume_mounts
buildkit_container reg image_uri = obj (
    ("name", string "buildkit")
    ∷ ("image", string "moby/buildkit:master-rootless")
    ∷ ("command", arr (strings ("sh" ∷ "-c" ∷ build_script reg image_uri ∷ [])))
    ∷ (
      "securityContext",
      obj (
          ("runAsUser", integer 1000)
          ∷ ("runAsGroup", integer 1000)
          ∷ ("seccompProfile", obj (("type", string "Unconfined") ∷ []))
          ∷ []),
    )
    ∷ ("volumeMounts", volume_mounts)
    ∷ [])

unfoldable pub setup_container : String → String → Overrides → Json
unfolding setup_script volume_mounts unprivileged
setup_container branch repo_url overrides = obj (
    ("name", string "setup")
    ∷ ("image", string "alpine/git:2.43.0")
    ∷ ("command", arr (strings ("sh" ∷ "-c" ∷ setup_script branch repo_url overrides ∷ [])))
    ∷ ("volumeMounts", volume_mounts)
    ∷ ("securityContext", unprivileged)
    ∷ [])

unfoldable pub pack_container : Registry → String → Overrides → Json
unfolding pack_script env_vars volume_mounts
pack_container reg image_uri overrides = obj (
    ("name", string "pack")
    ∷ ("image", string "docker:24-dind")
    ∷ ("securityContext", obj (("privileged", boolean true) ∷ []))
    ∷ ("env", arr (env_vars overrides))
    ∷ ("volumeMounts", volume_mounts)
    ∷ ("command", arr (strings ("sh" ∷ "-c" ∷ [])))
    ∷ ("args", arr (strings (pack_script reg image_uri overrides ∷ [])))
    ∷ [])
