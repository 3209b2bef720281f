-- ===== src/Worker/Builder/Scripts.antt =====
-- worker/builder.py: the shell scripts of the jobs, and the ECR credentials that stand in them.
use Prim.Native.String.{◌++◌ as append}
use deploy_hub.Prelude.{String, if◌then◌else◌, Bool, Option, none, some, List, [], ◌∷◌, ◌++◌}
use deploy_hub.Action.{Result, ok, raised}
use deploy_hub.Text.{before_first, has_code, truthy, split, join}
use deploy_hub.Json.{Json, string, obj}
use deploy_hub.Worker.Builder.Server.{server_lines}

-- The keys of `overrides` that a builder reads.
pub record Overrides : Type 0 where
  pub inject_server_js : Bool
  pub bp_node_run_scripts : Option String
  pub runtime : Option String

-- What ECR answers (`get_authorization_token`, down to the token), base64.b64decode with the decoding
-- to text, and json.dumps.
pub record Registry : Type 0 where
  pub token : Result String
  pub b64decode : String → Result String
  pub dumps : Json → String

-- `parts[1]`, where the exception that a missing part raises is caught.
password_in : String → List String → String × String
password_in token (user ∷ password ∷ rest) = (token, password)
password_in token _ = ("", "")

decoded_password : String → Result String → String × String
unfolding password_in split
decoded_password token (ok s) = password_in token (split b':' s)
decoded_password token (raised e) = ("", "")

-- The token and the password in it, both empty if anything fails.
unfoldable pub get_ecr_credentials : Registry → String × String
unfolding decoded_password
get_ecr_credentials reg = elim reg.token [
  | ok t ↦ decoded_password t (reg.b64decode t)
  | raised e ↦ ("", "")
]

unfoldable pub registry_of : String → String
unfolding before_first has_code
registry_of image_uri = if has_code b'/' image_uri then before_first b'/' image_uri else ""

docker_config : Registry → String → String
docker_config reg registry = reg.dumps (
    obj (
      ("auths", obj ((registry, obj (("auth", string (get_ecr_credentials reg).0) ∷ [])) ∷ []))
      ∷ []))

unfoldable pub build_script : Registry → String → String
unfolding docker_config registry_of join
build_script reg image_uri = join "" (
    "set -e; "
    ∷ "mkdir -p ~/.config/buildkit ~/.docker; "
    ∷ "echo '"
    ∷ docker_config reg (registry_of image_uri)
    ∷ "' > ~/.docker/config.json; "
    ∷ "rootlesskit buildkitd --oci-worker-no-process-sandbox & "
    ∷ "BKPID=$!; "
    ∷ "for i in $(seq 1 30); do buildctl debug workers && break || sleep 1; done; "
    ∷ "buildctl build "
    ∷ "  --frontend dockerfile.v0 "
    ∷ "  --local context=/workspace "
    ∷ "  --local dockerfile=/workspace "
    ∷ "  --output type=image,name="
    ∷ image_uri
    ∷ ",push=true; "
    ∷ "EXIT=$?; kill $BKPID 2>/dev/null || true; exit $EXIT"
    ∷ [])

unfoldable pub clone_command : String → String → String
clone_command branch repo_url =
    append (append (append (append "git clone --depth=1 --branch " branch) " ") repo_url)
      " /workspace"

abbrev newline : String
newline = "\n"

-- Each line with a newline before it, and one behind the last.
unfoldable pub server_script : String
unfolding join
server_script = join newline ("" ∷ server_lines ++ "" ∷ [])

-- The script that clones, and writes a server into the workspace if it is asked for.
unfoldable pub setup_script : String → String → Overrides → String
unfolding clone_command
setup_script branch repo_url overrides =
    let script = append newline (append (clone_command branch repo_url) "\ncd /workspace\n") in
    if overrides.inject_server_js then append script server_script else script

-- `if overrides.get(key)`: the value of a key that is there and not empty.
abbrev given {ℓ} : {A : Type ℓ} → Option String → (String → List A) → List A
given none f = []
given (some s) f = if truthy (some s) then f s else []

unfoldable pub env_vars : Overrides → List Json
env_vars overrides =
    given overrides.bp_node_run_scripts
      (λ s. obj (("name", string "BP_NODE_RUN_SCRIPTS") ∷ ("value", string s) ∷ []) ∷ [])

unfoldable pub pack_args : String → Overrides → List String
pack_args image_uri overrides =
    ("pack" ∷ "build" ∷ image_uri ∷ "--path" ∷ "/workspace" ∷ "--builder"
      ∷ "paketobuildpacks/builder-jammy-base" ∷ "--publish" ∷ "--env"
      ∷ "NODE_OPTIONS=--max-old-space-size=2048" ∷ [])
    ++ given overrides.runtime (λ s. "--buildpack" ∷ s ∷ [])

unfoldable pub pack_script : Registry → String → Overrides → String
unfolding pack_args registry_of join
pack_script reg image_uri overrides = join "" (
    "dockerd --tls=false & "
    ∷ "while ! docker info >/dev/null 2>&1; do sleep 1; done; "
    ∷ "echo '"
    ∷ (get_ecr_credentials reg).1
    ∷ "' | docker login --username AWS --password-stdin "
    ∷ registry_of image_uri
    ∷ " && "
    ∷ "wget -qO- https://github.com/buildpacks/pack/releases/download/v0.33.2/"
    ∷ "pack-v0.33.2-linux.tgz | tar -xz -C /usr/local/bin && "
    ∷ join " " (pack_args image_uri overrides)
    ∷ [])
