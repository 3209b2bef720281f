-- ===== src/Handoff/Jobs.antt =====
-- From the request to deploy to the jobs that the worker creates for it.
use Prim.Native.String.{◌++◌ as append}
use deploy_hub.Prelude.{String}
use deploy_hub.Worker.World.{Command, create_job}
use deploy_hub.Worker.World as Worker
use deploy_hub.Worker.Builder.Choice.{IsJobFor}
use deploy_hub.Worker.Builder.Clone.{Clones}
use deploy_hub.Worker.Process as Process
use deploy_hub.Worker.Process.{Request}
use deploy_hub.Api.World.{World}

-- A job is one for this deployment, branch and repository.
abbrev pub Launches : String → String → String → Command → Type 0
Launches d b r (create_job m) = IsJobFor d m × Clones b r m
Launches d b r c = Unit
