-- ===== src/Api/Env/Put.antt =====
-- Setting a variable.
use deploy_hub.Dict.{Dict}
use deploy_hub.Api.World.{World}
