-- ===== src/Api/Retention/Swept/Tests.antt =====
-- Three builds: of a day ago, of a year ago, and one whose end is not recorded.
use deploy_hub.Prelude.{ℕ, ◌≡◌, refl, Option, none, some, List, [], ◌∷◌}
use deploy_hub.Schema.{Build, success}
use deploy_hub.Api.Retention.{Pool, Answers, days, enforce_retention_policy}
use deploy_hub.Api.Retention.Swept.{Left, Recorded, enforce_retention_policy-Left}

abbrev build : Option ℕ → Build
build t = record {
  build_id = "b";
  deployment_id = "d1";
  s3_log_uri = "s3://logs/d1";
  status = success;
  completed_at = t;
}

abbrev builds : List Build
builds = build (some (days 399)) ∷ build (some (days 35)) ∷ build none ∷ []

abbrev pool : Pool
pool = record { committed = builds; working = builds; in_use = 2 }

abbrev calm : Answers
calm = record { connect = none; execute = none; commit = none; rollback = none }

deletes_old :
    (enforce_retention_policy (days 400) calm pool).1.committed
    ≡ build (some (days 399)) ∷ build none ∷ []
unfolding enforce_retention_policy
deletes_old = refl

enforce_retention_policy-Left_example :
    Left (days 400) pool (enforce_retention_policy (days 400) calm pool)
    × ((enforce_retention_policy (days 400) calm pool).1.in_use ≡ 2)
    × (Recorded builds → (enforce_retention_policy (days 400) calm pool).1.committed ≡ builds)
enforce_retention_policy-Left_example = enforce_retention_policy-Left (days 400) calm pool refl
