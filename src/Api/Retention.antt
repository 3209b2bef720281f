-- ===== src/Api/Retention.antt =====
-- `enforce_retention_policy` of api/database.py, on a connection of the pool.
pub mod Swept
use deploy_hub.Prelude.{
  ℕ, suc, ◌+◌, ◌-◌, ◌*◌, ltb, Bool, false, not, Option, none, some, List, select,
}
use deploy_hub.Action.{Outcome, Action, raise, ◌>>◌, try_catch, finally, modify, call}
use deploy_hub.Schema.{Build, BuildStatus, success, failed}

-- What others see of the builds, what the open transaction sees, and how many connections of the pool
-- are in use.
pub record Pool : Type 0 where
  pub committed : List Build
  pub working : List Build
  pub in_use : ℕ

pub record Answers : Type 0 where
  pub connect : Outcome
  pub execute : Outcome
  pub commit : Outcome
  pub rollback : Outcome

abbrev pub days : ℕ → ℕ
days n = n * 86400

-- How long a build of this status is kept, in seconds.
abbrev pub kept_for : BuildStatus → ℕ
kept_for failed = days 30
kept_for success = days 90

-- `completed_at < NOW() - INTERVAL ...`, which does not hold of a NULL.
abbrev pub is_expired : ℕ → Build → Bool
is_expired now b = elim b.completed_at [ none ↦ false | some t ↦ ltb (t + kept_for b.status) now ]

unfoldable pub delete_expired : ℕ → Pool → Pool
delete_expired now w = record w { working = select (λ b. not (is_expired now b)) w.working }

abbrev pub borrow : Pool → Pool
borrow w = record w { in_use = suc w.in_use }

-- `PooledConnectionWrapper.close`.
abbrev pub give_back : Pool → Pool
give_back w = record w { in_use = w.in_use - 1 }

unfoldable pub enforce_retention_policy : ℕ → Answers → Action Pool Unit
unfolding delete_expired
enforce_retention_policy now a =
    call a.connect borrow
    >> finally
        (try_catch
          (call a.execute (delete_expired now)
            >> call a.commit (λ w. record w { committed = w.working }))
          (λ e. call a.rollback (λ w. record w { working = w.committed }) >> raise e))
        (modify give_back)
