-- ===== src/Api/Retention/Swept.antt =====
-- What the retention policy deletes.
mod Tests
use deploy_hub.Prelude.{
  ℕ, suc, ◌-◌, String, Bool, true, false, not, Option, none, some, List, [], ◌∷◌, ◌≡◌, refl, ap,
  ◌∙◌, sym, subst, All, select, arith,
}
use deploy_hub.Action.{Outcome, Result, ok, raised, call, pure}
use deploy_hub.Action.Keeps.{Keeps-try, Keeps-call}
use deploy_hub.Schema.{Build, BuildStatus}
use deploy_hub.Worker.World.{World}
use deploy_hub.Worker.Monitor.{Recording, add_build, record_build}
use deploy_hub.Api.Retention.{
  Pool, Answers, is_expired, delete_expired, enforce_retention_policy, kept_for,
}

-- A build whose end is not recorded.
abbrev pub IsOpen : Build → Type 0
IsOpen b = b.completed_at ≡ none

-- What is left, by the result.
abbrev pub Left : ℕ → Pool → Result (Unit {0}) × Pool → Type 0
Left now w (ok _, v) = v.committed ≡ select (λ b. not (is_expired now b)) w.committed
Left now w (raised x, v) = v.committed ≡ w.committed

not_expired : (now : ℕ) (b : Build) → IsOpen b → is_expired now b ≡ false
not_expired now b h = rw h refl

open_kept :
    (now : ℕ) (bs : List Build) → All IsOpen bs → select (λ b. not (is_expired now b)) bs ≡ bs
open_kept now [] h = refl
open_kept now (b ∷ bs) h = rw (not_expired now b h.0) (ap (λ cs. b ∷ cs) (open_kept now bs h.1))

abbrev answering : Outcome → Outcome → Outcome → Outcome → Answers
answering c e m r = record { connect = c; execute = e; commit = m; rollback = r }

sweep :
    (now : ℕ) (c e m r : Outcome) (w : Pool)
    → w.working ≡ w.committed
    → Left now w (enforce_retention_policy now (answering c e m r) w)
      × ((enforce_retention_policy now (answering c e m r) w).1.in_use ≡ w.in_use)
unfolding enforce_retention_policy delete_expired
sweep now (some x) e m r w fresh = (refl, refl)
sweep now none none none r w fresh = (ap (select (λ b. not (is_expired now b))) fresh, omega arith)
sweep now none none (some x) none w fresh = (refl, omega arith)
sweep now none none (some x) (some y) w fresh = (refl, omega arith)
sweep now none (some x) m none w fresh = (refl, omega arith)
sweep now none (some x) m (some y) w fresh = (refl, omega arith)

record_build-IsOpen :
    (bucket k : String) (s : BuildStatus) (r : Recording) (w : World)
    → All IsOpen w.builds
    → All IsOpen (record_build bucket k s r w).1.builds
unfolding record_build
record_build-IsOpen String.[] k s r w h = h
record_build-IsOpen (String.◌∷◌ c bucket) k s r w h =
    Keeps-try (λ (v : World). All IsOpen v.builds) (call r.insert (add_build _) w) (λ _. pure tt)
      (Keeps-call (λ (v : World). All IsOpen v.builds) r.insert (add_build _) w h (refl, h))
      (λ _ _ g. g)

-- The builds that runs of the worker's `record_build` have recorded, from none.
pub data Recorded : List Build → Type 0 where
  no_build : Recorded []
  and_then :
      {bs cs : List Build} (bucket k : String) (s : BuildStatus) (r : Recording) (w : World)
      → Recorded bs
      → w.builds ≡ bs
      → (record_build bucket k s r w).1.builds ≡ cs
      → Recorded cs

Recorded-IsOpen : {bs : List Build} → Recorded bs → All IsOpen bs
Recorded-IsOpen no_build = tt
Recorded-IsOpen (and_then bucket k s r w before e f) =
    subst (All IsOpen) f
      (record_build-IsOpen bucket k s r w (subst (All IsOpen) (sym e) (Recorded-IsOpen before)))

unswept :
    (now : ℕ) (w : Pool) (p : Result (Unit {0}) × Pool)
    → All IsOpen w.committed
    → Left now w p
    → p.1.committed ≡ w.committed
unswept now w (ok _, v) h e = e ∙ open_kept now w.committed h
unswept now w (raised x, v) h e = e

-- The policy gives its connection back, whatever fails. If it returns, the builds that are left are
-- those whose recorded end is no more than 30 days ago, for a failed build, or 90, for a successful
-- one, and those with no recorded end; if it raises, all are left. And of the builds that the worker's
-- `record_build` has recorded it never deletes any, since those have no recorded end.
pub enforce_retention_policy-Left :
    (now : ℕ) (a : Answers) (w : Pool)
    → w.working ≡ w.committed
    → Left now w (enforce_retention_policy now a w)
      × ((enforce_retention_policy now a w).1.in_use ≡ w.in_use)
      × (Recorded w.committed → (enforce_retention_policy now a w).1.committed ≡ w.committed)
enforce_retention_policy-Left now a w fresh =
    let (left, given) = sweep now a.connect a.execute a.commit a.rollback w fresh in
    (left, given, λ r. unswept now w (enforce_retention_policy now a w) (Recorded-IsOpen r) left)
