-- ===== src/Controller/Reconcile/SchemaWait.antt =====
-- `_wait_for_schema`: the controller starts once the projects table can be read, and gives up after
-- a fixed number of attempts. `Probe` is what one attempt is answered.
use deploy_hub.Prelude.{ℕ, zero, suc, ◌+◌, ◌<◌, ◌≡◌, ◌∙◌, ap, Bool, true, false, none, arith}
use deploy_hub.Action.{exception, Outcome, Result, ok, raised}

pub record Probe : Type 0 where
  pub connect : Outcome
  pub execute : Outcome
  pub close : Outcome

-- The three statements of the `try` block, in their order; every exception is logged.
succeeds : Outcome → Outcome → Outcome → Bool
succeeds none none none = true
succeeds _ _ _ = false

unfoldable pub is_ready : Probe → Bool
unfolding succeeds
is_ready p = succeeds p.connect p.execute p.close

-- The loop, with the attempts that are left, the number of the next one and the sleeps so far.
wait_from : (ℕ → Probe) → ℕ → ℕ → ℕ → Result (Unit {0}) × ℕ
wait_from probes zero n sleeps = (raised (exception "Database schema not ready"), sleeps)
wait_from probes (suc left) n sleeps = elim (is_ready (probes n)) [
  | true ↦ (ok tt, sleeps)
  | false ↦ wait_from probes left (suc n) (suc sleeps)
]

-- The result, and how often it slept.
unfoldable pub wait_for_schema : (ℕ → Probe) → ℕ → Result (Unit {0}) × ℕ
unfolding wait_from
wait_for_schema probes max_attempts = wait_from probes max_attempts 0 0

wait_from-ready :
    (probes : ℕ → Probe) (i left n sleeps : ℕ)
    → i < left
    → ((j : ℕ) → j < i → is_ready (probes (n + j)) ≡ false)
    → is_ready (probes (n + i)) ≡ true
    → wait_from probes left n sleeps ≡ (ok tt, sleeps + i)
unfolding wait_from
wait_from-ready probes i zero n sleeps lt early found = absurd (omega arith)
wait_from-ready probes zero (suc left) n sleeps lt early found =
    rw (now, wait_from) (ap (λ m. (ok tt, m)) (omega arith))
  where
    now : is_ready (probes n) ≡ true
    now = ap (λ m. is_ready (probes m)) (omega arith) ∙ found
wait_from-ready probes (suc i) (suc left) n sleeps lt early found =
    rw (now, wait_from)
      (wait_from-ready probes i left (suc n) (suc sleeps) (omega arith) later there
        ∙ ap (λ m. (ok tt, m)) (omega arith))
  where
    now : is_ready (probes n) ≡ false
    now = ap (λ m. is_ready (probes m)) (omega arith) ∙ early 0 (omega arith)

    later : (j : ℕ) → j < i → is_ready (probes (suc n + j)) ≡ false
    later j l = ap (λ m. is_ready (probes m)) (omega arith) ∙ early (suc j) (omega arith)

    there : is_ready (probes (suc n + i)) ≡ true
    there = ap (λ m. is_ready (probes m)) (omega arith) ∙ found

wait_from-never :
    (probes : ℕ → Probe) (left n sleeps : ℕ)
    → ((j : ℕ) → j < left → is_ready (probes (n + j)) ≡ false)
    → wait_from probes left n sleeps
      ≡ (raised (exception "Database schema not ready"), sleeps + left)
unfolding wait_from
wait_from-never probes zero n sleeps early =
    ap (λ m. (raised (exception "Database schema not ready"), m)) (omega arith)
wait_from-never probes (suc left) n sleeps early =
    rw (now, wait_from)
      (wait_from-never probes left (suc n) (suc sleeps) later
        ∙ ap (λ m. (raised (exception "Database schema not ready"), m)) (omega arith))
  where
    now : is_ready (probes n) ≡ false
    now = ap (λ m. is_ready (probes m)) (omega arith) ∙ early 0 (omega arith)

    later : (j : ℕ) → j < left → is_ready (probes (suc n + j)) ≡ false
    later j l = ap (λ m. is_ready (probes m)) (omega arith) ∙ early (suc j) (omega arith)

-- The wait ends at the first attempt that succeeds, after one sleep for each that failed before it;
-- if none of the attempts succeeds it raises, after a sleep for every attempt.
pub wait_for_schema_exact :
    (probes : ℕ → Probe) (max_attempts : ℕ)
    → ((i : ℕ)
        → i < max_attempts
        → ((j : ℕ) → j < i → is_ready (probes j) ≡ false)
        → is_ready (probes i) ≡ true
        → wait_for_schema probes max_attempts ≡ (ok tt, i))
      × (((j : ℕ) → j < max_attempts → is_ready (probes j) ≡ false)
          → wait_for_schema probes max_attempts
            ≡ (raised (exception "Database schema not ready"), max_attempts))
unfolding wait_for_schema
wait_for_schema_exact probes k = (
  (λ i lt early found.
      wait_from-ready probes i k 0 0 lt
        (λ j l. ap (λ m. is_ready (probes m)) (omega arith) ∙ early j l)
        (ap (λ m. is_ready (probes m)) (omega arith) ∙ found)
      ∙ ap (λ m. (ok tt, m)) (omega arith)),
  (λ early.
      wait_from-never probes k 0 0 (λ j l. ap (λ m. is_ready (probes m)) (omega arith) ∙ early j l)
      ∙ ap (λ m. (raised (exception "Database schema not ready"), m)) (omega arith)),
)
