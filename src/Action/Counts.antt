-- ===== src/Action/Counts.antt =====
-- Rules to count what an action adds to a measure of the state, whatever it answers on the way.
use deploy_hub.Prelude.{ℕ, ◌+◌, ◌≡◌, ◌∙◌, refl, Option, arith}
use deploy_hub.Action.{
  Exn, Result, ok, raised, Action, Outcome, resume, handle, conclude, call, modify,
}

-- The action returned and added `n`, or it raised and added nothing.
abbrev pub Counts : {S A : Type 0} → (S → ℕ) → ℕ → S → Result A × S → Type 0
Counts μ n w (ok a, v) = μ v ≡ n + μ w
Counts μ n w (raised x, v) = μ v ≡ μ w

module _ {S A : Type 0} (μ : S → ℕ) where
  -- An exception or a value that changes nothing adds nothing.
  pub Counts-same : (w : S) (p : Result A × S) → μ p.1 ≡ μ w → Counts μ 0 w p
  Counts-same w (ok a, v) h = omega arith
  Counts-same w (raised x, v) h = h

  pub Counts-from :
      (n : ℕ) (w v : S) (p : Result A × S) → μ v ≡ μ w → Counts μ n v p → Counts μ n w p
  Counts-from n w v (ok a, u) e h = omega arith
  Counts-from n w v (raised x, u) e h = omega arith

module _ {S A B : Type 0} (μ : S → ℕ) (n : ℕ) (w : S) where
  -- The first part adds nothing, and the rest adds `n`.
  pub Counts-bind :
      (p : Result A × S) (f : A → Action S B)
      → Counts μ 0 w p
      → ((a : A) (v : S) → Counts μ n v (f a v))
      → Counts μ n w (resume p.0 f p.1)
  Counts-bind (ok a, v) f h k = Counts-from μ n w v (f a v) (omega arith) (k a v)
  Counts-bind (raised x, v) f h k = h

module _ {S A : Type 0} (μ : S → ℕ) (n : ℕ) (w : S) where
  -- Both the statement and its handler add `n`.
  pub Counts-try :
      (p : Result A × S) (h : Exn → Action S A)
      → Counts μ n w p
      → ((x : Exn) (v : S) → Counts μ n v (h x v))
      → Counts μ n w (handle p.0 h p.1)
  Counts-try (ok a, v) h k c = k
  Counts-try (raised x, v) h k c = Counts-from μ n w v (h x v) k (c x v)

  -- A last write, which cannot raise and adds nothing.
  pub Counts-finally :
      (p : Result A × S) (f : S → S)
      → ((v : S) → μ (f v) ≡ μ v)
      → Counts μ n w p
      → Counts μ n w (conclude p.0 (modify f p.1))
  Counts-finally (ok a, v) f e h = e v ∙ h
  Counts-finally (raised x, v) f e h = e v ∙ h

module _ {S : Type 0} (μ : S → ℕ) (n : ℕ) (w : S) where
  pub Counts-call : (o : Outcome) (f : S → S) → μ (f w) ≡ n + μ w → Counts μ n w (call o f w)
  Counts-call Option.none f h = h
  Counts-call (Option.some e) f h = refl

  pub Counts-then_modify :
      (p : Result (Unit {0}) × S) (f : S → S)
      → ((v : S) → μ (f v) ≡ μ v)
      → Counts μ n w p
      → Counts μ n w (resume p.0 (λ _. modify f) p.1)
  Counts-then_modify (ok a, v) f e h = e v ∙ h
  Counts-then_modify (raised x, v) f e h = h
