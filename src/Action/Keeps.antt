-- ===== src/Action/Keeps.antt =====
-- Rules for a property of the state that an action keeps, and for a property of the state in which it
-- returns.
use deploy_hub.Prelude.{◌≡◌, Option}
use deploy_hub.Action.{Exn, Result, ok, raised, Action, Outcome, resume, handle, conclude, call}

module _ {S A B : Type 0} (P : S → Type 0) where
  pub Keeps-bind :
      (p : Result A × S) (f : A → Action S B)
      → P p.1
      → ((a : A) (v : S) → P v → P (f a v).1)
      → P (resume p.0 f p.1).1
  Keeps-bind (ok a, v) f h k = k a v h
  Keeps-bind (raised x, v) f h k = h

module _ {S A : Type 0} (P : S → Type 0) where
  pub Keeps-try :
      (p : Result A × S) (h : Exn → Action S A)
      → P p.1
      → ((x : Exn) (v : S) → P v → P (h x v).1)
      → P (handle p.0 h p.1).1
  Keeps-try (ok a, v) h k c = k
  Keeps-try (raised x, v) h k c = c x v k

  pub Keeps-finally : (r : Result A) (t : Result (Unit {0}) × S) → P t.1 → P (conclude r t).1
  Keeps-finally r (ok _, v) h = h
  Keeps-finally r (raised x, v) h = h

module _ {S : Type 0} (P : S → Type 0) where
  pub Keeps-call : (o : Outcome) (f : S → S) (w : S) → P w → P (f w) → P (call o f w).1
  Keeps-call Option.none f w h k = k
  Keeps-call (Option.some e) f w h k = h

-- If the action returns, `Q` holds of the state.
abbrev pub Returns : {S A : Type 0} → (S → Type 0) → Result A × S → Type 0
Returns Q (ok a, v) = Q v
Returns Q (raised x, v) = Unit

module _ {S A B : Type 0} (Q : S → Type 0) where
  pub Returns-bind :
      (p : Result A × S) (f : A → Action S B)
      → ((a : A) (v : S) → Returns Q (f a v))
      → Returns Q (resume p.0 f p.1)
  Returns-bind (ok a, v) f k = k a v
  Returns-bind (raised x, v) f k = tt

module _ {S A : Type 0} (Q : S → Type 0) where
  pub Returns-try :
      (p : Result A × S) (h : Exn → Action S A)
      → Returns Q p
      → ((x : Exn) (v : S) → Returns Q (h x v))
      → Returns Q (handle p.0 h p.1)
  Returns-try (ok a, v) h k c = k
  Returns-try (raised x, v) h k c = c x v

  -- From `Returns` to an implication on the result.
  pub Returns-elim : (p : Result A × S) (a : A) → Returns Q p → p.0 ≡ ok a → Q p.1
  Returns-elim (ok a, v) b h e = h
  Returns-elim (raised x, v) b h e = cc
