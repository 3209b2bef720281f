-- ===== src/Action.antt =====
-- Statements of the Python code that read and write a state and may raise. What was written before
-- a raise stays written, so the state comes back beside the exception too.
pub mod Counts
pub mod Keeps
use deploy_hub.Prelude.{ℕ, String, Option, none, some}

-- The exceptions that the `except` clauses of the code tell apart. Each carries its text.
pub data Exn : Type 0 where
  operational_error : String → Exn  -- psycopg2.OperationalError
  unique_violation : String → Exn  -- psycopg2.errors.UniqueViolation
  database_error : String → Exn  -- any other psycopg2.Error
  api_exception : ℕ → String → Exn  -- kubernetes ApiException, with its HTTP status
  name_error : String → Exn  -- a name that is bound nowhere
  http_exception : ℕ → String → Exn  -- fastapi.HTTPException, with its status code
  exception : String → Exn  -- all else

-- `str(e)`.
abbrev pub text_of : Exn → String
text_of (operational_error s) = s
text_of (unique_violation s) = s
text_of (database_error s) = s
text_of (api_exception n s) = s
text_of (name_error s) = s
text_of (http_exception n s) = s
text_of (exception s) = s

pub data Result {ℓ} (A : Type ℓ) : Type ℓ where
  ok : A → Result A
  raised : Exn → Result A

-- What an external call answers: nothing, or the exception that it raises.
abbrev pub Outcome : Type 0
Outcome = Option Exn

abbrev pub Action {ℓ} : Type ℓ → Type ℓ → Type ℓ
Action S A = S → Result A × S

module _ {ℓ} {S A : Type ℓ} where
  abbrev pub pure : A → Action S A
  pure a s = (ok a, s)

  abbrev pub raise : Exn → Action S A
  raise e s = (raised e, s)

module _ {ℓ} {S A B : Type ℓ} where
  abbrev pub resume : Result A → (A → Action S B) → Action S B
  resume (ok a) f s = f a s
  resume (raised e) f s = (raised e, s)

  infixl 10 ◌>>=◌ ◌>>◌
  abbrev pub ◌>>=◌ : Action S A → (A → Action S B) → Action S B
  ◌>>=◌ m f s = let (r, t) = m s in resume r f t

  abbrev pub ◌>>◌ : Action S A → Action S B → Action S B
  m >> n = m >>= λ _. n

module _ {ℓ} {S A : Type ℓ} where
  abbrev pub handle : Result A → (Exn → Action S A) → Action S A
  handle (ok a) h s = (ok a, s)
  handle (raised e) h s = h e s

  -- `try: m except ... as e: h(e)`.
  abbrev pub try_catch : Action S A → (Exn → Action S A) → Action S A
  try_catch m h s = let (r, t) = m s in handle r h t

  abbrev pub conclude : Result A → Result (Unit {ℓ}) × S → Result A × S
  conclude r (ok _, t) = (r, t)
  conclude r (raised e, t) = (raised e, t)

  -- `try: m finally: last`. An exception of `last` replaces the result.
  abbrev pub finally : Action S A → Action S (Unit {ℓ}) → Action S A
  finally m last s = let (r, t) = m s in conclude r (last t)

module _ {S : Type 0} where
  -- A write that cannot raise.
  abbrev pub modify : (S → S) → Action S Unit
  modify f s = (ok tt, f s)

  -- An external call: it raises what the outside answers, and otherwise has its effect.
  abbrev pub call : Outcome → (S → S) → Action S Unit
  call none f s = (ok tt, f s)
  call (some e) f s = (raised e, s)

  -- `try: m except Exception: pass`.
  abbrev pub attempt : Action S Unit → Action S Unit
  attempt m = try_catch m (λ _. pure tt)
