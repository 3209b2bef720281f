-- ===== src/Worker/Loop.antt =====
-- `main` of worker/main.py: the messages that were claimed from dead consumers, then the new ones,
-- turn after turn. `Turn` holds what the outside answers in a turn.
pub mod Settled
mod Tests
use deploy_hub.Prelude.{ℕ, zero, suc, String, Option, none, some, List, [], ◌∷◌, ◌++◌}
use deploy_hub.Action.{Exn, Action, Result, ok, raised, pure, raise, ◌>>◌, modify, attempt}
use deploy_hub.Worker.World.{World, Message, issue, inc, retries}
use deploy_hub.Worker.Queue.{Entry, Page, recover_pending_messages}
use deploy_hub.Worker.Process.{Answers, process_message}

pub record Turn : Type 0 where
  pub claim : ℕ → String → Page
  pub get_messages : Result (List (String × List Entry))  -- of each stream
  pub handling : String → Answers  -- of the message with an id

-- The loop over the messages of a stream.
unfoldable pub process_all : (String → Answers) → List Entry → Action World Unit
process_all handling [] = pure tt
process_all handling ((k, m) ∷ es) = process_message k m (handling k) >> process_all handling es

-- The loop over the messages that were claimed.
unfoldable pub process_claimed : (String → Answers) → List Entry → Action World Unit
process_claimed handling [] = pure tt
process_claimed handling ((k, m) ∷ es) =
    modify (issue (inc retries)) >> process_message k m (handling k) >> process_claimed handling es

unfoldable pub process_streams : (String → Answers) → List (String × List Entry) → Action World Unit
process_streams handling [] = pure tt
process_streams handling ((s, es) ∷ streams) =
    process_all handling es >> process_streams handling streams

-- The loops over an answer, which may be an exception instead.
abbrev pub with_answer : {A : Type 0} → (A → Action World Unit) → Result A → Action World Unit
with_answer f (ok a) = f a
with_answer f (raised e) = raise e

-- The body of `while True`, from what `recover_pending_messages` returned. An exception ends the turn
-- and is dropped.
unfoldable pub turn_from : Turn → Result (List Entry) → Action World Unit
turn_from t claimed = attempt (
    with_answer (process_claimed t.handling) claimed
    >> with_answer (process_streams t.handling) t.get_messages)

-- Without fuel for the recovery there is no end of the turn.
unfoldable pub turn_after : Turn → World → Option (Result (List Entry)) → Option World
turn_after t w none = none
turn_after t w (some claimed) = some (turn_from t claimed w).1

-- A turn in which the recovery takes at most `fuel` calls.
unfoldable pub turn : ℕ → Turn → World → Option World
turn fuel t w = turn_after t w (recover_pending_messages t.claim fuel)
