-- ===== src/Worker/StateMachine.antt =====
-- worker/state_machine.py. Each of the two attempts of a method is given what the database and Redis
-- answer in it.
pub mod Retry
pub mod AllRows
use deploy_hub.Prelude.{ℕ, String, Option, none, some, List}
use deploy_hub.Action.{
  Exn, operational_error, unique_violation, database_error, Outcome, Action, pure, raise, ◌>>=◌,
  ◌>>◌, try_catch, modify, call, attempt,
}
use deploy_hub.Schema.{State, Deployment, update_deployment, select_deployment}
use deploy_hub.Worker.World.{World, Conn, absent, open_conn, closed_conn, issue, publish_status}

pub record Attempt : Type 0 where
  pub liveness : Outcome  -- SELECT 1
  pub connect : Outcome
  pub execute : Outcome
  pub publish : Outcome
  pub now : ℕ

abbrev pub set_conn : Conn → World → World
set_conn c w = record w { conn = c }

connect : Attempt → Action World Unit
connect a = call a.connect (set_conn open_conn)

-- `except psycopg2.Error` of the liveness check.
reconnect : Attempt → Exn → Action World Unit
unfolding connect
reconnect a (operational_error s) = modify (set_conn closed_conn) >> connect a
reconnect a (unique_violation s) = modify (set_conn closed_conn) >> connect a
reconnect a (database_error s) = modify (set_conn closed_conn) >> connect a
reconnect a e = raise e

conn_for : Conn → Attempt → Action World Unit
unfolding connect reconnect
conn_for absent a = connect a
conn_for closed_conn a = connect a
conn_for open_conn a = try_catch (call a.liveness (λ w. w)) (reconnect a)

-- `_get_conn`.
get_conn : Attempt → Action World Unit
unfolding conn_for
get_conn a w = conn_for w.conn a w

-- The UPDATE of `update_state`.
abbrev pub set_state : State → Option String → ℕ → Deployment → Deployment
set_state s error_msg now d = record d { state = s; updated_at = now; last_error = error_msg }

-- `except psycopg2.OperationalError` of the first attempt; in the second it is raised again.
abbrev retry : {A : Type 0} → Action World A → Exn → Action World A
retry second (operational_error s) w = second (set_conn absent w)
retry second e w = raise e w

unfoldable pub update_once : String → State → Option String → Attempt → Action World Unit
unfolding get_conn update_deployment
update_once k s error_msg a = do
  get_conn a
  call a.execute (λ w. record w {
    deployments = update_deployment k (set_state s error_msg a.now) w.deployments;
  })
  attempt (call a.publish (issue (publish_status k s error_msg)))

unfoldable pub update_state : String → State → Option String → (ℕ → Attempt) → Action World Unit
unfolding update_once
update_state k s error_msg attempts =
    try_catch (update_once k s error_msg (attempts 0))
      (retry (update_once k s error_msg (attempts 1)))

get_once : String → Attempt → Action World (Option Deployment)
unfolding get_conn
get_once k a = do
  get_conn a
  call a.execute (λ w. w)
  (λ w. pure (select_deployment k w.deployments) w)

unfoldable pub get_deployment : String → (ℕ → Attempt) → Action World (Option Deployment)
unfolding get_once
get_deployment k attempts = try_catch (get_once k (attempts 0)) (retry (get_once k (attempts 1)))
