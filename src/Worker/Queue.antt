-- ===== src/Worker/Queue.antt =====
-- worker/queue_client.py. What Redis answers is an argument; the calls that went through are in
-- `issued`.
pub mod Recovery
use deploy_hub.Prelude.{
  ℕ, zero, suc, String, ◌==◌, if◌then◌else◌, Option, none, some, List, [], ◌++◌,
}
use deploy_hub.Action.{Outcome, Action, Result, ok, raised, ◌>>◌, call}
use deploy_hub.Worker.World.{World, Message, issue, xack, xadd_dlq}

unfoldable pub ack_message : String → Outcome → Action World Unit
ack_message message_id ack = call ack (issue (xack message_id))

unfoldable pub add_to_dlq : String → Message → Outcome → Outcome → Action World Unit
unfolding ack_message
add_to_dlq message_id m add ack = call add (issue (xadd_dlq m)) >> ack_message message_id ack

abbrev pub Entry : Type 0
Entry = String × Message

-- The answer of one XAUTOCLAIM: where to go on, and the entries claimed.
abbrev pub Page : Type 0
Page = Result (String × List Entry)

-- The loop of `recover_pending_messages`: `claim n start` is what its call number `n` answers, and
-- `all_claimed` what it has so far. `none` means that the fuel ran out.
recover_from : (ℕ → String → Page) → ℕ → ℕ → String → List Entry → Option (Result (List Entry))
recover_from claim zero n start_id all_claimed = none
recover_from claim (suc fuel) n start_id all_claimed = elim (claim n start_id) [
  | raised e ↦ some (raised e)
  | ok (next_start, claimed) ↦
      let rest = recover_from claim fuel (suc n) next_start (all_claimed ++ claimed) in
      if next_start == "0-0" then some (ok (all_claimed ++ claimed)) else rest
]

unfoldable pub recover_pending_messages : (ℕ → String → Page) → ℕ → Option (Result (List Entry))
unfolding recover_from
recover_pending_messages claim fuel = recover_from claim fuel 0 "0-0" []
