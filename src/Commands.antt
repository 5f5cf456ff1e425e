-- ===== src/Commands.antt =====
-- src/cli/main.py: the commands that an operator resolves intents with. Each runs on a store of its
-- own, which is open here; what it prints is its answer, and its exit code is a number.
pub mod Acknowledged
pub mod Cancelled
use omni_trade.Prelude.{
  ℕ, String, Bool, true, false, Option, none, some, List, select, if◌then◌else◌,
}
use omni_trade.Exec.{Exec, pure, catch, ◌>>=◌, ◌>>◌}
use omni_trade.Float.{Float}
use omni_trade.Coordinator.StateMachine.{
  IntentStatus, pending, validated, rejected, resolved_manual, LegStatus, is_terminal,
  blocking_state,
}
use omni_trade.World.{Env, IntentRow, LegRow, World}
use omni_trade.Persistence.Store.{
  get_intent, update_intent_status, get_legs_for_intent, is_blocking,
}

abbrev pub exit_general_error : ℕ
exit_general_error = 1

module _ ⦃fl : Float⦄ where
  -- What `cancel` prints. `marked` has the legs whose orders it cannot cancel at their venues.
  pub data Notice : Type 0 where
    not_found cancelled : Notice
    already_terminal : IntentStatus → Notice
    marked : List LegRow → Notice

  -- `leg.status in ("SENT", "PENDING_SEND")`
  abbrev pub in_flight : LegStatus → Bool
  in_flight LegStatus.sent = true
  in_flight LegStatus.pending_send = true
  in_flight _ = false

  -- `current_status in ("PENDING", "VALIDATED")`
  abbrev pub is_unsent : IntentStatus → Bool
  is_unsent pending = true
  is_unsent validated = true
  is_unsent _ = false

module _ ⦃fl : Float⦄ ⦃env : Env⦄ where
  unfoldable pub reject_unsent : String → Exec World Notice
  unfolding update_intent_status
  reject_unsent id = do update_intent_status id rejected; pure cancelled

  unfoldable pub reject_sent : String → Exec World Notice
  unfolding update_intent_status get_legs_for_intent
  reject_sent id = do
    legs ← get_legs_for_intent id
    update_intent_status id rejected
    pure (marked (select (λ l. in_flight l.status) legs))

  abbrev pub cancel_found : String → Option IntentRow → Exec World Notice
  cancel_found id none = pure not_found
  cancel_found id (some r) =
      if is_terminal r.status
      then pure (already_terminal r.status)
      else if is_unsent r.status
      then reject_unsent id
      else reject_sent id

  unfoldable pub run_cancel : String → Exec World Notice
  unfolding get_intent reject_unsent reject_sent
  run_cancel id = do row ← get_intent id; cancel_found id row

  -- `typer.Exit(0)`, or the code of an exception.
  unfoldable pub cancel : String → Exec World ℕ
  unfolding run_cancel
  cancel id = catch (run_cancel id >> pure 0) (λ e. pure exit_general_error)

  unfoldable pub resolve_manually : String → Exec World ℕ
  unfolding update_intent_status
  resolve_manually id = do update_intent_status id resolved_manual; pure 0

  abbrev pub ack_found : String → Option IntentRow → Exec World ℕ
  ack_found id none = pure 1
  ack_found id (some r) = if is_blocking r.status then resolve_manually id else pure 1

  unfoldable pub run_ack : String → Exec World ℕ
  unfolding get_intent resolve_manually
  run_ack id = do row ← get_intent id; ack_found id row

  unfoldable pub ack : String → Exec World ℕ
  unfolding run_ack
  ack id = catch (run_ack id) (λ e. pure exit_general_error)
