-- ===== src/Samples/Executor.antt =====
-- The theorem about the executor's result at a concrete plan.
use omni_trade.Prelude.{◌≡◌, refl, ◌↔◌, true, some, none, [], ◌∷◌, All}
use omni_trade.Exec.{◌>>=◌}
use omni_trade.Float.Fixed.{fixed}
use omni_trade.Market.Instrument.{of_int}
use omni_trade.Coordinator.StateMachine.{IntentStatus, LegStatus}
use omni_trade.Coordinator.AccountType.{extract_fee_usd}
use omni_trade.Coordinator.Plan.{Plan}
use omni_trade.World.{ask}
use omni_trade.Persistence.Store.{update_intent_status, set_db, create_leg, update_leg}
use omni_trade.Coordinator.Leg.{on_world, edit, ExecutionResult}
use omni_trade.Coordinator.Executor.{execute}
use omni_trade.Coordinator.Executor.Kept.{tasks_of}
use omni_trade.Coordinator.Executor.Tasks.{IsFilled, Finished, planned_tasks, execute-tasks}
use omni_trade.Persistence.Store.Rows.{opened}
use omni_trade.Samples.{env, intent, leg, world, failed_db}

abbrev one_leg : Plan
one_leg = record {
  intent = record intent { intent_id = "old" };
  legs = (leg "binance").leg ∷ [];
  rejected_venues = [];
  aggregate_estimated_avg_price = of_int 101;
  aggregate_estimated_fee_usd = of_int 1;
  is_acceptable = true;
  rejection_reasons = [];
}

abbrev one_filled : ExecutionResult
one_filled = record {
  status = IntentStatus.all_filled;
  legs =
      record {
        leg = (leg "binance").leg;
        leg_id = "leg-b";
        status = LegStatus.filled;
        side = "buy";
        order_id = some "o1";
        filled_amount = of_int 5;
        avg_price = some (of_int 101);
        fee = fixed.literal 5 1;
        error = none;
      }
      ∷ [];
}

execute-tasks_example :
    (tasks_of one_filled.legs ≡ planned_tasks one_leg.legs)
    × ((one_filled.status ≡ IntentStatus.all_filled)
        ↔ (All (λ x. IsFilled x.status) one_filled.legs))
    × Finished one_filled.legs
unfolding execute ◌>>=◌ update_intent_status set_db create_leg on_world ask edit update_leg
    extract_fee_usd
execute-tasks_example = execute-tasks one_leg (opened failed_db world) one_filled refl
