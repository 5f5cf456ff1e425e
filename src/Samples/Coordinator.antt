-- ===== src/Samples/Coordinator.antt =====
-- The theorems about the coordinator at concrete inputs.
use omni_trade.Prelude.{
  ◌≡◌, refl, ◌≤◌, ◌⊎◌, true, false, List, [], ◌∷◌, All, all, map, select, length, arith,
}
use omni_trade.Exec.{returned, raised, value_error, ◌>>=◌}
use omni_trade.Exec.Ensures.{Met}
use omni_trade.Float.{F, nought}
use omni_trade.Float.Fixed.{fixed}
use omni_trade.Market.Instrument.{of_int, round_qty}
use omni_trade.Market.Quote.{estimate_fill}
use omni_trade.Market.Registry.{find_one}
use omni_trade.Coordinator.StateMachine.{rolled_back, rolled_back_failed}
use omni_trade.Coordinator.Intent.{new_intent, get_leg_config}
use omni_trade.Coordinator.Intent.Checked.{SoundIntent, new_intent-SoundIntent, new_intent-stable}
use omni_trade.Coordinator.Planner.{
  plan, planned_legs, verdicts, candidates, resolve, assess, assess_quote, compute_notional,
  assess_fill, check_thresholds, unresolved, rejected_legs,
}
use omni_trade.Coordinator.Planner.Sound.{GoodLeg, plan-GoodLeg}
use omni_trade.Coordinator.Planner.Complete.{plan_complete}
use omni_trade.Coordinator.Risk.{admit}
use omni_trade.Coordinator.Risk.Window.{Expiry, Limits, admit-bounded}
use omni_trade.Coordinator.Reconciler.{has_fill, is_done, reconcile}
use omni_trade.Coordinator.Reconciler.Records.{Records, reconcile-Records, reconcile-status}
use omni_trade.Coordinator.Orchestrator.{blocked, dry_run, submit}
use omni_trade.Coordinator.Orchestrator.Trail.{Reported, submit-Reported}
use omni_trade.Coordinator.Orchestrator.Backed.{submit-Backed}
use omni_trade.Coordinator.Orchestrator.Persisted.{Backed, empty}
use omni_trade.Coordinator.Orchestrator.Orders.{actions, submit-idle}
use omni_trade.Coordinator.Orchestrator.Gate.{submit-blocked}
use omni_trade.Persistence.Store.{find_intent, is_blocked_by_needs_manual, create_intent, set_db}
use omni_trade.Persistence.Store.Rows.{opened}
use omni_trade.Persistence.Trail.{Anywhere, trail}
use omni_trade.Samples.{env, quote, intent, orchestrator, world, failed_db, failed_row, partial}

submit-Reported_example :
    Met
      (Reported "i1")
      (Anywhere "i1")
      (submit orchestrator intent false world).0
      (submit orchestrator intent false world).1
unfolding trail
submit-Reported_example = submit-Reported orchestrator intent false world refl

submit-Backed_example : Backed (submit orchestrator intent false world).1.journal
submit-Backed_example = submit-Backed orchestrator intent false world empty

submit-idle_example : actions (submit orchestrator intent true world).1.journal ≡ []
unfolding submit plan actions ◌>>=◌ is_blocked_by_needs_manual create_intent set_db
submit-idle_example =
    submit-idle orchestrator intent true world
      (dry_run (
        plan orchestrator.registry orchestrator.fetch
          (record intent { created_at = "2026-01-01" })))
      refl refl

submit-blocked_example :
    submit orchestrator intent false (opened failed_db world)
    ≡ (returned blocked, opened failed_db world)
unfolding find_intent
submit-blocked_example =
    submit-blocked orchestrator intent false failed_db world "old" failed_row refl refl

plan-GoodLeg_example :
    All (GoodLeg orchestrator.registry quote intent) (plan orchestrator.registry quote intent).legs
plan-GoodLeg_example = plan-GoodLeg orchestrator.registry quote intent

plan_complete_example :
    map (λ l. l.venue) (plan orchestrator.registry quote intent).legs
    ≡ "binance" ∷ "hyperliquid" ∷ []
unfolding plan planned_legs verdicts candidates resolve find_one get_leg_config assess assess_quote
    compute_notional round_qty assess_fill estimate_fill check_thresholds unresolved rejected_legs
plan_complete_example = plan_complete orchestrator.registry quote intent refl

reconcile-Records_example :
    Records
      (reconcile partial world).1
      (select has_fill partial.legs)
      (reconcile partial world).0.0.legs
reconcile-Records_example = reconcile-Records partial world

reconcile-status_example :
    let r = (reconcile partial world).0.0 in
    ((r.status ≡ rolled_back) × (all is_done r.legs ≡ true) × (r.residual_exposure_usd ≡ nought))
    ⊎ ((r.status ≡ rolled_back_failed) × (all is_done r.legs ≡ false))
reconcile-status_example = reconcile-status partial world

new_intent-SoundIntent_example :
    (SoundIntent intent × (new_intent intent ≡ returned intent))
    ⊎ ((SoundIntent intent → ⊥) × (new_intent intent ≡ raised value_error))
new_intent-SoundIntent_example = new_intent-SoundIntent intent

new_intent-stable_example :
    new_intent (record intent { created_at = "2026" })
    ≡ returned (record intent { created_at = "2026" })
unfolding new_intent
new_intent-stable_example = new_intent-stable intent intent "2026" refl

admit-bounded_example :
    (kept : List (F ⦃fl = fixed⦄)) × (length
        (admit 2 (of_int 10) (of_int 20) (of_int 5 ∷ of_int 15 ∷ [])).1
      ≤ 2)
    × Expiry (of_int 10) (of_int 5 ∷ of_int 15 ∷ []) kept
    × Limits 2
        (of_int 10)
        (of_int 20)
        kept
        (admit 2 (of_int 10) (of_int 20) (of_int 5 ∷ of_int 15 ∷ []))
admit-bounded_example =
    admit-bounded 2 (of_int 10) (of_int 20) (of_int 5 ∷ of_int 15 ∷ []) (omega arith)
