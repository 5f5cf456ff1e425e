-- ===== src/Coordinator/Orchestrator.antt =====
-- src/coordinator/orchestrator.py: plan, validate, execute, reconcile. Timing and metrics are left
-- out: they record durations and counts, and no branch depends on them.
pub mod Trail
pub mod Orders
pub mod Gate
pub mod Persisted
pub mod Backed
pub mod Steps
use omni_trade.Prelude.{String, Bool, true, false, ◌==◌, Option, none, some, List, if◌then◌else◌}
use omni_trade.Exec.{Exec, Outcome, returned, pure, gets, ◌>>=◌, ◌>>◌}
use omni_trade.Float.{Float}
use omni_trade.Market.Instrument.{Instrument}
use omni_trade.Market.Quote.{Quote}
use omni_trade.Market.Registry.{Registry}
use omni_trade.Coordinator.StateMachine.{
  IntentStatus, pending, validated, all_filled, rolling_back, rejected,
}
use omni_trade.Coordinator.Intent.{Intent}
use omni_trade.Coordinator.Plan.{Plan}
use omni_trade.Coordinator.Planner.{plan}
use omni_trade.Coordinator.Validator.{Complaint, ValidationResult, validate}
use omni_trade.Coordinator.Risk.{RiskFailure, RiskConfig, RiskResult, check}
use omni_trade.Coordinator.Leg.{LegExecution, ExecutionResult}
use omni_trade.Coordinator.Executor.{execute}
use omni_trade.Coordinator.Reconciler.{ReconciliationResult, reconcile}
use omni_trade.World.{Env, World}
use omni_trade.Persistence.Store.{is_blocked_by_needs_manual, create_intent, update_intent_status}

module _ ⦃fl : Float⦄ where
  -- `fetch` stands for `QuoteFetcher.fetch_many`, slot by slot.
  pub record Orchestrator : Type 0 where
    pub registry : Registry
    pub fetch : Instrument → Option Quote
    pub risk_validator : Option RiskConfig

  -- The dictionary that `submit` returns, one constructor for each `return`.
  pub data Report : Type 0 where
    blocked : Report
    dry_run : Plan → Report
    not_acceptable : Plan → Report
    invalid : List (String × Complaint) → Report
    risky : List RiskFailure → Report
    filled : List LegExecution → Report
    reconciled : ReconciliationResult → List LegExecution → Report

  -- The value of its key `status`; `none` stands for DRY_RUN.
  abbrev pub report_status : Report → Option IntentStatus
  report_status blocked = some rejected
  report_status (dry_run p) = none
  report_status (not_acceptable p) = some rejected
  report_status (invalid fs) = some rejected
  report_status (risky fs) = some rejected
  report_status (filled legs) = some all_filled
  report_status (reconciled r legs) = some r.status

module _ ⦃fl : Float⦄ ⦃env : Env⦄ where
  abbrev pub stamped : Intent → World → Intent
  stamped i w = if i.created_at == "" then record i { created_at = env.isoformat w.journal } else i

  abbrev pub reconciled_with :
      String → (ReconciliationResult × List LegExecution) → Exec World Report
  reconciled_with id r = do update_intent_status id r.0.status; pure (reconciled r.0 r.1)

  -- Step 7, for a partial fill.
  unfoldable pub roll_back : String → ExecutionResult → Exec World Report
  roll_back id result = do
    update_intent_status id rolling_back
    λ w. let (r, w') = reconcile result w in reconciled_with id r w'

  abbrev pub conclude : String → ExecutionResult → Exec World Report
  conclude id result = elim result.status [
    | all_filled ↦ pure (filled result.legs)
    | _ ↦ roll_back id result
  ]

  unfoldable pub run_plan : String → Plan → Exec World Report
  unfolding roll_back
  run_plan id p = do result ← execute p; conclude id result

  abbrev pub refuse : String → Report → Exec World Report
  refuse id r = do update_intent_status id rejected; pure r

  abbrev pub after_risk : String → Plan → RiskResult → Exec World Report
  after_risk id p r = if r.is_allowed then run_plan id p else refuse id (risky r.failures)

  -- Step 5.5.
  unfoldable pub check_risk : Option RiskConfig → Intent → Plan → Exec World Report
  unfolding run_plan
  check_risk none i p = run_plan i.intent_id p
  check_risk (some cfg) i p = do r ← check cfg i p; after_risk i.intent_id p r

  abbrev pub after_validation :
      Option RiskConfig → Intent → Plan → ValidationResult → Exec World Report
  after_validation cfg i p v =
      if v.is_valid
      then (do update_intent_status i.intent_id validated; check_risk cfg i p)
      else refuse i.intent_id (invalid v.failures)

  -- Step 5.
  unfoldable pub validate_plan : Option RiskConfig → Intent → Plan → Exec World Report
  unfolding check_risk
  validate_plan cfg i p = do v ← validate (λ _ _. none) p; after_validation cfg i p v

  -- Steps 3 and 4, once the intent is stored.
  unfoldable pub process : Orchestrator → Bool → Intent → Plan → Exec World Report
  unfolding validate_plan
  process o dry i p =
      if dry
      then pure (dry_run p)
      else if p.is_acceptable
      then validate_plan o.risk_validator i p
      else refuse i.intent_id (not_acceptable p)

  abbrev pub admit : Orchestrator → Bool → Intent → Bool → Exec World Report
  admit o dry i true = pure blocked
  admit o dry i false = do
    i' ← gets (stamped i)
    create_intent i' pending
    process o dry i' (plan o.registry o.fetch i')

  -- `Orchestrator.submit`.
  unfoldable pub submit : Orchestrator → Intent → Bool → Exec World Report
  unfolding process
  submit o i dry = do is_blocked ← is_blocked_by_needs_manual; admit o dry i is_blocked
