-- ===== src/Coordinator/Orchestrator/Backed.antt =====
-- The orders of a whole submission, reverse orders included.
use omni_trade.Prelude.{◌≡◌, String, Bool, true, false, Option, none, some, List, arith}
use omni_trade.Exec.{Exec, Outcome, returned, raised, pure}
use omni_trade.Exec.Preserves.{
  Preserves, Preserves-pure, Preserves-gets, Preserves-if, Preserves-bind,
}
use omni_trade.Exec.Ensures.{Ensures, Ensures-bind, Ensures-pure, Preserves-Ensures, Met}
use omni_trade.Float.{Float}
use omni_trade.Coordinator.StateMachine.{IntentStatus, pending, validated, all_filled, rolling_back}
use omni_trade.Coordinator.Intent.{Intent}
use omni_trade.Coordinator.Plan.{Plan}
use omni_trade.Coordinator.Validator.{ValidationResult}
use omni_trade.Coordinator.Validator.Steps.{is_balance_call, validate-Preserves}
use omni_trade.Coordinator.Risk.{RiskConfig}
use omni_trade.Coordinator.Risk.Steps.{check-Preserves}
use omni_trade.Coordinator.Leg.{LegExecution, ExecutionResult}
use omni_trade.Coordinator.Executor.Steps.{Permits, AllKnown}
use omni_trade.Coordinator.Reconciler.{ReconciliationResult, reconcile}
use omni_trade.Coordinator.Reconciler.Steps.{reconcile_keeps}
use omni_trade.Coordinator.Orchestrator.{
  Orchestrator, Report, filled, reconciled_with, roll_back, conclude, run_plan, refuse, check_risk,
  after_validation, validate_plan, process, admit, submit,
}
use omni_trade.Coordinator.Orchestrator.Persisted.{
  Backed, after_audit, after_call, IsBacked, InJournal, Keeps, Keeps-self, on_call, on_update,
  write_status, Ready, execute-Ready,
}
use omni_trade.World.{
  AuditEvent, Call, create_order, fetch_order, cancel_order, set_leverage, fetch_balance,
  fetch_free_margin, market, audit, call, Db, Env, World, log,
}
use omni_trade.Persistence.Store.{update_intent_status}
use omni_trade.Persistence.Steps

module _ ⦃fl : Float⦄ where
  balance-Permits : (K : String → Type 0) (c : Call) → is_balance_call c ≡ true → Permits K c
  balance-Permits K (fetch_balance venue params) h = tt
  balance-Permits K (fetch_free_margin venue params) h = tt
  balance-Permits K (fetch_order venue oid symbol params) h = tt
  balance-Permits K (market venue request) h = tt
  balance-Permits K (cancel_order venue oid symbol params) h = tt
  balance-Permits K (set_leverage venue n symbol params) h = tt
  balance-Permits K (create_order venue leg_id request) h = absurd (ground arith)

module _ ⦃fl : Float⦄ ⦃env : Env⦄ where
  saved : (d : Db) (w : World) → IsBacked w → IsBacked (record w { db = some d })
  saved d w b = b

  audited : (e : AuditEvent) (w : World) → IsBacked w → IsBacked (log (audit e) w)
  audited e w b = after_audit w.journal e b

  asked : (c : Call) (w : World) → is_balance_call c ≡ true → IsBacked w → IsBacked (log (call c) w)
  asked c w h b = after_call w.journal c b (balance-Permits _ c h)

  update-IsBacked :
      (id : String) (s : IntentStatus) → Preserves IsBacked (update_intent_status id s)
  update-IsBacked id s = Steps.update_intent_status-Preserves IsBacked saved audited id s

  reconciled_with-IsBacked :
      (id : String) (r : ReconciliationResult × List LegExecution)
      → Preserves IsBacked (reconciled_with id r)
  reconciled_with-IsBacked id r = Preserves-bind _ _ (update-IsBacked id _) λ _. Preserves-pure _

  settled : {A : Type 0} (o : Outcome A) (w : World) → Met (λ _. IsBacked) IsBacked o w → IsBacked w
  settled (returned a) w b = b
  settled (raised e) w b = b

  always :
      {A : Type 0} (m : Exec World A)
      → Preserves IsBacked m
      → Ensures IsBacked m (λ _. IsBacked) IsBacked
  always m h = Preserves-Ensures m h λ w b. b

  rolled_back-IsBacked :
      (K : String → Type 0) (id : String) (result : ExecutionResult)
      → AllKnown K result.legs
      → Ensures (Keeps K) (roll_back id result) (λ _. IsBacked) IsBacked
  unfolding roll_back
  rolled_back-IsBacked K id result k = Ensures-bind _ _ (write_status K id rolling_back) λ _.
      record {
        run = λ w h.
            let kept = reconcile_keeps (Keeps K) K (on_update K) (on_call K) result w k h in
            (always _ (reconciled_with-IsBacked id (reconcile result w).0)).run
              (reconcile result w).1 kept.backed;
      }

  conclude-IsBacked :
      (id : String) (result : ExecutionResult)
      → Ensures (Ready result) (conclude id result) (λ _. IsBacked) IsBacked
  conclude-IsBacked id result = record {
    run = λ w h. (by_status (InJournal w) h.1 result.status).run w (Keeps-self w h.0);
  }
    where
      by_status :
          (K : String → Type 0)
          → AllKnown K result.legs
          → (s : IntentStatus)
          → Ensures
              (Keeps K)
              (elim s [ all_filled ↦ pure (filled result.legs) | _ ↦ roll_back id result ])
              (λ _. IsBacked)
              IsBacked
      by_status K k all_filled = Ensures-pure _ λ w h. h.backed
      by_status K k _ = rolled_back-IsBacked K id result k

  run_plan-IsBacked : (id : String) (p : Plan) → Preserves IsBacked (run_plan id p)
  unfolding run_plan
  run_plan-IsBacked id p = record {
    run = λ w b.
        settled _ _
          ((Ensures-bind _ _ (execute-Ready p) λ result. conclude-IsBacked id result).run w b);
  }

  refuse-IsBacked : (id : String) (r : Report) → Preserves IsBacked (refuse id r)
  refuse-IsBacked id r = Preserves-bind _ _ (update-IsBacked id _) λ _. Preserves-pure r

  check_risk-IsBacked :
      (cfg : Option RiskConfig) (i : Intent) (p : Plan) → Preserves IsBacked (check_risk cfg i p)
  unfolding check_risk
  check_risk-IsBacked none i p = run_plan-IsBacked i.intent_id p
  check_risk-IsBacked (some cfg) i p =
      Preserves-bind _ _ (check-Preserves IsBacked (λ ts w b. b) cfg i p)
        λ r. Preserves-if _ _ _ (run_plan-IsBacked i.intent_id p) (refuse-IsBacked i.intent_id _)

  after_validation-IsBacked :
      (cfg : Option RiskConfig) (i : Intent) (p : Plan) (v : ValidationResult)
      → Preserves IsBacked (after_validation cfg i p v)
  after_validation-IsBacked cfg i p v =
      Preserves-if _ _ _
        (Preserves-bind _ _ (update-IsBacked i.intent_id validated)
          λ _. check_risk-IsBacked cfg i p)
        (refuse-IsBacked i.intent_id _)

  process-IsBacked :
      (o : Orchestrator) (dry : Bool) (i : Intent) (p : Plan)
      → Preserves IsBacked (process o dry i p)
  unfolding process validate_plan
  process-IsBacked o dry i p = Preserves-if _ _ _ (Preserves-pure _) (
      Preserves-if _ _ _
        (Preserves-bind _ _ (validate-Preserves IsBacked asked _ p)
          (after_validation-IsBacked o.risk_validator i p))
        (refuse-IsBacked i.intent_id _))

  admit-IsBacked :
      (o : Orchestrator) (dry : Bool) (i : Intent) (b : Bool) → Preserves IsBacked (admit o dry i b)
  admit-IsBacked o dry i true = Preserves-pure _
  admit-IsBacked o dry i false = Preserves-bind _ _ (Preserves-gets _) λ j.
      Preserves-bind _ _ (Steps.create_intent-Preserves IsBacked saved audited j pending)
        λ _. process-IsBacked o dry j _

  -- Persist before send: if every order of the journal is for a leg that the journal creates
  -- earlier, this holds after a submission too, whether it returns or raises. The reverse orders of
  -- the reconciler count as orders of their legs.
  pub submit-Backed :
      (o : Orchestrator) (i : Intent) (dry : Bool) (w : World)
      → Backed w.journal
      → Backed (submit o i dry w).1.journal
  unfolding submit
  submit-Backed o i dry w b =
      (Preserves-bind _ _ (Steps.is_blocked-Preserves IsBacked saved audited)
          (admit-IsBacked o dry i)).run
        w b
