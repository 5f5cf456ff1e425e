-- ===== src/Coordinator/Orchestrator/Steps.antt =====
-- What holds after every change of the tables, every audit event, every request and every move of
-- the risk window holds after a submission.
use omni_trade.Prelude.{Option, none, some, List, [], ◌∷◌, Bool, true, false, String}
use omni_trade.Exec.{pure}
use omni_trade.Exec.Preserves.{
  Preserves, Preserves-pure, Preserves-bind, Preserves-gets, Preserves-if,
}
use omni_trade.Float.{Float, F}
use omni_trade.Coordinator.StateMachine.{IntentStatus, all_filled, pending}
use omni_trade.Coordinator.Intent.{Intent}
use omni_trade.Coordinator.Plan.{PlannedLeg, Plan}
use omni_trade.Coordinator.Validator.{ValidationResult}
use omni_trade.Coordinator.Validator.Steps.{validate-Preserves}
use omni_trade.Coordinator.Risk.{RiskConfig}
use omni_trade.Coordinator.Risk.Steps.{check-Preserves}
use omni_trade.Coordinator.Leg.{LegExecution, ExecutionResult}
use omni_trade.Coordinator.Executor.{persist_legs, dispatch, settle, execute}
use omni_trade.Coordinator.Executor.Steps.{Permits, dispatch-AllInv, close_open-Preserves}
use omni_trade.Coordinator.Reconciler.{ReconciliationResult, reconcile}
use omni_trade.Coordinator.Reconciler.Steps.{reconcile_keeps}
use omni_trade.Coordinator.Orchestrator.{
  Orchestrator, Report, filled, reconciled_with, roll_back, conclude, run_plan, refuse, check_risk,
  after_validation, validate_plan, process, admit, submit,
}
use omni_trade.Coordinator.Orchestrator.Trail.{all_units}
use omni_trade.World.{Field, AuditEvent, audit, Call, call, Db, Env, World, log}
use omni_trade.Persistence.Store.{update_leg, update_intent_status}
use omni_trade.Persistence.Steps

module _ ⦃fl : Float⦄ ⦃env : Env⦄ (P : World → Type 0)
    (on_db : (d : Db) (w : World) → P w → P (record w { db = some d }))
    (on_audit : (e : AuditEvent) (w : World) → P w → P (log (audit e) w))
    (on_call : (c : Call) (w : World) → P w → P (log (call c) w))
    (on_stamps : (ts : List F) (w : World) → P w → P (record w { order_timestamps = ts })) where
  on_update : (l : String) (fs : List Field) → Preserves P (update_leg l fs)
  on_update l fs = Steps.update_leg-Preserves P on_db on_audit l fs

  on_status : (id : String) (s : IntentStatus) → Preserves P (update_intent_status id s)
  on_status id s = Steps.update_intent_status-Preserves P on_db on_audit id s

  on_permitted : (c : Call) (w : World) → Permits (λ _. Unit) c → P w → P (log (call c) w)
  on_permitted c w _ h = on_call c w h

  persist_legs-Preserves : (i : Intent) (ls : List PlannedLeg) → Preserves P (persist_legs i ls)
  unfolding persist_legs
  persist_legs-Preserves i [] = Preserves-pure []
  persist_legs-Preserves i (l ∷ ls) = Preserves-bind _ _ (Preserves-gets _) λ leg_id.
      Preserves-bind _ _ (Steps.create_leg-Preserves P on_db on_audit _)
        λ _. Preserves-bind _ _ (persist_legs-Preserves i ls) λ rest. Preserves-pure _

  settle-Preserves : (id : String) (legs : List LegExecution) → Preserves P (settle id legs)
  unfolding settle
  settle-Preserves id legs =
      Preserves-bind _ _ (close_open-Preserves P (λ _. Unit) on_update on_permitted _ legs)
        λ closed. Preserves-bind _ _ (on_status id _) λ _. Preserves-pure _

  execute-Preserves : (p : Plan) → Preserves P (execute p)
  unfolding execute
  execute-Preserves p = Preserves-bind _ _ (on_status _ _) λ _.
      Preserves-bind _ _ (persist_legs-Preserves p.intent p.legs) λ legs. record {
        run = λ w h.
            let (legs', w') = dispatch p legs w in
            (settle-Preserves p.intent.intent_id legs').run w'
              (dispatch-AllInv P (λ _. Unit) on_update on_permitted p legs w h (all_units legs)).0;
      }

  reconciled_with-Preserves :
      (id : String) (r : ReconciliationResult × List LegExecution)
      → Preserves P (reconciled_with id r)
  reconciled_with-Preserves id r = Preserves-bind _ _ (on_status id _) λ _. Preserves-pure _

  roll_back-Preserves : (id : String) (result : ExecutionResult) → Preserves P (roll_back id result)
  unfolding roll_back
  roll_back-Preserves id result = Preserves-bind _ _ (on_status id _) λ _. record {
    run = λ w h.
        let (r, w') = reconcile result w in
        (reconciled_with-Preserves id r).run w'
          (reconcile_keeps P (λ _. Unit) on_update on_permitted result w (all_units result.legs) h);
  }

  conclude-Preserves : (id : String) (result : ExecutionResult) → Preserves P (conclude id result)
  conclude-Preserves id result = by_status result.status
    where
      by_status :
          (s : IntentStatus)
          → Preserves P
              (elim s [ all_filled ↦ pure (filled result.legs) | _ ↦ roll_back id result ])
      by_status all_filled = Preserves-pure _
      by_status _ = roll_back-Preserves id result

  run_plan-Preserves : (id : String) (p : Plan) → Preserves P (run_plan id p)
  unfolding run_plan
  run_plan-Preserves id p = Preserves-bind _ _ (execute-Preserves p) (conclude-Preserves id)

  refuse-Preserves : (id : String) (r : Report) → Preserves P (refuse id r)
  refuse-Preserves id r = Preserves-bind _ _ (on_status id _) λ _. Preserves-pure r

  check_risk-Preserves :
      (cfg : Option RiskConfig) (i : Intent) (p : Plan) → Preserves P (check_risk cfg i p)
  unfolding check_risk
  check_risk-Preserves none i p = run_plan-Preserves i.intent_id p
  check_risk-Preserves (some cfg) i p =
      Preserves-bind _ _ (check-Preserves P on_stamps cfg i p)
        λ r. Preserves-if r.is_allowed _ _ (run_plan-Preserves i.intent_id p) (refuse-Preserves _ _)

  after_validation-Preserves :
      (cfg : Option RiskConfig) (i : Intent) (p : Plan) (v : ValidationResult)
      → Preserves P (after_validation cfg i p v)
  after_validation-Preserves cfg i p v =
      Preserves-if v.is_valid _ _
        (Preserves-bind _ _ (on_status _ _) λ _. check_risk-Preserves cfg i p)
        (refuse-Preserves _ _)

  process-Preserves :
      (o : Orchestrator) (dry : Bool) (i : Intent) (p : Plan) → Preserves P (process o dry i p)
  unfolding process validate_plan
  process-Preserves o dry i p = Preserves-if dry _ _ (Preserves-pure _) (
      Preserves-if p.is_acceptable _ _
        (Preserves-bind _ _ (validate-Preserves P (λ c w _ h. on_call c w h) _ p)
          (after_validation-Preserves o.risk_validator i p))
        (refuse-Preserves _ _))

  admit-Preserves :
      (o : Orchestrator) (dry : Bool) (i : Intent) (b : Bool) → Preserves P (admit o dry i b)
  admit-Preserves o dry i true = Preserves-pure _
  admit-Preserves o dry i false = Preserves-bind _ _ (Preserves-gets _) λ j.
      Preserves-bind _ _ (Steps.create_intent-Preserves P on_db on_audit j pending)
        λ _. process-Preserves o dry j _

  pub submit-Preserves : (o : Orchestrator) (i : Intent) (dry : Bool) → Preserves P (submit o i dry)
  unfolding submit
  submit-Preserves o i dry =
      Preserves-bind _ _ (Steps.is_blocked-Preserves P on_db on_audit) (admit-Preserves o dry i)
