-- ===== src/Coordinator/Orchestrator/Trail.antt =====
-- The audit trail that a submission leaves.
use omni_trade.Prelude.{
  ◌≡◌, refl, subst, ◌⊎◌, inr, String, Bool, true, false, Option, none, some, List, [], ◌∷◌, arith,
}
use omni_trade.Exec.{Exec, pure, gets, ◌>>=◌, ◌>>◌}
use omni_trade.Exec.Preserves.{Preserves, Preserves-pure, Preserves-bind, Preserves-gets}
use omni_trade.Exec.Ensures.{
  Ensures, Ensures-bind, Ensures-if, Ensures-pure, Ensures-weaken, Preserves-Ensures, Met,
}
use omni_trade.Float.{Float, F}
use omni_trade.Coordinator.StateMachine.{
  IntentStatus, pending, validated, executing, all_filled, partial_filled, rolling_back,
  rolled_back, rolled_back_failed, rejected,
}
use omni_trade.Coordinator.StateMachine.Graph.{Allows, edge, allows}
use omni_trade.Coordinator.Intent.{Intent}
use omni_trade.Coordinator.Plan.{PlannedLeg, Plan}
use omni_trade.Coordinator.Planner.{plan}
use omni_trade.Coordinator.Validator.{ValidationResult}
use omni_trade.Coordinator.Validator.Steps.{validate-Preserves}
use omni_trade.Coordinator.Risk.{RiskConfig, RiskResult}
use omni_trade.Coordinator.Risk.Steps.{check-Preserves}
use omni_trade.Coordinator.Leg.{LegExecution, ExecutionResult, overall}
use omni_trade.Coordinator.Executor.{persist_legs, dispatch, settle, execute}
use omni_trade.Coordinator.Executor.Steps.{Permits, AllKnown, dispatch-AllInv, close_open-Preserves}
use omni_trade.Coordinator.Reconciler.{
  compensate_all, LegReconciliation, ReconciliationResult, reconcile, recovery_status,
}
use omni_trade.Coordinator.Reconciler.Steps.{reconcile_keeps}
use omni_trade.Coordinator.Orchestrator.{
  Orchestrator, Report, blocked, dry_run, not_acceptable, invalid, risky, filled, reconciled,
  stamped, reconciled_with, roll_back, conclude, run_plan, refuse, after_risk, check_risk,
  after_validation, validate_plan, process, admit, submit,
}
use omni_trade.World.{Field, Call, call, Env, World, log}
use omni_trade.Persistence.Store.{is_blocked_by_needs_manual, create_intent, update_leg}
use omni_trade.Persistence.Trail.{
  HasTrail, connection-HasTrail, create_leg-HasTrail, update_leg-HasTrail, At, Somewhere,
  At-Somewhere, call-At, Preserves-At, update_intent_status-At, Unseen, Anywhere, create_intent-At,
  remain,
}

module _ ⦃fl : Float⦄ where
  pub all_units : (legs : List LegExecution) → AllKnown (λ _. Unit) legs
  all_units [] = tt
  all_units (x ∷ xs) = (tt, all_units xs)

  abbrev pub Settled : IntentStatus → Type 0
  Settled s = (s ≡ all_filled) ⊎ (s ≡ partial_filled)

  overall-Settled : (legs : List LegExecution) → Settled (overall legs)
  overall-Settled legs = ground arith

  abbrev pub Recovered : IntentStatus → Type 0
  Recovered s = (s ≡ rolled_back) ⊎ (s ≡ rolled_back_failed)

  recovery_status-Recovered : (recs : List LegReconciliation) → Recovered (recovery_status recs)
  recovery_status-Recovered recs = ground arith

  Allows-Settled : (s : IntentStatus) → Settled s → Allows executing s
  unfolding edge
  Allows-Settled s h = allows executing s (ground arith)

  Allows-Recovered : (s : IntentStatus) → Recovered s → Allows rolling_back s
  unfolding edge
  Allows-Recovered s h = allows rolling_back s (ground arith)

module _ ⦃fl : Float⦄ ⦃env : Env⦄ where
  persist_legs-HasTrail :
      (id : String) (t : List IntentStatus) (i : Intent) (ls : List PlannedLeg)
      → Preserves (HasTrail id t) (persist_legs i ls)
  unfolding persist_legs
  persist_legs-HasTrail id t i [] = Preserves-pure []
  persist_legs-HasTrail id t i (l ∷ ls) = Preserves-bind _ _ (Preserves-gets _) λ leg_id.
      Preserves-bind _ _ (create_leg-HasTrail id t _)
        λ _. Preserves-bind _ _ (persist_legs-HasTrail id t i ls) λ rest. Preserves-pure _

  module _ (id : String) where
    update-At :
        (s : IntentStatus) (l : String) (fs : List Field) → Preserves (At id s) (update_leg l fs)
    update-At s l fs = Preserves-At id s _ (λ t. update_leg-HasTrail id t l fs)

    any_call-At :
        (s : IntentStatus) (c : Call) (w : World)
        → Permits (λ _. Unit) c
        → At id s w
        → At id s (log (call c) w)
    any_call-At s c w _ a = call-At id s c w a

    stays :
        {A : Type 0} (s : IntentStatus) (m : Exec World A)
        → Preserves (At id s) m
        → Ensures (At id s) m (λ _. At id s) (Somewhere id)
    stays s m h = Preserves-Ensures m h (At-Somewhere id s)

    -- The executor's result has one of two statuses, and the trail ends in it.
    abbrev Executed : ExecutionResult → World → Type 0
    Executed r w = Settled r.status × At id r.status w

    settle-At :
        (legs : List LegExecution)
        → Ensures (At id executing) (settle id legs) Executed (Somewhere id)
    settle-At legs =
        Ensures-bind _ _
          (stays executing _ (
            close_open-Preserves (At id executing) (λ _. Unit) (update-At executing)
              (any_call-At executing) _ legs))
          λ closed.
            Ensures-bind _ _
              (update_intent_status-At id executing (overall closed)
                (Allows-Settled _ (overall-Settled closed)))
              λ _. Ensures-pure _ λ w a. (overall-Settled closed, a)

    -- What a report says of the trail.
    abbrev pub Reported : Report → World → Type 0
    Reported blocked w = Unseen id w
    Reported (dry_run p) w = At id pending w
    Reported (not_acceptable p) w = At id rejected w
    Reported (invalid fs) w = At id rejected w
    Reported (risky fs) w = At id rejected w
    Reported (filled legs) w = At id all_filled w
    Reported (reconciled r legs) w = Recovered r.status × At id r.status w

    reconciled_with-At :
        (r : ReconciliationResult × List LegExecution)
        → Recovered r.0.status
        → Ensures (At id rolling_back) (reconciled_with id r) Reported (Somewhere id)
    reconciled_with-At r h =
        Ensures-bind _ _ (update_intent_status-At id rolling_back _ (Allows-Recovered _ h))
          λ _. Ensures-pure _ λ w a. (h, a)

    recovered : (result : ExecutionResult) (w : World) → Recovered (reconcile result w).0.0.status
    unfolding reconcile
    recovered result w = recovery_status-Recovered (compensate_all result.legs w).0

    roll_back-At :
        (result : ExecutionResult)
        → Ensures (At id partial_filled) (roll_back id result) Reported (Somewhere id)
    unfolding roll_back edge
    roll_back-At result =
        Ensures-bind _ _
          (update_intent_status-At id partial_filled rolling_back
            (allows partial_filled rolling_back refl))
          λ _. record {
            run = λ w a.
                let (r, w') = reconcile result w in
                (reconciled_with-At r (recovered result w)).run w' (
                  reconcile_keeps (At id rolling_back) (λ _. Unit) (update-At rolling_back)
                    (any_call-At rolling_back) result w (all_units result.legs) a);
          }

    conclude_status-At :
        (result : ExecutionResult) (s : IntentStatus)
        → Settled s
        → Ensures
            (At id s)
            (elim s [ all_filled ↦ pure (filled result.legs) | _ ↦ roll_back id result ])
            Reported
            (Somewhere id)
    conclude_status-At result all_filled h = Ensures-pure _ λ w a. a
    conclude_status-At result partial_filled h = roll_back-At result
    conclude_status-At result s h = absurd (ground arith)

    conclude-At :
        (result : ExecutionResult)
        → Ensures (Executed result) (conclude id result) Reported (Somewhere id)
    conclude-At result = record {
      run = λ w h. (conclude_status-At result result.status h.0).run w h.1;
    }

    refuse-At :
        (s : IntentStatus) (r : Report)
        → Allows s rejected
        → ((w : World) → At id rejected w → Reported r w)
        → Ensures (At id s) (refuse id r) Reported (Somewhere id)
    refuse-At s r ok h =
        Ensures-bind _ _ (update_intent_status-At id s rejected ok) λ _. Ensures-pure r h

  execute-At :
      (p : Plan)
      → Ensures
          (At p.intent.intent_id validated)
          (execute p)
          (Executed p.intent.intent_id)
          (Somewhere p.intent.intent_id)
  unfolding execute edge
  execute-At p =
      let id = p.intent.intent_id in
      Ensures-bind _ _
        (update_intent_status-At id validated executing (allows validated executing refl))
        λ _.
          Ensures-bind _ _
            (stays id executing _
              (Preserves-At id executing _ λ t. persist_legs-HasTrail id t p.intent p.legs))
            λ legs. record {
              run = λ w a.
                  let (legs', w') = dispatch p legs w in
                  (settle-At id legs').run w'
                    (dispatch-AllInv (At id executing) (λ _. Unit) (update-At id executing)
                      (any_call-At id executing) p legs w a (all_units legs)).0;
            }

  run_plan-At :
      (p : Plan)
      → Ensures
          (At p.intent.intent_id validated)
          (run_plan p.intent.intent_id p)
          (Reported p.intent.intent_id)
          (Somewhere p.intent.intent_id)
  unfolding run_plan
  run_plan-At p = Ensures-bind _ _ (execute-At p) λ result. conclude-At p.intent.intent_id result

  module _ (i : Intent) (p : Plan) (same : p.intent.intent_id ≡ i.intent_id) where
    run_same :
        Ensures
          (At i.intent_id validated)
          (run_plan i.intent_id p)
          (Reported i.intent_id)
          (Somewhere i.intent_id)
    run_same =
        subst (λ id. Ensures (At id validated) (run_plan id p) (Reported id) (Somewhere id)) same
          (run_plan-At p)

    after_risk-At :
        (r : RiskResult)
        → Ensures
            (At i.intent_id validated)
            (after_risk i.intent_id p r)
            (Reported i.intent_id)
            (Somewhere i.intent_id)
    unfolding edge
    after_risk-At r =
        Ensures-if r.is_allowed _ _ (λ _. run_same)
          λ _. refuse-At i.intent_id validated _ (allows validated rejected refl) λ w a. a

    check_risk-At :
        (cfg : Option RiskConfig)
        → Ensures
            (At i.intent_id validated)
            (check_risk cfg i p)
            (Reported i.intent_id)
            (Somewhere i.intent_id)
    unfolding check_risk
    check_risk-At none = run_same
    check_risk-At (some cfg) =
        Ensures-bind _ _
          (stays i.intent_id validated _
            (check-Preserves (At i.intent_id validated) (λ ts w a. moved ts w a) cfg i p))
          after_risk-At
      where
        moved :
            (ts : List F) (w : World)
            → At i.intent_id validated w
            → At i.intent_id validated (record w { order_timestamps = ts })
        moved ts w a = record { later = a.later; recorded = a.recorded; chain = a.chain }

    after_validation-At :
        (cfg : Option RiskConfig) (v : ValidationResult)
        → Ensures
            (At i.intent_id pending)
            (after_validation cfg i p v)
            (Reported i.intent_id)
            (Somewhere i.intent_id)
    unfolding edge
    after_validation-At cfg v =
        Ensures-if v.is_valid _ _
          (λ _.
            Ensures-bind _ _
              (update_intent_status-At i.intent_id pending validated
                (allows pending validated refl))
              λ _. check_risk-At cfg)
          λ _. refuse-At i.intent_id pending _ (allows pending rejected refl) λ w a. a

    validate_plan-At :
        (cfg : Option RiskConfig)
        → Ensures
            (At i.intent_id pending)
            (validate_plan cfg i p)
            (Reported i.intent_id)
            (Somewhere i.intent_id)
    unfolding validate_plan
    validate_plan-At cfg =
        Ensures-bind _ _
          (stays i.intent_id pending _ (
            validate-Preserves (At i.intent_id pending)
              (λ c w _ a. call-At i.intent_id pending c w a) _ p))
          (after_validation-At cfg)

    process-At :
        (o : Orchestrator) (dry : Bool)
        → Ensures
            (At i.intent_id pending)
            (process o dry i p)
            (Reported i.intent_id)
            (Somewhere i.intent_id)
    unfolding process edge
    process-At o dry =
        Ensures-if dry _ _ (λ _. Ensures-pure _ λ w a. a)
          λ _.
            Ensures-if p.is_acceptable _ _ (λ _. validate_plan-At o.risk_validator)
              λ _. refuse-At i.intent_id pending _ (allows pending rejected refl) λ w a. a

  abbrev start : Orchestrator → Bool → Intent → Exec World Report
  start o dry i = do create_intent i pending; process o dry i (plan o.registry o.fetch i)

  start-At :
      (o : Orchestrator) (dry : Bool) (i : Intent)
      → Ensures (Unseen i.intent_id) (start o dry i) (Reported i.intent_id) (Anywhere i.intent_id)
  unfolding plan
  start-At o dry i =
      Ensures-bind _ _ (create_intent-At i)
        λ _. Ensures-weaken (process-At i (plan o.registry o.fetch i) refl o dry) λ w. inr

  intent_id-stamped : (i : Intent) (w : World) → (stamped i w).intent_id ≡ i.intent_id
  intent_id-stamped i w = ground arith

  admit-At :
      (o : Orchestrator) (dry : Bool) (i : Intent) (b : Bool)
      → Ensures (Unseen i.intent_id) (admit o dry i b) (Reported i.intent_id) (Anywhere i.intent_id)
  unfolding gets ◌>>=◌
  admit-At o dry i true = Ensures-pure _ λ w a. a
  admit-At o dry i false = record { run = λ w h. started w h }
    where
      started :
          (w : World)
          → Unseen i.intent_id w
          → Met
              (Reported i.intent_id)
              (Anywhere i.intent_id)
              (start o dry (stamped i w) w).0
              (start o dry (stamped i w) w).1
      started w h =
          subst
            (λ id.
              Met (Reported id) (Anywhere id) (start o dry (stamped i w) w).0
                (start o dry (stamped i w) w).1)
            (intent_id-stamped i w) ((start-At o dry (stamped i w)).run w (rw intent_id-stamped h))

  is_blocked-HasTrail :
      (id : String) (t : List IntentStatus) → Preserves (HasTrail id t) is_blocked_by_needs_manual
  unfolding is_blocked_by_needs_manual
  is_blocked-HasTrail id t = Preserves-bind _ _ (connection-HasTrail id t) λ d. Preserves-pure _

  -- A submission of an intent that no audit event names leaves none either if it reports that it is
  -- blocked. Otherwise, if it returns, the audit trail of the intent starts with PENDING, takes
  -- only steps that the transition table allows, and ends by the report: in PENDING for a dry run;
  -- in REJECTED for a plan that is not acceptable, invalid or too risky; in ALL_FILLED; or in the
  -- status of the recovery, ROLLED_BACK or ROLLED_BACK_FAILED. If it raises, the intent is unseen
  -- or on such a trail.
  pub submit-Reported :
      (o : Orchestrator) (i : Intent) (dry : Bool) (w : World)
      → Unseen i.intent_id w
      → Met (Reported i.intent_id) (Anywhere i.intent_id) (submit o i dry w).0 (submit o i dry w).1
  unfolding submit
  submit-Reported o i dry w h =
      (Ensures-bind _ _ (remain i.intent_id _ (is_blocked-HasTrail i.intent_id))
          (admit-At o dry i)).run
        w h
