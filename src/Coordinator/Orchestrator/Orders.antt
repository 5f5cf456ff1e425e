-- ===== src/Coordinator/Orchestrator/Orders.antt =====
-- Which submissions send orders.
use omni_trade.Prelude.{
  ◌≡◌, refl, ap, ◌∙◌, String, Bool, true, false, Option, none, some, List, [], ◌∷◌, ◌++◌,
  append-nil, if◌then◌else◌, arith,
}
use omni_trade.Exec.{Exec, Outcome, returned, raised, pure}
use omni_trade.Exec.Preserves.{Preserves, Preserves-gets}
use omni_trade.Exec.Ensures.{
  Ensures, Ensures-bind, Ensures-if, Ensures-pure, Met-returned, Preserves-Ensures, Met,
}
use omni_trade.Float.{Float}
use omni_trade.Coordinator.StateMachine.{IntentStatus, pending, validated, all_filled}
use omni_trade.Coordinator.Intent.{Intent}
use omni_trade.Coordinator.Plan.{Plan}
use omni_trade.Coordinator.Validator.{ValidationResult}
use omni_trade.Coordinator.Validator.Steps.{is_balance_call, validate-Preserves}
use omni_trade.Coordinator.Risk.{RiskConfig}
use omni_trade.Coordinator.Risk.Steps.{check-Preserves}
use omni_trade.Coordinator.Leg.{LegExecution, ExecutionResult}
use omni_trade.Coordinator.Reconciler.{ReconciliationResult, reconcile}
use omni_trade.Coordinator.Orchestrator.{
  Orchestrator, Report, filled, reconciled, reconciled_with, roll_back, conclude, run_plan, refuse,
  check_risk, after_validation, validate_plan, process, admit, submit,
}
use omni_trade.World.{
  AuditEvent, Call, create_order, fetch_order, cancel_order, set_leverage, fetch_balance,
  fetch_free_margin, market, Entry, audit, call, History, Db, Env, World, log,
}
use omni_trade.Persistence.Store.{update_intent_status}
use omni_trade.Persistence.Steps

module _ ⦃fl : Float⦄ where
  -- The requests that change something at a venue.
  abbrev pub is_action : Call → Bool
  is_action (create_order venue leg_id request) = true
  is_action (cancel_order venue oid symbol params) = true
  is_action (set_leverage venue n symbol params) = true
  is_action _ = false

  abbrev pub acts : Entry → Bool
  acts (call c) = is_action c
  acts (audit e) = false

  -- The actions that the journal shows.
  unfoldable pub actions : History → List Entry
  actions [] = []
  actions (e ∷ es) = if acts e then e ∷ actions es else actions es

  actions-append : (xs ys : History) → actions (xs ++ ys) ≡ actions xs ++ actions ys
  unfolding actions
  actions-append [] ys = refl
  actions-append (x ∷ xs) ys = keep (acts x) x _ _ _ (actions-append xs ys)
    where
      keep :
          (b : Bool) (e : Entry) (zs us vs : History)
          → zs ≡ us ++ vs
          → (if b then e ∷ zs else zs) ≡ (if b then e ∷ us else us) ++ vs
      keep true e zs us vs h = ap (λ t. e ∷ t) h
      keep false e zs us vs h = h

  abbrev pub HasActions : List Entry → World → Type 0
  HasActions done w = actions w.journal ≡ done

  pub actions-log :
      (e : Entry) (w : World) → acts e ≡ false → actions (log e w).journal ≡ actions w.journal
  unfolding actions
  actions-log e w h = actions-append w.journal (e ∷ []) ∙ rw h (append-nil _)

  is_balance_call-acts : (c : Call) → is_balance_call c ≡ true → is_action c ≡ false
  is_balance_call-acts (fetch_balance venue params) h = refl
  is_balance_call-acts (fetch_free_margin venue params) h = refl
  is_balance_call-acts (create_order venue leg_id request) h = absurd (ground arith)
  is_balance_call-acts (cancel_order venue oid symbol params) h = absurd (ground arith)
  is_balance_call-acts (set_leverage venue n symbol params) h = absurd (ground arith)
  is_balance_call-acts (fetch_order venue oid symbol params) h = absurd (ground arith)
  is_balance_call-acts (market venue request) h = absurd (ground arith)

  -- A report that says that nothing was executed.
  abbrev pub is_refusal : Report → Bool
  is_refusal (filled legs) = false
  is_refusal (reconciled r legs) = false
  is_refusal _ = true

  -- What a report says of the actions: they are still `done`, unless the plan was executed.
  abbrev pub Idle : List Entry → Report → World → Type 0
  Idle done (filled legs) w = Unit
  Idle done (reconciled r legs) w = Unit
  Idle done r w = HasActions done w

module _ ⦃fl : Float⦄ ⦃env : Env⦄ (done : List Entry) where
  on_db : (d : Db) (w : World) → HasActions done w → HasActions done (record w { db = some d })
  on_db d w h = h

  on_audit : (e : AuditEvent) (w : World) → HasActions done w → HasActions done (log (audit e) w)
  on_audit e w h = actions-log (audit e) w refl ∙ h

  on_balance :
      (c : Call) (w : World)
      → is_balance_call c ≡ true
      → HasActions done w
      → HasActions done (log (call c) w)
  on_balance c w b h = actions-log (call c) w (is_balance_call-acts c b) ∙ h

  quietly :
      {A : Type 0} (m : Exec World A)
      → Preserves (HasActions done) m
      → Ensures (HasActions done) m (λ _. HasActions done) (λ _. Unit)
  quietly m h = Preserves-Ensures m h λ w _. tt

  anything :
      {A : Type 0} {Pre : World → Type 0} (m : Exec World A)
      → Ensures Pre m (λ _ _. Unit) (λ _. Unit)
  anything m = record { run = λ w _. met_unit (m w).0 (m w).1 }
    where
      met_unit : {A : Type 0} (r : Outcome A) (w : World) → Met (λ _ _. Unit) (λ _. Unit) r w
      met_unit (returned a) w = tt
      met_unit (raised e) w = tt

  write-Idle :
      (id : String) (s : IntentStatus)
      → Ensures (HasActions done) (update_intent_status id s) (λ _. HasActions done) (λ _. Unit)
  write-Idle id s =
      quietly _ (Steps.update_intent_status-Preserves (HasActions done) on_db on_audit id s)

  refuse-Idle :
      (id : String) (r : Report)
      → ((w : World) → HasActions done w → Idle done r w)
      → Ensures (HasActions done) (refuse id r) (Idle done) (λ _. Unit)
  refuse-Idle id r h = Ensures-bind _ _ (write-Idle id _) λ _. Ensures-pure r h

  reconciled_with-Idle :
      (id : String) (r : ReconciliationResult × List LegExecution)
      → Ensures (λ _. Unit) (reconciled_with id r) (Idle done) (λ _. Unit)
  reconciled_with-Idle id r = Ensures-bind _ _ (anything _) λ _. Ensures-pure _ λ w _. tt

  conclude-Idle :
      (id : String) (result : ExecutionResult)
      → Ensures (λ _. Unit) (conclude id result) (Idle done) (λ _. Unit)
  unfolding roll_back
  conclude-Idle id result = by_status result.status
    where
      roll_back-Idle : Ensures (λ _. Unit) (roll_back id result) (Idle done) (λ _. Unit)
      roll_back-Idle = Ensures-bind _ _ (anything _) λ _. record {
        run = λ w h. (reconciled_with-Idle id (reconcile result w).0).run (reconcile result w).1 tt;
      }

      by_status :
          (s : IntentStatus)
          → Ensures
              (λ _. Unit)
              (elim s [ all_filled ↦ pure (filled result.legs) | _ ↦ roll_back id result ])
              (Idle done)
              (λ _. Unit)
      by_status all_filled = Ensures-pure _ λ w _. tt
      by_status _ = roll_back-Idle

  run_plan-Idle :
      (id : String) (p : Plan) → Ensures (HasActions done) (run_plan id p) (Idle done) (λ _. Unit)
  unfolding run_plan
  run_plan-Idle id p = Ensures-bind _ _ (anything _) λ result. conclude-Idle id result

  check_risk-Idle :
      (cfg : Option RiskConfig) (i : Intent) (p : Plan)
      → Ensures (HasActions done) (check_risk cfg i p) (Idle done) (λ _. Unit)
  unfolding check_risk
  check_risk-Idle none i p = run_plan-Idle i.intent_id p
  check_risk-Idle (some cfg) i p =
      Ensures-bind _ _ (quietly _ (check-Preserves (HasActions done) (λ ts w h. h) cfg i p)) λ r.
        Ensures-if r.is_allowed _ _ (λ _. run_plan-Idle i.intent_id p)
          λ _. refuse-Idle i.intent_id _ λ w h. h

  after_validation-Idle :
      (cfg : Option RiskConfig) (i : Intent) (p : Plan) (v : ValidationResult)
      → Ensures (HasActions done) (after_validation cfg i p v) (Idle done) (λ _. Unit)
  after_validation-Idle cfg i p v =
      Ensures-if v.is_valid _ _
        (λ _. Ensures-bind _ _ (write-Idle i.intent_id validated) λ _. check_risk-Idle cfg i p)
        λ _. refuse-Idle i.intent_id _ λ w h. h

  process-Idle :
      (o : Orchestrator) (dry : Bool) (i : Intent) (p : Plan)
      → Ensures (HasActions done) (process o dry i p) (Idle done) (λ _. Unit)
  unfolding process validate_plan
  process-Idle o dry i p =
      Ensures-if dry _ _ (λ _. Ensures-pure _ λ w h. h)
        λ _.
          Ensures-if p.is_acceptable _ _
            (λ _.
              Ensures-bind _ _ (quietly _ (validate-Preserves (HasActions done) on_balance _ p))
                (after_validation-Idle o.risk_validator i p))
            λ _. refuse-Idle i.intent_id _ λ w h. h

  admit-Idle :
      (o : Orchestrator) (dry : Bool) (i : Intent) (b : Bool)
      → Ensures (HasActions done) (admit o dry i b) (Idle done) (λ _. Unit)
  admit-Idle o dry i true = Ensures-pure _ λ w h. h
  admit-Idle o dry i false = Ensures-bind _ _ (quietly _ (Preserves-gets _)) λ j.
      Ensures-bind _ _
        (quietly _ (Steps.create_intent-Preserves (HasActions done) on_db on_audit j pending))
        λ _. process-Idle o dry j _

module _ ⦃fl : Float⦄ ⦃env : Env⦄ where
  Idle-actions :
      (done : List Entry) (r : Report) (w : World)
      → is_refusal r ≡ true
      → Idle done r w
      → HasActions done w
  Idle-actions done (filled legs) w f h = absurd (ground arith)
  Idle-actions done (reconciled r legs) w f h = absurd (ground arith)
  Idle-actions done r w f h = h

  -- A submission that reports a refusal, a dry run or a blocked coordinator has placed no order,
  -- cancelled none and changed no leverage.
  pub submit-idle :
      (o : Orchestrator) (i : Intent) (dry : Bool) (w : World) (r : Report)
      → (submit o i dry w).0 ≡ returned r
      → is_refusal r ≡ true
      → actions (submit o i dry w).1.journal ≡ actions w.journal
  unfolding submit
  submit-idle o i dry w r h f =
      let done = actions w.journal in
      let run =
        Ensures-bind _ _
          (quietly done _
            (Steps.is_blocked-Preserves (HasActions done) (on_db done) (on_audit done)))
          (admit-Idle done o dry i) in
      Idle-actions done r _ f (Met-returned (Idle done) (λ _. Unit) r _ _ h (run.run w refl))
