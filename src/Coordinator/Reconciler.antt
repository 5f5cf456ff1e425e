-- ===== src/Coordinator/Reconciler.antt =====
-- src/coordinator/reconciler.py: reverse orders for the filled legs, cancellations for the open ones.
pub mod Steps
pub mod Records
use omni_trade.Prelude.{
  String, Bool, true, false, ◌&&◌, ◌||◌, ◌==◌, Option, none, some, or_else, List, [], ◌∷◌, all,
  is_empty, if◌then◌else◌,
}
use omni_trade.Exec.{
  Exec, Error, key_error, Outcome, returned, pure, raise, gets, catch, ◌>>=◌, ◌>>◌,
}
use omni_trade.Float.{Float, F, nought}
use omni_trade.Coordinator.StateMachine.{
  LegStatus, pending_send, sent, filled, partial_filled, timeout, cancelled, compensating,
  compensated, compensation_failed, IntentStatus,
}
use omni_trade.Coordinator.AccountType.{
  account_type_params, compensation_order_params, Order, or_option, extract_fee_usd,
}
use omni_trade.World.{
  status, compensation_order_id, compensation_filled_amount, compensation_avg_price,
  compensation_fee_usd, OrderRequest, create_order, cancel_order, Exchange, Env, World, ask,
}
use omni_trade.Persistence.Store.{update_leg}
use omni_trade.Coordinator.Leg.{
  LegExecution, ExecutionResult, Task, edit, on_world, or_nothing, is_order, gather,
}

module _ ⦃fl : Float⦄ where
  pub data CompensationStatus : Type 0 where
    open_yet done failed : CompensationStatus

  pub record LegReconciliation : Type 0 where
    pub leg_id : String
    pub original_order_id : String
    pub reverse_side : String
    pub compensation_order_id : Option String
    pub compensation_status : CompensationStatus
    pub filled_amount : F

  pub record ReconciliationResult : Type 0 where
    pub status : IntentStatus
    pub legs : List LegReconciliation
    pub residual_exposure_usd : F

  -- `lex.status in ("FILLED", "PARTIAL_FILLED") and lex.filled_amount > 0`
  abbrev pub has_fill : LegExecution → Bool
  has_fill x =
      (elim x.status [ filled ↦ true | partial_filled ↦ true | _ ↦ false ])
      && fl.lt nought x.filled_amount

  -- The `elif`.
  abbrev pub is_cancellable : LegExecution → Bool
  is_cancellable x =
      if has_fill x
      then false
      else (elim x.status [ sent ↦ true | pending_send ↦ true | timeout ↦ true | _ ↦ false ])
        && is_order x.order_id

  abbrev pub opposite : String → String
  opposite side = if side == "buy" then "sell" else "buy"

  abbrev pub new_reconciliation : LegExecution → LegReconciliation
  new_reconciliation x = record {
    leg_id = x.leg_id;
    original_order_id = or_else x.order_id "";
    reverse_side = opposite x.side;
    compensation_order_id = none;
    compensation_status = open_yet;
    filled_amount = x.filled_amount;
  }

  abbrev pub reference_price : LegExecution → Option F
  reference_price x = or_option x.avg_price (or_nothing x.leg.estimated_fill.avg_price)

  unfoldable pub reverse_request : LegReconciliation → LegExecution → OrderRequest
  reverse_request rec x = record {
    symbol = x.leg.instrument.venue_symbol;
    order_type = "market";
    side = rec.reverse_side;
    amount = rec.filled_amount;
    price = reference_price x;
    params = compensation_order_params x.leg.instrument.market_type;
  }

  -- The task of a compensation changes its record and the world.
  pub record Compensating : Type 0 where
    pub rec : LegReconciliation
    pub world : World

  abbrev pub Work : Type 0 → Type 0
  Work A = Exec Compensating A

  unfoldable pub in_world : {A : Type 0} → Exec World A → Work A
  in_world m c = let (a, w) = m c.world in (a, record c { world = w })

  unfoldable pub amend : (LegReconciliation → LegReconciliation) → Work (Unit {0})
  amend f c = (returned tt, record c { rec = f c.rec })

  -- `order["id"]`
  abbrev pub required_id : Bool → Option String → Work (Option String)
  required_id false id = raise key_error
  required_id true id = pure id

  abbrev pub is_done : LegReconciliation → Bool
  is_done r = elim r.compensation_status [ done ↦ true | _ ↦ false ]

  unfoldable pub residual : F → List LegReconciliation → F
  residual acc [] = acc
  residual acc (r ∷ rs) =
      residual (elim r.compensation_status [ failed ↦ fl.add acc r.filled_amount | _ ↦ acc ]) rs

  abbrev pub recovery_status : List LegReconciliation → IntentStatus
  recovery_status recs =
      if is_empty recs || all is_done recs
      then IntentStatus.rolled_back
      else IntentStatus.rolled_back_failed

module _ ⦃fl : Float⦄ ⦃env : Env⦄ where
  -- The `try` block.
  unfoldable pub send_reverse : Exchange → LegReconciliation → LegExecution → Work (Unit {0})
  send_reverse ex rec x =
      let request = reverse_request rec x in
      do
        in_world (update_leg rec.leg_id (status compensating ∷ []))
        order ←
            in_world
              (ask (create_order x.leg.venue rec.leg_id request) (λ h. ex.create_order h request))
        id ← required_id order.has_id order.id
        amend λ r. record r { compensation_order_id = id; compensation_status = done }
        in_world (
            update_leg rec.leg_id (
              status compensated
              ∷ compensation_order_id id
              ∷ compensation_filled_amount (some rec.filled_amount)
              ∷ compensation_avg_price
                  (or_option order.average (or_option order.price (reference_price x)))
              ∷ compensation_fee_usd (some (extract_fee_usd order))
              ∷ []))

  abbrev pub give_up : LegReconciliation → Error → Work (Unit {0})
  give_up rec e = do
    amend λ r. record r { compensation_status = failed }
    in_world (update_leg rec.leg_id (status compensation_failed ∷ []))

  abbrev pub compensate_at : LegReconciliation → LegExecution → Option Exchange → Work (Unit {0})
  compensate_at rec x none = amend λ r. record r { compensation_status = failed }
  compensate_at rec x (some ex) = catch (send_reverse ex rec x) (give_up rec)

  unfoldable pub compensate : LegExecution → World → LegReconciliation × World
  unfolding send_reverse
  compensate x w =
      let rec = new_reconciliation x in
      let c =
        (compensate_at rec x (env.exchanges x.leg.venue) (record { rec = rec; world = w })).1 in
      (c.rec, c.world)

  -- The tasks for the filled legs.
  unfoldable pub compensate_all : List LegExecution → World → List LegReconciliation × World
  unfolding compensate
  compensate_all [] w = ([], w)
  compensate_all (x ∷ xs) w =
      let (rec, w') = compensate x w in
      let (recs, w'') = compensate_all xs w' in
      let skipped = compensate_all xs w in if has_fill x then (rec ∷ recs, w'') else skipped

  abbrev pub cancel_at : LegExecution → Option Exchange → Option String → Task
  cancel_at x none oid = pure tt
  cancel_at x (some ex) none = pure tt
  cancel_at x (some ex) (some oid) =
      let inst = x.leg.instrument in
      let params = account_type_params inst.market_type in
      catch
        (do
          on_world (
              ask (cancel_order x.leg.venue oid inst.venue_symbol params)
                (λ h. ex.cancel_order h oid inst.venue_symbol params))
          edit λ y. record y { status = cancelled }
          on_world (update_leg x.leg_id (status cancelled ∷ [])))
        λ _. pure tt

  unfoldable pub cancel_pending : Task
  cancel_pending r = cancel_at r.lex (env.exchanges r.lex.leg.venue) r.lex.order_id r

  -- `Reconciler.reconcile`. The cancellations change the legs of the result in place, so these come
  -- back too.
  unfoldable pub reconcile :
      ExecutionResult → World → (ReconciliationResult × List LegExecution) × World
  unfolding compensate_all gather cancel_pending residual
  reconcile result w =
      let (recs, w') = compensate_all result.legs w in
      let (legs, w'') = gather is_cancellable cancel_pending result.legs w' in
      (
        (
          record {
            status = recovery_status recs;
            legs = recs;
            residual_exposure_usd = residual nought recs;
          },
          legs,
        ),
        w'',
      )
