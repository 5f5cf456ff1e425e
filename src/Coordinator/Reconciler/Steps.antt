-- ===== src/Coordinator/Reconciler/Steps.antt =====
-- The invariants of the executor's tasks are invariants of the reconciler's tasks.
use omni_trade.Prelude.{
  String, Bool, true, false, Option, none, some, List, [], ◌∷◌, Bool-cases, inl, inr,
}
use omni_trade.Exec.{Exec, Error}
use omni_trade.Exec.Preserves.{
  Preserves, Preserves-pure, Preserves-raise, Preserves-bind, Preserves-catch, preserves_rules,
}
use omni_trade.Float.{Float}
use omni_trade.Coordinator.StateMachine.{cancelled}
use omni_trade.World.{Field, Call, create_order, cancel_order, call, Exchange, Env, World, log}
use omni_trade.Persistence.Store.{update_leg}
use omni_trade.Coordinator.Leg.{LegExecution, ExecutionResult, Running, edit, gather}
use omni_trade.Coordinator.Executor.Steps
use omni_trade.Coordinator.Executor.Steps.{Permits, AllKnown}
use omni_trade.Coordinator.Reconciler.{
  LegReconciliation, has_fill, is_cancellable, Compensating, in_world, amend, required_id,
  send_reverse, give_up, compensate_at, compensate, compensate_all, cancel_at, cancel_pending,
  reconcile, new_reconciliation,
}

module _ ⦃fl : Float⦄ ⦃env : Env⦄ (P : World → Type 0) (Known : String → Type 0)
    (on_update : (id : String) (fs : List Field) → Preserves P (update_leg id fs))
    (on_call : (c : Call) (w : World) → Permits Known c → P w → P (log (call c) w)) where
  abbrev Good : Compensating → Type 0
  Good c = P c.world

  in_world-Good : {A : Type 0} (m : Exec World A) → Preserves P m → Preserves Good (in_world m)
  unfolding in_world
  in_world-Good m h = record { run = λ c i. h.run c.world i }

  amend-Good : (f : LegReconciliation → LegReconciliation) → Preserves Good (amend f)
  unfolding amend
  amend-Good f = record { run = λ c i. i }

  update-Good : (id : String) (fs : List Field) → Preserves Good (in_world (update_leg id fs))
  update-Good id fs = in_world-Good _ (on_update id fs)

  required_id-Good : (b : Bool) (oid : Option String) → Preserves Good (required_id b oid)
  required_id-Good false oid = Preserves-raise _
  required_id-Good true oid = Preserves-pure oid

  send_reverse-Good :
      (ex : Exchange) (rec : LegReconciliation) (x : LegExecution)
      → Known rec.leg_id
      → Preserves Good (send_reverse ex rec x)
  unfolding send_reverse
  send_reverse-Good ex rec x k = Preserves-bind _ _ (update-Good _ _) λ _.
      Preserves-bind _ _
        (in_world-Good _
          (Steps.ask-Preserves P Known on_update on_call (create_order _ rec.leg_id _) _ k))
        λ o.
          Preserves-bind _ _ (required_id-Good o.has_id o.id)
            λ id. Preserves-bind _ _ (amend-Good _) λ _. update-Good _ _

  give_up-Good : (rec : LegReconciliation) (e : Error) → Preserves Good (give_up rec e)
  give_up-Good rec e = search (preserves_rules, amend-Good, update-Good)

  compensate_at-Good :
      (rec : LegReconciliation) (x : LegExecution) (ex : Option Exchange)
      → Known rec.leg_id
      → Preserves Good (compensate_at rec x ex)
  compensate_at-Good rec x none k = amend-Good _
  compensate_at-Good rec x (some ex) k =
      Preserves-catch _ _ (send_reverse-Good ex rec x k) (give_up-Good rec)

  compensate_keeps : (x : LegExecution) (w : World) → Known x.leg_id → P w → P (compensate x w).1
  unfolding compensate
  compensate_keeps x w k h =
      (compensate_at-Good (new_reconciliation x) x (env.exchanges x.leg.venue) k).run
        (record { rec = new_reconciliation x; world = w }) h

  pub compensate_all_keeps :
      (legs : List LegExecution) (w : World)
      → AllKnown Known legs
      → P w
      → P (compensate_all legs w).1
  unfolding compensate_all
  compensate_all_keeps [] w k h = h
  compensate_all_keeps (x ∷ xs) w k h = elim (Bool-cases (has_fill x)) [
    | inl yes_fill ↦
        rw yes_fill (compensate_all_keeps xs (compensate x w).1 k.1 (compensate_keeps x w k.0 h))
    | inr no_fill ↦ rw no_fill (compensate_all_keeps xs w k.1 h)
  ]

  abbrev Inv : Running → Type 0
  Inv = Steps.Inv P Known on_update on_call

  cancelled-Inv : Preserves Inv (edit λ y. record y { status = cancelled })
  unfolding edit
  cancelled-Inv = record { run = λ r i. i }

  cancel_at-Inv :
      (x : LegExecution) (ex : Option Exchange) (oid : Option String)
      → Preserves Inv (cancel_at x ex oid)
  cancel_at-Inv x none oid = Preserves-pure tt
  cancel_at-Inv x (some ex) none = Preserves-pure tt
  cancel_at-Inv x (some ex) (some oid) =
      Preserves-catch _ _
        (Preserves-bind _ _
          (Steps.on_world-Inv P Known on_update on_call _
            (Steps.ask-Preserves P Known on_update on_call (cancel_order _ oid _ _) _ tt))
          λ _. Preserves-bind _ _ cancelled-Inv λ _. Steps.update-Inv P Known on_update on_call _ _)
        λ _. Preserves-pure tt

  cancel_pending-Inv : Preserves Inv cancel_pending
  unfolding cancel_pending
  cancel_pending-Inv = record { run = λ r h. (cancel_at-Inv r.lex _ _).run r h }

  pub cancel_all_keeps :
      (legs : List LegExecution) (w : World)
      → AllKnown Known legs
      → P w
      → P (gather is_cancellable cancel_pending legs w).1
  cancel_all_keeps legs w k h =
      (Steps.gather-AllInv P Known on_update on_call is_cancellable cancel_pending legs w
        cancel_pending-Inv h k).0

  -- Compensating and cancelling keeps the invariant.
  pub reconcile_keeps :
      (result : ExecutionResult) (w : World)
      → AllKnown Known result.legs
      → P w
      → P (reconcile result w).1
  unfolding reconcile
  reconcile_keeps result w k h =
      cancel_all_keeps result.legs (compensate_all result.legs w).1 k
        (compensate_all_keeps result.legs w k h)
