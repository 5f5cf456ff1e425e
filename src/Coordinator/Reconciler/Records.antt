-- ===== src/Coordinator/Reconciler/Records.antt =====
-- The records of the compensations: one for each filled leg, and each of them decided.
use omni_trade.Prelude.{
  ◌≡◌, refl, ◌⊎◌, inl, inr, String, Bool, true, false, ◌&&◌, Option, none, some, List, [], ◌∷◌,
  ◌==◌, if◌then◌else◌, select, all, Bool-cases,
}
use omni_trade.Exec.{Exec, Outcome, returned, raised}
use omni_trade.Exec.Preserves.{Preserves, Preserves-pure, Preserves-raise}
use omni_trade.Exec.Ensures.{Ensures, Ensures-bind, Ensures-catch, Preserves-Ensures, Met}
use omni_trade.Float.{Float, F, nought}
use omni_trade.Coordinator.StateMachine.{rolled_back, rolled_back_failed}
use omni_trade.Coordinator.Leg.{LegExecution, ExecutionResult, gather}
use omni_trade.Coordinator.AccountType.{Order}
use omni_trade.Coordinator.Executor.Steps.{Permits}
use omni_trade.Coordinator.Orchestrator.Trail.{all_units}
use omni_trade.Coordinator.Reconciler.Steps.{compensate_all_keeps, cancel_all_keeps}
use mathlib.Core.List.{Memᴰ}
use mathlib.Core.List.Memᴰ
use omni_trade.Persistence.Steps as Store
use omni_trade.Persistence.Store.{update_leg}
use omni_trade.Coordinator.Reconciler.{
  CompensationStatus, open_yet, done, failed, LegReconciliation, has_fill, is_cancellable,
  cancel_pending, reverse_request, new_reconciliation, Compensating, Work, in_world, amend,
  required_id, is_done, residual, recovery_status, send_reverse, compensate_at, compensate,
  compensate_all, reconcile,
}
use omni_trade.World.{
  Field, OrderRequest, Call, create_order, Entry, call, audit, Exchange, Env, World, log, ask,
}

module _ ⦃fl : Float⦄ where
  abbrev pub other_side : String → String
  other_side side = if side == "buy" then "sell" else "buy"

  -- The record is about the leg `x`: for its other side and its filled amount.
  pub record About (x : LegExecution) (r : LegReconciliation) : Type 0 where
    pub leg_id : r.leg_id ≡ x.leg_id
    pub reverse_side : r.reverse_side ≡ other_side x.side
    pub filled_amount : r.filled_amount ≡ x.filled_amount

  -- A market order on the other side, for the filled amount of the leg, was sent to its venue.
  pub record Ordered (x : LegExecution) (w : World) : Type 0 where
    pub request : OrderRequest
    pub sent : Memᴰ (call (create_order x.leg.venue x.leg_id request)) w.journal
    pub symbol : request.symbol ≡ x.leg.instrument.venue_symbol
    pub order_type : request.order_type ≡ "market"
    pub side : request.side ≡ other_side x.side
    pub amount : request.amount ≡ x.filled_amount

  -- The compensation is decided: done, with an order that was sent, or failed.
  abbrev pub Decided : LegExecution → LegReconciliation → World → Type 0
  Decided x r w = ((r.compensation_status ≡ done) × Ordered x w) ⊎ (r.compensation_status ≡ failed)

  -- One decided record for each leg, in order.
  pub data Records (w : World) : List LegExecution → List LegReconciliation → Type 0 where
    nothing : Records w [] []
    also :
        {x : LegExecution} {r : LegReconciliation} {xs : List LegExecution}
        {rs : List LegReconciliation}
        → About x r
        → Decided x r w
        → Records w xs rs
        → Records w (x ∷ xs) (r ∷ rs)

  later_Decided :
      (x : LegExecution) (r : LegReconciliation) (w v : World)
      → (Ordered x w → Ordered x v)
      → Decided x r w
      → Decided x r v
  later_Decided x r w v h (inl (d, o)) = inl (d, h o)
  later_Decided x r w v h (inr f) = inr f

  later_Records :
      (w v : World) (xs : List LegExecution) (rs : List LegReconciliation)
      → ((x : LegExecution) → Ordered x w → Ordered x v)
      → Records w xs rs
      → Records v xs rs
  later_Records w v [] [] h nothing = nothing
  later_Records w v [] (r ∷ rs) h k = elim k [ ]
  later_Records w v (x ∷ xs) [] h k = elim k [ ]
  later_Records w v (x ∷ xs) (r ∷ rs) h (also a d more) =
      also a (later_Decided x r w v (h x) d) (later_Records w v xs rs h more)

  done_adds_nothing :
      (s : CompensationStatus) (acc amount : F) (b : Bool)
      → ((elim s [ done ↦ true | _ ↦ false ]) && b) ≡ true
      → ((elim s [ failed ↦ fl.add acc amount | _ ↦ acc ]) ≡ acc) × (b ≡ true)
  done_adds_nothing done acc amount b h = (refl, h)
  done_adds_nothing failed acc amount b h = absurd (cc h)
  done_adds_nothing open_yet acc amount b h = absurd (cc h)

  residual-done :
      (acc : F) (rs : List LegReconciliation) → all is_done rs ≡ true → residual acc rs ≡ acc
  unfolding residual
  residual-done acc [] h = refl
  residual-done acc (r ∷ rs) h =
      let one = done_adds_nothing r.compensation_status acc r.filled_amount (all is_done rs) h in
      rw one.0 (residual-done acc rs one.1)

  abbrev pub RecoveredAs : List LegReconciliation → Type 0
  RecoveredAs rs =
      ((recovery_status rs ≡ rolled_back) × (all is_done rs ≡ true) × (residual nought rs ≡ nought))
      ⊎ ((recovery_status rs ≡ rolled_back_failed) × (all is_done rs ≡ false))

  recovery_status-RecoveredAs : (rs : List LegReconciliation) → RecoveredAs rs
  recovery_status-RecoveredAs [] = inl (refl, refl, residual-done nought [] refl)
  recovery_status-RecoveredAs (r ∷ rs) = elim (Bool-cases (all is_done (r ∷ rs))) [
    | inl every ↦ inl (rw every refl, every, residual-done nought (r ∷ rs) every)
    | inr some_failed ↦ inr (rw some_failed refl, some_failed)
  ]

module _ ⦃fl : Float⦄ ⦃env : Env⦄ (x : LegExecution) where
  later_Ordered :
      (w v : World)
      → ((e : Entry) → Memᴰ e w.journal → Memᴰ e v.journal)
      → Ordered x w
      → Ordered x v
  later_Ordered w v k h = record {
    request = h.request;
    sent = k _ h.sent;
    symbol = h.symbol;
    order_type = h.order_type;
    side = h.side;
    amount = h.amount;
  }

  log-Ordered : (e : Entry) (w : World) → Ordered x w → Ordered x (log e w)
  log-Ordered e w = later_Ordered w (log e w) λ a m. Memᴰ.append_left (e ∷ []) m

  update-Ordered : (id : String) (fs : List Field) → Preserves (Ordered x) (update_leg id fs)
  update-Ordered id fs =
      Store.update_leg-Preserves (Ordered x)
        (λ d w. later_Ordered w (record w { db = some d }) λ a m. m)
        (λ e w h. log-Ordered (audit e) w h) id fs

  call-Ordered :
      (c : Call) (w : World) → Permits (λ _. Unit) c → Ordered x w → Ordered x (log (call c) w)
  call-Ordered c w _ h = log-Ordered (call c) w h

  compensate_all-Ordered :
      (legs : List LegExecution) (w : World) → Ordered x w → Ordered x (compensate_all legs w).1
  compensate_all-Ordered legs w h =
      compensate_all_keeps (Ordered x) (λ _. Unit) update-Ordered call-Ordered legs w
        (all_units legs) h

  cancel_all-Ordered :
      (legs : List LegExecution) (w : World)
      → Ordered x w
      → Ordered x (gather is_cancellable cancel_pending legs w).1
  cancel_all-Ordered legs w h =
      cancel_all_keeps (Ordered x) (λ _. Unit) update-Ordered call-Ordered legs w (all_units legs) h

  abbrev Open : Compensating → Type 0
  Open c = About x c.rec

  -- The order is out, and the record is not decided yet.
  abbrev Sent : Compensating → Type 0
  Sent c = About x c.rec × Ordered x c.world

  abbrev Closed : Compensating → Type 0
  Closed c = About x c.rec × Decided x c.rec c.world

  in_world-Open : {A : Type 0} (m : Exec World A) → Preserves Open (in_world m)
  unfolding in_world
  in_world-Open m = record { run = λ c h. h }

  update-Closed : (id : String) (fs : List Field) → Preserves Closed (in_world (update_leg id fs))
  unfolding in_world
  update-Closed id fs = record {
    run = λ c h. (h.0, later_Decided x c.rec c.world _ ((update-Ordered id fs).run c.world) h.1);
  }

  required_id-Sent : (b : Bool) (oid : Option String) → Preserves Sent (required_id b oid)
  required_id-Sent false oid = Preserves-raise _
  required_id-Sent true oid = Preserves-pure oid

  opened-Open : (c : Compensating) → Sent c → Open c
  opened-Open c h = h.0

  stays-Open : {A : Type 0} (m : Work A) → Preserves Open m → Ensures Open m (λ _. Open) Open
  stays-Open m h = Preserves-Ensures m h λ c k. k

  order-Sent :
      (ex : Exchange) (rec : LegReconciliation)
      → About x rec
      → Ensures Open
          (in_world (
            ask
              (create_order x.leg.venue rec.leg_id (reverse_request rec x))
              (λ h. ex.create_order h (reverse_request rec x))))
          (λ _. Sent)
          Open
  unfolding in_world ask reverse_request
  order-Sent ex rec a = record {
    run = λ c h. answered c (ex.create_order c.world.journal (reverse_request rec x)) h;
  }
    where
      answered :
          (c : Compensating) (o : Outcome Order)
          → Open c
          → Met
              (λ _. Sent)
              Open
              o
              (record c {
                world =
                    log
                      (call (create_order x.leg.venue rec.leg_id (reverse_request rec x)))
                      c.world;
              })
      answered c (raised e) h = h
      answered c (returned order) h = (
        h,
        record {
          request = reverse_request rec x;
          sent = Memᴰ.append_right c.world.journal (Memᴰ.head (rw a.leg_id refl));
          symbol = refl;
          order_type = refl;
          side = a.reverse_side;
          amount = a.filled_amount;
        },
      )

  record_done :
      (id : Option String)
      → Ensures Sent
          (amend λ r. record r { compensation_order_id = id; compensation_status = done })
          (λ _. Closed)
          Open
  unfolding amend
  record_done id = record {
    run = λ c h. (
      record {
        leg_id = h.0.leg_id;
        reverse_side = h.0.reverse_side;
        filled_amount = h.0.filled_amount;
      },
      inl (refl, h.1),
    );
  }

  record_failed :
      Ensures Open (amend λ r. record r { compensation_status = failed }) (λ _. Closed) Closed
  unfolding amend
  record_failed = record {
    run = λ c h. (
      record { leg_id = h.leg_id; reverse_side = h.reverse_side; filled_amount = h.filled_amount },
      inr refl,
    );
  }

  send_reverse-Closed :
      (ex : Exchange) (rec : LegReconciliation)
      → About x rec
      → Ensures Open (send_reverse ex rec x) (λ _. Closed) Open
  unfolding send_reverse
  send_reverse-Closed ex rec a = Ensures-bind _ _ (stays-Open _ (in_world-Open _)) λ _.
      Ensures-bind _ _ (order-Sent ex rec a) λ order.
        Ensures-bind _ _ (Preserves-Ensures _ (required_id-Sent order.has_id order.id) opened-Open)
          λ id.
            Ensures-bind _ _ (record_done id)
              λ _. Preserves-Ensures _ (update-Closed _ _) λ c h. h.0

  compensate_at-Closed :
      (rec : LegReconciliation) (ex : Option Exchange)
      → About x rec
      → Ensures Open (compensate_at rec x ex) (λ _. Closed) Closed
  compensate_at-Closed rec none a = record_failed
  compensate_at-Closed rec (some ex) a =
      Ensures-catch _ _ (send_reverse-Closed ex rec a)
        λ e. Ensures-bind _ _ record_failed λ _. Preserves-Ensures _ (update-Closed _ _) λ c h. h

  either_way : (o : Outcome (Unit {0})) (c : Compensating) → Met (λ _. Closed) Closed o c → Closed c
  either_way (returned a) c h = h
  either_way (raised e) c h = h

  About-new : About x (new_reconciliation x)
  About-new = record { leg_id = refl; reverse_side = refl; filled_amount = refl }

  compensate-Closed :
      (w : World) → About x (compensate x w).0 × Decided x (compensate x w).0 (compensate x w).1
  unfolding compensate
  compensate-Closed w = either_way _ _ (
      (compensate_at-Closed (new_reconciliation x) (env.exchanges x.leg.venue) About-new).run
        (record { rec = new_reconciliation x; world = w }) About-new)

module _ ⦃fl : Float⦄ ⦃env : Env⦄ where
  compensate_all-Records :
      (legs : List LegExecution) (w : World)
      → Records (compensate_all legs w).1 (select has_fill legs) (compensate_all legs w).0
  unfolding compensate_all
  compensate_all-Records [] w = nothing
  compensate_all-Records (x ∷ xs) w = elim (Bool-cases (has_fill x)) [
    | inl yes_fill ↦
        let one = compensate-Closed x w in
        let kept =
          later_Decided x (compensate x w).0 (compensate x w).1 _
            (compensate_all-Ordered x xs (compensate x w).1) one.1 in
        rw yes_fill (also one.0 kept (compensate_all-Records xs (compensate x w).1))
    | inr no_fill ↦ rw no_fill (compensate_all-Records xs w)
  ]

  -- The reconciler has one record for each leg with a fill, in the order of the legs, for the other
  -- side and the filled amount. Its compensation has failed, or it is done, and then a market order
  -- for the leg on the other side and for the filled amount was sent to the venue.
  pub reconcile-Records :
      (result : ExecutionResult) (w : World)
      → Records (reconcile result w).1 (select has_fill result.legs) (reconcile result w).0.0.legs
  unfolding reconcile
  reconcile-Records result w =
      let (recs, v) = compensate_all result.legs w in
      later_Records v _ (select has_fill result.legs) recs
        (λ x h. cancel_all-Ordered x result.legs v h) (compensate_all-Records result.legs w)

  -- Rolled back means that every compensation is done, so nothing is left over, and otherwise the
  -- status is the one that blocks further intents.
  pub reconcile-status :
      (result : ExecutionResult) (w : World)
      → let r = (reconcile result w).0.0 in
        ((r.status ≡ rolled_back)
          × (all is_done r.legs ≡ true)
          × (r.residual_exposure_usd ≡ nought))
        ⊎ ((r.status ≡ rolled_back_failed) × (all is_done r.legs ≡ false))
  unfolding reconcile
  reconcile-status result w = recovery_status-RecoveredAs (compensate_all result.legs w).0
