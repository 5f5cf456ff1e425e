-- ===== src/Coordinator/Executor/Kept.antt =====
-- No task of the executor changes what a leg is for: its part of the plan and its side.
use omni_trade.Prelude.{
  ℕ, zero, suc, ◌≡◌, refl, ap, ◌∙◌, String, Bool, true, false, not, Option, none, some, List, [],
  ◌∷◌, map, any, if◌then◌else◌, Bool-cases, inl, inr,
}
use omni_trade.Exec.{Exec, Error, not_implemented, gets, ◌>>=◌}
use omni_trade.Exec.Preserves.{
  Preserves, Preserves-pure, Preserves-raise, Preserves-gets, Preserves-bind, Preserves-catch,
  preserves_rules,
}
use omni_trade.Float.{Float, F}
use omni_trade.Coordinator.StateMachine.{LegStatus}
use omni_trade.Coordinator.AccountType.{Order}
use omni_trade.Coordinator.Intent.{Intent}
use omni_trade.Coordinator.Plan.{PlannedLeg, Plan}
use omni_trade.Coordinator.Leg.{
  LegExecution, is_open, is_early_terminate, Running, Task, on_world, edit, run_task, gather,
  required,
}
use omni_trade.Coordinator.Executor.{
  reject, mark_filled, ignore_not_implemented, raise_leverage, record_sent, place, send_to,
  send_order, apply_order, poll_at, poll_leg, poll_loop, poll_fills_http, on_order, on_last, watch,
  confirm_fills, dispatch,
}
use omni_trade.World.{Cause, Exchange, Delivery, Env, World}

module _ ⦃fl : Float⦄ where
  -- The part of the plan that a leg executes, and its side.
  abbrev pub task_of : LegExecution → PlannedLeg × String
  task_of x = (x.leg, x.side)

  abbrev pub tasks_of : List LegExecution → List (PlannedLeg × String)
  tasks_of = map task_of

module _ ⦃fl : Float⦄ ⦃env : Env⦄ (t : PlannedLeg × String) where
  abbrev Kept : Running → Type 0
  Kept r = task_of r.lex ≡ t

  on_world-Kept : {A : Type 0} (m : Exec World A) → Preserves Kept (on_world m)
  unfolding on_world
  on_world-Kept m = record { run = λ r h. h }

  reject-Kept : (c : Cause) → Preserves Kept (reject c)
  unfolding reject edit gets on_world ◌>>=◌
  reject-Kept c = record { run = λ r h. h }

  mark_filled-Kept :
      (o : Order) (fee : F) (oid : Option String) (at : Option F)
      → Preserves Kept (mark_filled o fee oid at)
  unfolding mark_filled edit gets on_world ◌>>=◌
  mark_filled-Kept o fee oid at = record { run = λ r h. h }

  set_status-Kept : (s : LegStatus) → Preserves Kept (edit λ y. record y { status = s })
  unfolding edit
  set_status-Kept s = record { run = λ r h. h }

  set_order-Kept :
      (id : Option String) (fee : F)
      → Preserves Kept (edit λ y. record y { order_id = id; fee = fee })
  unfolding edit
  set_order-Kept id fee = record { run = λ r h. h }

  ignore-Kept : (e : Error) → Preserves Kept (ignore_not_implemented e)
  ignore-Kept not_implemented = Preserves-pure tt
  ignore-Kept e = Preserves-raise e

  raise_leverage-Kept : (x : Exchange) (l : PlannedLeg) → Preserves Kept (raise_leverage x l)
  unfolding raise_leverage
  raise_leverage-Kept x l = search (preserves_rules, ignore-Kept, on_world-Kept)

  record_sent-Kept :
      (o : Order) (leg_id : String) (id : Option String) (at : F)
      → Preserves Kept (record_sent o leg_id id at)
  unfolding record_sent
  record_sent-Kept o leg_id id at =
      search (preserves_rules, mark_filled-Kept, on_world-Kept, set_status-Kept)

  required-Kept : (b : Bool) (oid : Option String) → Preserves Kept (required b oid)
  required-Kept false oid = Preserves-raise _
  required-Kept true oid = Preserves-pure oid

  place-Kept : (ex : Exchange) (i : Intent) (x : LegExecution) → Preserves Kept (place ex i x)
  unfolding place
  place-Kept ex i x = Preserves-bind _ _ (on_world-Kept _) λ o.
      Preserves-bind _ _ (required-Kept o.has_id o.id) λ id.
        Preserves-bind _ _ (set_order-Kept id _)
          λ _. Preserves-bind _ _ (Preserves-gets _) λ at. record_sent-Kept o x.leg_id id at

  send_to-Kept :
      (i : Intent) (x : LegExecution) (ex : Option Exchange) → Preserves Kept (send_to i x ex)
  send_to-Kept i x none = reject-Kept _
  send_to-Kept i x (some ex) =
      Preserves-bind _ _ (raise_leverage-Kept ex x.leg)
        λ _. Preserves-catch _ _ (place-Kept ex i x) λ e. reject-Kept _

  send_order-Kept : (p : Plan) → Preserves Kept (send_order p)
  unfolding send_order
  send_order-Kept p = record { run = λ r h. (send_to-Kept p.intent r.lex _).run r h }

  apply_order-Kept : (o : Order) → Preserves Kept (apply_order o)
  unfolding apply_order
  apply_order-Kept o = search (preserves_rules, mark_filled-Kept, reject-Kept)

  poll_at-Kept :
      (x : LegExecution) (ex : Option Exchange) (oid : Option String)
      → Preserves Kept (poll_at x ex oid)
  poll_at-Kept x none oid = Preserves-pure tt
  poll_at-Kept x (some ex) none = Preserves-pure tt
  poll_at-Kept x (some ex) (some oid) = search (preserves_rules, on_world-Kept, apply_order-Kept)

  poll_leg-Kept : Preserves Kept poll_leg
  unfolding poll_leg
  poll_leg-Kept = record { run = λ r h. (poll_at-Kept r.lex _ _).run r h }

module _ ⦃fl : Float⦄ ⦃env : Env⦄ where
  abbrev KeptBy : Task → Type 0
  KeptBy task = (t : PlannedLeg × String) → Preserves (λ r. task_of r.lex ≡ t) task

  run_task-kept :
      (task : Task) (x : LegExecution) (w : World)
      → KeptBy task
      → task_of (run_task task x w).lex ≡ task_of x
  unfolding run_task
  run_task-kept task x w k = (k (task_of x)).run (record { lex = x; world = w }) refl

  if-kept :
      (b : Bool) (a c : List LegExecution × World) (ts : List (PlannedLeg × String))
      → tasks_of a.0 ≡ ts
      → tasks_of c.0 ≡ ts
      → tasks_of (if b then a else c).0 ≡ ts
  if-kept true a c ts ha hc = ha
  if-kept false a c ts ha hc = hc

  pub gather-kept :
      (p : LegExecution → Bool) (task : Task) (legs : List LegExecution) (w : World)
      → KeptBy task
      → tasks_of (gather p task legs w).0 ≡ tasks_of legs
  unfolding gather
  gather-kept p task [] w k = refl
  gather-kept p task (x ∷ xs) w k = elim (Bool-cases (p x)) [
    | inl yes_p ↦
        rw (yes_p, run_task-kept task x w k, gather-kept p task xs (run_task task x w).world k) refl
    | inr no_p ↦ rw (no_p, gather-kept p task xs w k) refl
  ]

  poll_loop-kept :
      (n : ℕ) (legs : List LegExecution) (w : World)
      → tasks_of (poll_loop n legs w).0 ≡ tasks_of legs
  unfolding poll_loop
  poll_loop-kept zero legs w = refl
  poll_loop-kept (suc n) legs w =
      let polled = gather-kept is_open poll_leg legs w poll_leg-Kept in
      let (legs', w') = gather is_open poll_leg legs w in
      if-kept (not (any is_open legs)) (legs, w) _ _ refl
        (if-kept (is_early_terminate legs') (legs', w') _ _ polled
          (poll_loop-kept n legs' w' ∙ polled))

  poll_fills_http-kept :
      (n : ℕ) (legs : List LegExecution) (w : World)
      → tasks_of (poll_fills_http n legs w).0 ≡ tasks_of legs
  unfolding poll_fills_http
  poll_fills_http-kept zero legs w = refl
  poll_fills_http-kept (suc n) legs w =
      poll_loop-kept n _ _ ∙ gather-kept is_open poll_leg legs w poll_leg-Kept

  on_last-kept :
      (p : LegExecution → Bool) (task : Task) (legs : List LegExecution) (w : World)
      → KeptBy task
      → tasks_of (on_last p task legs w).0 ≡ tasks_of legs
  unfolding on_last
  on_last-kept p task [] w k = refl
  on_last-kept p task (x ∷ xs) w k =
      if-kept (any p xs) _ _ _ (ap (λ ts. task_of x ∷ ts) (on_last-kept p task xs w k))
        (if-kept (p x) _ (x ∷ xs, w) _ (ap (λ t. t ∷ tasks_of xs) (run_task-kept task x w k)) refl)

  on_order-kept :
      (o : Order) (oid : Option String) (legs : List LegExecution) (w : World)
      → tasks_of (on_order o oid legs w).0 ≡ tasks_of legs
  on_order-kept o none legs w = refl
  on_order-kept o (some oid) legs w = on_last-kept _ _ legs w (λ t. apply_order-Kept t o)

  watch-kept :
      (ds : List Delivery) (legs : List LegExecution) (w : World)
      → tasks_of (watch ds legs w).0 ≡ tasks_of legs
  unfolding watch
  watch-kept [] legs w = refl
  watch-kept (d ∷ ds) legs w =
      watch-kept ds _ _ ∙ if-kept _ _ (legs, w) _ (on_order-kept d.order d.order.id legs w) refl

  -- Sending and confirming leaves every leg with its task.
  pub dispatch-kept :
      (p : Plan) (legs : List LegExecution) (w : World)
      → tasks_of (dispatch p legs w).0 ≡ tasks_of legs
  unfolding dispatch confirm_fills
  dispatch-kept p legs w =
      let sent = gather-kept (λ _. true) (send_order p) legs w (λ t. send_order-Kept t p) in
      let (legs', w') = gather (λ _. true) (send_order p) legs w in
      let ds = if env.use_websocket then env.deliveries w'.journal else [] in
      if-kept (any is_open legs') _ (legs', w') _
        (poll_fills_http-kept _ (watch ds legs' w').0 (watch ds legs' w').1
          ∙ (watch-kept ds legs' w' ∙ sent))
        sent
