-- ===== src/Coordinator/Executor.antt =====
-- src/coordinator/executor.py: persist, send, confirm.
pub mod Steps
pub mod Kept
pub mod Tasks
use omni_trade.Prelude.{
  exceeds, ℕ, zero, suc, ltb, String, Bool, true, false, not, ◌&&◌, ◌||◌, ◌==◌, Option, none, some,
  List, [], ◌∷◌, ◌++◌, all, any, if◌then◌else◌,
}
use omni_trade.Exec.{
  Exec, Error, not_implemented, key_error, Outcome, returned, raised, pure, raise, gets, catch,
  ◌>>=◌, ◌>>◌,
}
use omni_trade.Float.{Float, F, nought}
use omni_trade.Market.Instrument.{Instrument, of_int}
use omni_trade.Coordinator.StateMachine.{
  LegStatus, pending_send, sent, filled, rejected, timeout, cancelled, IntentStatus,
}
use omni_trade.Coordinator.AccountType.{
  Params, account_type_params, Order, or_number, or_option, extract_fee_usd,
}
use omni_trade.Coordinator.Intent.{Intent}
use omni_trade.Coordinator.Plan.{PlannedLeg, Plan}
use omni_trade.World.{
  Cause, text, exception, Field, status, error_msg, order_id, sent_at, filled_amount, avg_price,
  fee_usd, OrderRequest, Call, create_order, fetch_order, set_leverage, Exchange, Delivery, Env,
  LegRow, World, ask,
}
use omni_trade.Persistence.Store.{update_intent_status, create_leg, update_leg}
use omni_trade.Coordinator.Leg.{
  ExecutionResult, LegExecution, Running, Task, edit, fresh, gather, has_order, has_status,
  is_active, is_early_terminate, is_failed, is_open, is_order, is_status_filled, on_world, or_id,
  or_nothing, order_params, order_price, order_request, overall, percent, read_id, required, row_of,
  run_task, slippage_param, timed_out,
}

module _ ⦃fl : Float⦄ ⦃env : Env⦄ where
  unfoldable pub reject : Cause → Task
  reject cause = do
    edit λ x. record x { status = rejected; error = some cause }
    id ← gets (λ r. r.lex.leg_id)
    on_world (update_leg id (status rejected ∷ error_msg cause ∷ []))

  unfoldable pub mark_filled : Order → F → Option String → Option F → Task
  mark_filled o fee oid at = do
    edit λ x. record x {
      status = filled;
      filled_amount = or_number o.filled x.leg.planned_qty_base;
      avg_price = o.average;
      fee = fee;
    }
    x ← gets (λ r. r.lex)
    on_world (
        update_leg x.leg_id (
          status filled
          ∷ order_id (or_id oid x.order_id)
          ∷ sent_at at
          ∷ filled_amount (some x.filled_amount)
          ∷ avg_price x.avg_price
          ∷ fee_usd (some fee)
          ∷ []))

  -- `set_leverage`, best effort: only `NotImplementedError` is passed over.
  abbrev pub ignore_not_implemented : Error → Task
  ignore_not_implemented not_implemented = pure tt
  ignore_not_implemented e = raise e

  unfoldable pub raise_leverage : Exchange → PlannedLeg → Task
  raise_leverage x l =
      let inst = l.instrument in
      let params = account_type_params inst.market_type in
      if inst.market_type == "perp" && exceeds 1 l.leverage
      then catch
          (on_world (
            ask (set_leverage l.venue l.leverage inst.venue_symbol params)
              (λ h. x.set_leverage h l.leverage inst.venue_symbol params)))
          ignore_not_implemented
      else pure tt

  -- `if order.get("status") == "closed"`, and otherwise the order has only been sent.
  unfoldable pub record_sent : Order → String → Option String → F → Task
  unfolding mark_filled
  record_sent o leg_id id at =
      if has_status "closed" o then mark_filled o (extract_fee_usd o) id (some at) else (do
        edit λ y. record y { status = sent }
        on_world (
            update_leg leg_id (
              status sent
              ∷ order_id id
              ∷ sent_at (some at)
              ∷ fee_usd (some (extract_fee_usd o))
              ∷ [])))

  -- The `try` block: the order, and what its answer says.
  unfoldable pub place : Exchange → Intent → LegExecution → Task
  unfolding record_sent
  place ex i x =
      let request = order_request i x in
      do
        order ←
            on_world
              (ask (create_order x.leg.venue x.leg_id request) (λ h. ex.create_order h request))
        id ← read_id order
        edit λ y. record y { order_id = id; fee = extract_fee_usd order }
        at ← gets (λ r. env.time r.world.journal)
        record_sent order x.leg_id id at

  abbrev pub send_to : Intent → LegExecution → Option Exchange → Task
  send_to i x none = reject (text "no exchange for venue")
  send_to i x (some ex) = do raise_leverage ex x.leg; catch (place ex i x) λ e. reject (exception e)

  unfoldable pub send_order : Plan → Task
  unfolding reject raise_leverage place
  send_order p r = send_to p.intent r.lex (env.exchanges r.lex.leg.venue) r

  -- What a polled or delivered order does to its leg.
  unfoldable pub apply_order : Order → Task
  unfolding mark_filled reject
  apply_order o =
      if has_status "closed" o
      then mark_filled o (extract_fee_usd o) none none
      else if has_status "canceled" o
      then reject (text "order canceled by venue")
      else pure tt

  abbrev pub poll_at : LegExecution → Option Exchange → Option String → Task
  poll_at x none oid = pure tt
  poll_at x (some ex) none = pure tt
  poll_at x (some ex) (some oid) =
      let inst = x.leg.instrument in
      let params = account_type_params inst.market_type in
      catch
        (do
          order ← on_world (
              ask (fetch_order x.leg.venue oid inst.venue_symbol params)
                (λ h. ex.fetch_order h oid inst.venue_symbol params))
          apply_order order)
        λ _. pure tt

  unfoldable pub poll_leg : Task
  unfolding apply_order
  poll_leg r = poll_at r.lex (env.exchanges r.lex.leg.venue) r.lex.order_id r

  -- The loop of `_poll_fills_http` after its first round: a round is left for each start before the
  -- deadline. The list `unfilled` is at all times the open legs of `all_legs`.
  unfoldable pub poll_loop : ℕ → List LegExecution → World → List LegExecution × World
  unfolding gather poll_leg is_early_terminate
  poll_loop zero legs w = (legs, w)
  poll_loop (suc rounds) legs w =
      let (legs', w') = gather is_open poll_leg legs w in
      let rest = poll_loop rounds legs' w' in
      if not (any is_open legs)
      then (legs, w)
      else if is_early_terminate legs'
      then (legs', w')
      else rest

  unfoldable pub poll_fills_http : ℕ → List LegExecution → World → List LegExecution × World
  unfolding poll_loop
  poll_fills_http zero legs w = (legs, w)
  poll_fills_http (suc rounds) legs w =
      let (legs', w') = gather is_open poll_leg legs w in poll_loop rounds legs' w'

  unfoldable pub on_last :
      (LegExecution → Bool) → Task → List LegExecution → World → List LegExecution × World
  unfolding run_task
  on_last p task [] w = ([], w)
  on_last p task (x ∷ xs) w =
      let later = on_last p task xs w in
      let r = run_task task x w in
      if any p xs
      then (x ∷ later.0, later.1)
      else if p x
      then (r.lex ∷ xs, r.world)
      else (x ∷ xs, w)

  abbrev pub on_order :
      Order → Option String → List LegExecution → World → List LegExecution × World
  on_order o none legs w = (legs, w)
  on_order o (some oid) legs w = on_last (has_order oid) (apply_order o) legs w

  abbrev pub deliver : Delivery → List LegExecution → World → List LegExecution × World
  deliver d legs w =
      if any (is_active d.venue) legs then on_order d.order d.order.id legs w else (legs, w)

  -- The watching tasks of all venues, by the order in which their messages come.
  unfoldable pub watch : List Delivery → List LegExecution → World → List LegExecution × World
  unfolding on_last apply_order
  watch [] legs w = (legs, w)
  watch (d ∷ ds) legs w = let (legs', w') = deliver d legs w in watch ds legs' w'

  unfoldable pub confirm_fills : List LegExecution → World → List LegExecution × World
  unfolding watch poll_fills_http
  confirm_fills legs w =
      let (legs', w') = watch (if env.use_websocket then env.deliveries w.journal else []) legs w in
      poll_fills_http (env.polls w'.journal) legs' w'

  unfoldable pub persist_legs : Intent → List PlannedLeg → Exec World (List LegExecution)
  persist_legs i [] = pure []
  persist_legs i (l ∷ ls) = do
    id ← gets (λ w. env.new_leg_id w.journal)
    create_leg (row_of i l id)
    rest ← persist_legs i ls
    pure (fresh l id ∷ rest)

  unfoldable pub close_leg : Bool → LegExecution → Exec World LegExecution
  close_leg early x =
      if is_open x && not early
      then (do
        update_leg x.leg_id (status timeout ∷ error_msg timed_out ∷ [])
        pure (record x { status = timeout; error = some timed_out }))
      else pure x

  -- Step 5: what is still open has timed out, or is left to the reconciler.
  unfoldable pub close_open : Bool → List LegExecution → Exec World (List LegExecution)
  unfolding close_leg
  close_open early [] = pure []
  close_open early (x ∷ xs) = do
    x' ← close_leg early x
    rest ← close_open early xs
    pure (x' ∷ rest)

  -- Steps 3 and 4: the orders go out, and their fills are awaited.
  unfoldable pub dispatch : Plan → List LegExecution → World → List LegExecution × World
  unfolding gather send_order confirm_fills
  dispatch p legs w =
      let (legs', w') = gather (λ _. true) (send_order p) legs w in
      let done = confirm_fills legs' w' in if any is_open legs' then done else (legs', w')

  abbrev pub settle : String → List LegExecution → Exec World ExecutionResult
  settle id legs = do
    closed ← close_open (is_early_terminate legs) legs
    update_intent_status id (overall closed)
    pure (record { status = overall closed; legs = closed })

  unfoldable pub execute : Plan → Exec World ExecutionResult
  unfolding persist_legs dispatch close_open is_early_terminate
  execute p = do
    update_intent_status p.intent.intent_id IntentStatus.executing
    legs ← persist_legs p.intent p.legs
    λ w. let (legs', w') = dispatch p legs w in settle p.intent.intent_id legs' w'
