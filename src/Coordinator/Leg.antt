-- ===== src/Coordinator/Leg.antt =====
-- src/coordinator/executor.py: the legs that the executor works on, its tasks over one leg, and what
-- it asks of a venue for a leg. `gather` runs its tasks one after another, in the order of the legs:
-- that is one of the orders in which the event loop may take them.
use omni_trade.Prelude.{
  String, Bool, true, false, ◌&&◌, ◌==◌, Option, none, some, List, [], ◌∷◌, all, any, if◌then◌else◌,
}
use omni_trade.Exec.{Exec, key_error, returned, pure, raise}
use omni_trade.Float.{Float, F, nought}
use omni_trade.Market.Instrument.{of_int}
use omni_trade.Coordinator.StateMachine.{
  LegStatus, pending_send, sent, filled, rejected, cancelled, IntentStatus,
}
use omni_trade.Coordinator.AccountType.{Params, account_type_params, Order}
use omni_trade.Coordinator.Intent.{Intent}
use omni_trade.Coordinator.Plan.{PlannedLeg}
use omni_trade.World.{Cause, text, OrderRequest, LegRow, World}

module _ ⦃fl : Float⦄ where
  pub record LegExecution : Type 0 where
    pub leg : PlannedLeg
    pub leg_id : String
    pub status : LegStatus
    pub side : String
    pub order_id : Option String
    pub filled_amount : F
    pub avg_price : Option F
    pub fee : F
    pub error : Option Cause

  -- `all_filled` stands for ALL_FILLED, and its absence for PARTIAL_FILLED.
  pub record ExecutionResult : Type 0 where
    pub status : IntentStatus
    pub legs : List LegExecution

  abbrev pub is_status_filled : LegExecution → Bool
  is_status_filled x = elim x.status [ filled ↦ true | _ ↦ false ]

  abbrev pub is_failed : LegExecution → Bool
  is_failed x = elim x.status [ rejected ↦ true | cancelled ↦ true | _ ↦ false ]

  -- `lex.status in ("SENT", "PENDING_SEND")`
  abbrev pub is_open : LegExecution → Bool
  is_open x = elim x.status [ sent ↦ true | pending_send ↦ true | _ ↦ false ]

  unfoldable pub is_early_terminate : List LegExecution → Bool
  is_early_terminate legs = any is_status_filled legs && any is_failed legs

  -- A task works on one leg, which it changes in place, and on the world.
  pub record Running : Type 0 where
    pub lex : LegExecution
    pub world : World

  abbrev pub Task : Type 0
  Task = Exec Running (Unit {0})

  unfoldable pub on_world : {A : Type 0} → Exec World A → Exec Running A
  on_world m r = let (a, w) = m r.world in (a, record r { world = w })

  unfoldable pub edit : (LegExecution → LegExecution) → Task
  edit f r = (returned tt, record r { lex = f r.lex })

  -- A task that raises leaves what it has done: `return_exceptions=True`.
  unfoldable pub run_task : Task → LegExecution → World → Running
  run_task task x w = (task (record { lex = x; world = w })).1

  -- `asyncio.gather` of one task for each leg that passes the test.
  unfoldable pub gather :
      (LegExecution → Bool) → Task → List LegExecution → World → List LegExecution × World
  unfolding run_task
  gather p task [] w = ([], w)
  gather p task (x ∷ xs) w =
      let r = if p x then run_task task x w else record { lex = x; world = w } in
      let (rest, w') = gather p task xs r.world in (r.lex ∷ rest, w')

  abbrev pub or_nothing : F → Option F
  or_nothing x = if fl.eq x nought then none else some x

  unfoldable pub order_price : Intent → PlannedLeg → Option F
  order_price i l =
      if i.order_type == "limit" then i.limit_price else or_nothing l.estimated_fill.avg_price

  abbrev pub percent : F → F
  percent x = fl.div x (of_int 100)

  abbrev pub slippage_param : Intent → PlannedLeg → Option F
  slippage_param i l =
      if i.order_type == "market" && l.venue == "hyperliquid"
      then (elim i.max_slippage_pct [ none ↦ none | some pct ↦ some (percent pct) ])
      else none

  unfoldable pub order_params : Intent → PlannedLeg → Params
  order_params i l = record (account_type_params l.instrument.market_type) {
    time_in_force = i.time_in_force;
    slippage = slippage_param i l;
  }

  unfoldable pub order_request : Intent → LegExecution → OrderRequest
  unfolding order_price order_params
  order_request i x = record {
    symbol = x.leg.instrument.venue_symbol;
    order_type = i.order_type;
    side = x.side;
    amount = x.leg.planned_qty_base;
    price = order_price i x.leg;
    params = order_params i x.leg;
  }

  -- `order["id"]`
  abbrev pub required : Bool → Option String → Exec Running (Option String)
  required false id = raise key_error
  required true id = pure id

  abbrev pub read_id : Order → Exec Running (Option String)
  read_id o = required o.has_id o.id

  abbrev pub has_status : String → Order → Bool
  has_status s o = elim o.status [ none ↦ false | some t ↦ t == s ]

  abbrev pub or_id : Option String → Option String → Option String
  or_id none y = y
  or_id (some x) y = if x == "" then y else some x

  -- An order id that counts as true.
  abbrev pub is_order : Option String → Bool
  is_order none = false
  is_order (some id) = if id == "" then false else true

  -- `order_lookup`: the last leg with that order id.
  abbrev pub has_order : String → LegExecution → Bool
  has_order oid x = elim x.order_id [ none ↦ false | some id ↦ is_order (some id) && id == oid ]

  -- `active_ids`: a watch goes on while its venue has an open leg with an order.
  abbrev pub is_active : String → LegExecution → Bool
  is_active venue x = x.leg.venue == venue && is_order x.order_id && is_open x

  -- Step 2 of `execute`: a row for each leg, before anything is sent.
  abbrev pub row_of : Intent → PlannedLeg → String → LegRow
  row_of i l id = record {
    leg_id = id;
    intent_id = i.intent_id;
    venue = l.venue;
    instrument_venue_symbol = l.instrument.venue_symbol;
    instrument_base = l.instrument.base.symbol;
    instrument_quote = l.instrument.quote.symbol;
    instrument_market_type = l.instrument.market_type;
    quote_preference_matched = some l.quote_matched;
    planned_notional_usd = l.planned_notional_usd;
    planned_qty_base = l.planned_qty_base;
    status = pending_send;
    sent_at = none;
    order_id = none;
    filled_amount = none;
    avg_price = none;
    fee_usd = none;
    error_msg = none;
    compensation_order_id = none;
    compensation_filled_amount = none;
    compensation_avg_price = none;
    compensation_fee_usd = none;
    instrument_selection_log = none;
    funding_rate_at_plan = l.funding_rate;
    next_funding_time_at_plan = l.next_funding_time;
    leverage = l.leverage;
    filled_at = none;
    compensated_at = none;
  }

  abbrev pub fresh : PlannedLeg → String → LegExecution
  fresh l id = record {
    leg = l;
    leg_id = id;
    status = pending_send;
    side = l.side;
    order_id = none;
    filled_amount = nought;
    avg_price = none;
    fee = nought;
    error = none;
  }

  abbrev pub timed_out : Cause
  timed_out = text "fill polling timed out"

  abbrev pub overall : List LegExecution → IntentStatus
  overall legs =
      if all is_status_filled legs then IntentStatus.all_filled else IntentStatus.partial_filled
