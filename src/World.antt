-- ===== src/World.antt =====
-- What the coordinator's methods change, and what answers them: the database behind
-- src/persistence/store.py with its tables of src/persistence/schema.py, the venues' adapters, and
-- the journal of everything that was done in order.
use omni_trade.Prelude.{ℤ, ℕ, String, Bool, Option, List, [], ◌∷◌, ◌++◌}
use omni_trade.Exec.{Outcome, Exec, Error}
use omni_trade.Float.{Float, F}
use omni_trade.Coordinator.StateMachine.{IntentStatus, LegStatus}
use omni_trade.Coordinator.AccountType.{Params, Order}
use omni_trade.Coordinator.Intent.{Intent}
use omni_trade.Market.Instrument.{Instrument}

module _ ⦃fl : Float⦄ where
  -- The content of an error column: a text of the program, or the text of an exception.
  pub data Cause : Type 0 where
    text : String → Cause
    exception : Error → Cause

  -- A keyword argument of `update_leg`: a column and its new value. A time is a count of
  -- microseconds, and stands for the text that `isoformat` gives it: both have the same order.
  pub data Field : Type 0 where
    status : LegStatus → Field
    error_msg : Cause → Field
    order_id : Option String → Field
    sent_at : Option F → Field
    filled_amount avg_price fee_usd : Option F → Field
    compensation_order_id : Option String → Field
    compensation_filled_amount compensation_avg_price compensation_fee_usd : Option F → Field
    filled_at compensated_at : ℕ → Field

  pub data Payload : Type 0 where
    intent_created : IntentStatus → Payload
    intent_status_updated : IntentStatus → Payload
    leg_created : String → LegStatus → Payload
    leg_updated : String → List Field → Payload

  -- A row of `audit_events`, which is a line of the JSONL file too.
  pub record AuditEvent : Type 0 where
    pub intent_id : String
    pub timestamp : ℕ
    pub payload : Payload

  pub record OrderRequest : Type 0 where
    pub symbol : String
    pub order_type : String
    pub side : String
    pub amount : F
    pub price : Option F
    pub params : Params

  -- A request for market data.
  pub data MarketRequest : Type 0 where
    list_markets : MarketRequest
    fetch_orderbook : (symbol : String) → ℕ → MarketRequest
    fetch_funding_rate : (symbol : String) → MarketRequest
    fetch_funding_rates fetch_mark_prices : (symbols : List String) → MarketRequest

  -- The dictionaries that a venue answers with, by the keys that the program reads: `none` is a key
  -- that is missing, or a value that is not a number. A level of a book is `none` where it is not a
  -- pair. In an answer for several symbols an entry is `none` where it is not a dictionary.
  pub record FundingInfo : Type 0 where
    pub funding_rate : Option F
    pub next_funding_timestamp : Option F

  pub record MarkInfo : Type 0 where
    pub mark_price : Option F
    pub mark : Option F
    pub index_price : Option F
    pub index : Option F

  pub record RawBook : Type 0 where
    pub bids : List (Option (F × F))
    pub asks : List (Option (F × F))
    pub timestamp : Option F

  -- A request to the adapter of a venue; an order names the leg for which it is sent.
  pub data Call : Type 0 where
    create_order : (venue leg_id : String) → OrderRequest → Call
    fetch_order cancel_order : (venue order_id symbol : String) → Params → Call
    set_leverage : (venue : String) → ℤ → (symbol : String) → Params → Call
    fetch_balance fetch_free_margin : (venue : String) → Params → Call
    market : (venue : String) → MarketRequest → Call

  pub data Entry : Type 0 where
    audit : AuditEvent → Entry
    call : Call → Entry

  abbrev pub History : Type 0
  History = List Entry

  -- The adapter of one venue. An answer may depend on all that was done before. The answer to a
  -- request for several symbols is `none` where it is not a dictionary.
  pub record Exchange : Type 0 where
    pub create_order : History → OrderRequest → Outcome Order
    pub fetch_order : History → (order_id symbol : String) → Params → Outcome Order
    pub cancel_order : History → (order_id symbol : String) → Params → Outcome (Unit {0})
    pub set_leverage : History → ℤ → (symbol : String) → Params → Outcome (Unit {0})
    pub fetch_balance : History → Params → Outcome (String → Option F)
    pub fetch_free_margin : History → Params → Outcome (String → Option F)
    pub list_markets : History → Outcome (List Instrument)
    pub fetch_orderbook : History → (symbol : String) → ℕ → Outcome RawBook
    pub fetch_funding_rate : History → (symbol : String) → Outcome FundingInfo
    pub fetch_funding_rates :
        History → (symbols : List String) → Outcome (Option (List (String × Option FundingInfo)))
    pub fetch_mark_prices :
        History → (symbols : List String) → Outcome (Option (List (String × MarkInfo)))

  -- An order that the stream of a venue delivers while the executor watches it.
  pub record Delivery : Type 0 where
    pub venue : String
    pub order : Order

  -- What `_side_from_intent_json` reads of the stored intent.
  pub record IntentJson : Type 0 where
    pub side : Option String
    pub leg_side : String → Option String

  -- The surroundings: adapters, clocks (`time`, `monotonic` and `perf_counter` give seconds,
  -- `datetime_now` is the clock of SQLite's `datetime('now')`), `uuid4()` and the `json` module. `deliveries` is what the
  -- streams deliver within the grace period, and `polls` is the number of polling rounds that start
  -- before the deadline. `use_websocket` is the executor's attribute.
  pub record Env : Type 0 where
    pub exchanges : String → Option Exchange
    pub time : History → F
    pub now : History → ℕ
    pub monotonic : History → F
    pub datetime_now : History → ℕ
    pub new_position_id : History → String
    pub today : History → ℕ
    pub new_leg_id : History → String
    pub dumps : Intent → String
    pub loads : String → Option IntentJson
    pub isoformat : History → String
    pub use_websocket : Bool
    pub deliveries : History → List Delivery
    pub polls : History → ℕ

  pub record IntentRow : Type 0 where
    pub intent_id : String
    pub status : IntentStatus
    pub raw_intent_json : String
    pub created_at : ℕ
    pub updated_at : ℕ

  pub record LegRow : Type 0 where
    pub leg_id : String
    pub intent_id : String
    pub venue : String
    pub instrument_venue_symbol : String
    pub instrument_base : String
    pub instrument_quote : String
    pub instrument_market_type : String
    pub quote_preference_matched : Option String
    pub planned_notional_usd : F
    pub planned_qty_base : F
    pub status : LegStatus
    pub sent_at : Option F
    pub order_id : Option String
    pub filled_amount : Option F
    pub avg_price : Option F
    pub fee_usd : Option F
    pub error_msg : Option Cause
    pub compensation_order_id : Option String
    pub compensation_filled_amount : Option F
    pub compensation_avg_price : Option F
    pub compensation_fee_usd : Option F
    pub instrument_selection_log : Option String
    pub funding_rate_at_plan : Option F
    pub next_funding_time_at_plan : Option F
    pub leverage : ℤ
    pub filled_at : Option ℕ
    pub compensated_at : Option ℕ

  -- The tables `intents` and `legs`, in order of insertion.
  pub record Db : Type 0 where
    pub intents : List IntentRow
    pub legs : List LegRow

  -- The columns of `instruments`.
  pub record InstrumentRow : Type 0 where
    pub venue : String
    pub network : String
    pub market_type : String
    pub base : String
    pub quote : String
    pub venue_symbol : String
    pub min_qty : F
    pub qty_step : F
    pub price_step : F
    pub min_notional : F
    pub taker_fee_rate : F
    pub maker_fee_rate : F
    pub contract_size : F
    pub is_inverse : Bool
    pub listing_status : String
    pub cached_at : ℕ

  -- The columns of `funding_rate_snapshots`.
  pub record SnapshotRow : Type 0 where
    pub venue : String
    pub symbol : String
    pub funding_rate : Option F
    pub mark_price : Option F
    pub next_funding_time : Option F
    pub fetched_at : ℕ

  -- The columns of `hedged_positions`; `is_open` tells the status OPEN from CLOSED.
  pub record HedgedRow : Type 0 where
    pub position_id : String
    pub base : String
    pub venue_long : String
    pub venue_short : String
    pub notional_usd : F
    pub intent_open : String
    pub leg_long_id : String
    pub leg_short_id : String
    pub rate_at_open_a : Option F
    pub rate_at_open_b : Option F
    pub opened_at : ℕ
    pub intent_close : Option String
    pub closed_at : Option ℕ
    pub is_open : Bool

  -- The other tables of the same database, in order of insertion: the coordinator reads and writes
  -- none of them, and they are reached only through an open connection.
  pub record Tables : Type 0 where
    pub instruments : List InstrumentRow
    pub snapshots : List SnapshotRow
    pub hedged_positions : List HedgedRow

  -- A `_Entry` of the `FundingRateCache` with its key.
  pub record RateEntry : Type 0 where
    pub venue : String
    pub symbol : String
    pub funding_rate : Option F
    pub next_funding_time : Option F
    pub ts : F

  -- `db` is `none` before `initialize()` and after `close()`. `order_timestamps` is the deque of the
  -- `RiskValidator`, the oldest first; `rates` is the dictionary of the `FundingRateCache`.
  pub record World : Type 0 where
    pub db : Option Db
    pub journal : History
    pub order_timestamps : List F
    pub tables : Tables
    pub rates : List RateEntry

  -- One more line in the journal.
  abbrev pub log : Entry → World → World
  log e w = record w { journal = w.journal ++ e ∷ [] }

  -- A request to an adapter, and its answer.
  unfoldable pub ask : {A : Type 0} → Call → (History → Outcome A) → Exec World A
  ask c answer w = (answer w.journal, log (call c) w)
