-- ===== src/Samples.antt =====
-- Concrete data for the tests: one venue that fills, one that refuses, and an intent over both.
mod Coordinator
mod Persistence
mod Market
mod Executor
mod Funding
mod Quotes
mod Commands
mod Strategies
use omni_trade.Prelude.{
  pos, ℕ, String, true, false, Option, none, some, List, [], ◌∷◌, ◌==◌, suc, eqb, if◌then◌else◌,
}
use omni_trade.Exec.{returned, raised, remote}
use omni_trade.Float.{Float, F}
use omni_trade.Float.Fixed.{fixed}
use omni_trade.Market.Instrument.{Instrument, of_int}
use omni_trade.Market.Quote.{Quote}
use omni_trade.Market.Registry.{Registry}
use omni_trade.Coordinator.AccountType.{Order}
use omni_trade.Coordinator.Intent.{Intent}
use omni_trade.Coordinator.Orchestrator.{Orchestrator}
use omni_trade.World.{MarkInfo, Exchange, Env, IntentRow, LegRow, Db, World}
use omni_trade.Coordinator.Leg.{LegExecution, ExecutionResult}
use omni_trade.Coordinator.StateMachine.{filled, sent, rolled_back_failed, IntentStatus}

abbrev pub instrument : String → Instrument
instrument venue = record {
  venue = venue;
  network = "testnet";
  market_type = "spot";
  base = record { symbol = "BTC"; kind = "crypto" };
  quote = record { symbol = "USDT"; kind = "crypto" };
  venue_symbol = "BTC/USDT";
  min_qty = of_int 0;
  qty_step = fixed.literal 1 3;
  price_step = fixed.literal 1 2;
  min_notional = of_int 5;
  taker_fee_rate = fixed.literal 1 3;
  maker_fee_rate = fixed.literal 1 3;
  contract_size = of_int 1;
  is_inverse = false;
  listing_status = "trading";
  max_leverage = none;
}

abbrev pub quote : Instrument → Option Quote
quote i = some (record {
  instrument = i;
  fetched_at = of_int 0;
  bid_price = of_int 99;
  bid_size = of_int 10;
  ask_price = of_int 101;
  ask_size = of_int 10;
  mid_price = of_int 100;
  taker_fee_rate = i.taker_fee_rate;
  maker_fee_rate = i.maker_fee_rate;
  funding_rate = none;
  next_funding_time = none;
  open_interest = none;
  bids = (of_int 99, of_int 10) ∷ [];
  asks = (of_int 101, of_int 10) ∷ [];
})

abbrev pub filled_order : Order
filled_order = record {
  has_id = true;
  id = some "o1";
  status = some "closed";
  filled = some (of_int 5);
  average = some (of_int 101);
  price = none;
  fee_cost = some (fixed.literal 5 1);
}

abbrev count : {A : Type 0} → List A → ℕ
count [] = 0
count (x ∷ xs) = suc (count xs)

-- The mark price stands at the index price at first, and ten percent above it later.
abbrev marks : ℕ → MarkInfo
marks n = record {
  mark_price = some (if eqb n 0 then of_int 100 else of_int 110);
  mark = none;
  index_price = some (of_int 100);
  index = none;
}

abbrev pub filling : Exchange
filling = record {
  create_order = λ h r. returned filled_order;
  fetch_order = λ h o s p. returned filled_order;
  cancel_order = λ h o s p. returned tt;
  set_leverage = λ h n s p. returned tt;
  fetch_balance = λ h p. returned (λ asset. some (of_int 1000));
  fetch_free_margin = λ h p. returned (λ asset. some (of_int 1000));
  list_markets = λ h. returned (instrument "binance" ∷ []);
  fetch_orderbook = λ h s n. returned (record {
    bids = some (of_int 99, of_int 10) ∷ [];
    asks = some (of_int 101, of_int 10) ∷ [];
    timestamp = none;
  });
  fetch_funding_rate = λ h s.
      returned (record { funding_rate = some (fixed.literal 1 3); next_funding_timestamp = none });
  fetch_funding_rates = λ h ss. returned (
      some (
        (
          "BTC/USDT:USDT",
          some (record { funding_rate = some (fixed.literal 1 3); next_funding_timestamp = none }),
        )
        ∷ []));
  fetch_mark_prices = λ h ss. returned (some (("BTC/USDT:USDT", marks (count h)) ∷ []));
}

abbrev pub refusing : Exchange
refusing = record filling { create_order = λ h r. raised (remote "rejected") }

abbrev pub venues : String → Option Exchange
venues v =
    if v == "binance" then some filling else if v == "hyperliquid" then some refusing else none

instance abbrev pub env : Env
env = record {
  exchanges = venues;
  time = λ h. of_int (count h);
  now = count;
  monotonic = λ h. of_int (count h);
  datetime_now = count;
  new_position_id = λ h. "hp-1";
  today = λ h. 0;
  new_leg_id = λ h. if eqb (count h) 3 then "leg-a" else "leg-b";
  dumps = λ i. "{}";
  loads = λ s. none;
  isoformat = λ h. "2026-01-01";
  use_websocket = true;
  deliveries = λ h. [];
  polls = λ h. 2;
}

-- Half on the venue that fills and half on the one that refuses.
abbrev pub intent : Intent
intent = record {
  intent_id = "i1";
  base = "BTC";
  quote_preference = "USDT" ∷ [];
  product = "spot";
  side = "buy";
  order_type = "market";
  total_notional_usd = of_int 1000;
  split = ("binance", fixed.literal 5 1) ∷ ("hyperliquid", fixed.literal 5 1) ∷ [];
  leverage = pos 1;
  limit_price = none;
  max_slippage_pct = none;
  max_fee_usd = none;
  max_funding_rate_pct = none;
  execute_timeout_seconds = pos 30;
  time_in_force = none;
  created_at = "";
  leg_configs = [];
}

abbrev pub orchestrator : Orchestrator
orchestrator = record {
  registry = record { instruments = instrument "binance" ∷ instrument "hyperliquid" ∷ [] };
  fetch = quote;
  risk_validator = none;
}

abbrev pub world : World
world = record {
  db = some (record { intents = []; legs = [] });
  journal = [];
  order_timestamps = [];
  tables = record { instruments = []; snapshots = []; hedged_positions = [] };
  rates = [];
}

abbrev pub failed_row : IntentRow
failed_row = record {
  intent_id = "old";
  status = rolled_back_failed;
  raw_intent_json = "{}";
  created_at = 1;
  updated_at = 2;
}

abbrev pub leg_row : LegRow
leg_row = record {
  leg_id = "leg-old";
  intent_id = "old";
  venue = "binance";
  instrument_venue_symbol = "BTC/USDT";
  instrument_base = "BTC";
  instrument_quote = "USDT";
  instrument_market_type = "spot";
  quote_preference_matched = some "USDT";
  planned_notional_usd = of_int 500;
  planned_qty_base = of_int 5;
  status = sent;
  sent_at = none;
  order_id = some "o1";
  filled_amount = none;
  avg_price = none;
  fee_usd = none;
  error_msg = none;
  compensation_order_id = none;
  compensation_filled_amount = none;
  compensation_avg_price = none;
  compensation_fee_usd = none;
  instrument_selection_log = none;
  funding_rate_at_plan = none;
  next_funding_time_at_plan = none;
  leverage = pos 1;
  filled_at = none;
  compensated_at = none;
}

-- A database with an intent whose recovery failed, and one of its legs.
abbrev pub failed_db : Db
failed_db = record { intents = failed_row ∷ []; legs = leg_row ∷ [] }

abbrev pub leg : String → LegExecution
leg venue = record {
  leg = record {
    venue = venue;
    instrument = instrument venue;
    quote_matched = "USDT";
    planned_notional_usd = of_int 500;
    planned_qty_base = of_int 5;
    estimated_fill = record {
      avg_price = of_int 101;
      slippage_pct = of_int 1;
      depth_consumed_levels = 1;
      filled_fully = true;
    };
    estimated_fee_usd = of_int 1;
    side = "buy";
    leverage = pos 1;
    funding_rate = none;
    next_funding_time = none;
    selection_log = [];
  };
  leg_id = "leg-old";
  status = filled;
  side = "buy";
  order_id = some "o1";
  filled_amount = of_int 5;
  avg_price = some (of_int 101);
  fee = of_int 1;
  error = none;
}

-- One leg whose venue takes the reverse order, and one whose venue refuses it.
abbrev pub partial : ExecutionResult
partial = record {
  status = IntentStatus.partial_filled;
  legs = leg "binance" ∷ leg "hyperliquid" ∷ [];
}
