-- ===== src/Samples/Funding.antt =====
-- The theorems about the funding strategy at concrete inputs.
use omni_trade.Prelude.{
  ◌≡◌, refl, String, true, false, none, some, [], ◌∷◌, map, All, Leading, here, arith,
}
use mathlib.Core.List.{Memᴰ, Perm}
use omni_trade.Exec.{raised, value_error, ◌>>=◌}
use omni_trade.Float.Fixed.{fixed}
use omni_trade.Market.Instrument.{Instrument, of_int}
use omni_trade.Coordinator.StateMachine.{IntentStatus}
use omni_trade.Market.Registry.{Registry}
use omni_trade.Market.Pairs.{CrossVenuePair, new_pair, find_pairs}
use omni_trade.Market.Pairs.Matched.{Matched, find_pairs-Matched, find_pairs-complete}
use omni_trade.World.{HedgedRow, Db, World}
use omni_trade.Persistence.Store.{find_intent}
use omni_trade.Persistence.Store.Rows.{opened}
use omni_trade.Funding.Comparator.{
  open_long_a_short_b, nowhere, FundingSpread, Rates, compare_pair, compare_all,
}
use omni_trade.Funding.Comparator.Signals.{compare_all-Leading}
use omni_trade.Funding.RateCache.Refreshed.{Refreshed}
use omni_trade.Funding.Positions.{get_open_positions, record_open, record_close}
use omni_trade.Funding.Positions.Lifecycle.{Lists, IsOther, Kept, record_open-get, record_close-get}
use omni_trade.Funding.Monitor.{Monitor}
use omni_trade.Funding.Runner.{ArbConfig, open_position, decide, tick}
use omni_trade.Funding.Runner.DryRun.{Untouched, tick-dry_run}
use omni_trade.Funding.Runner.Bounded.{On, Limited}
use omni_trade.Funding.Daemon.{submit_through}
use omni_trade.Funding.Daemon.Exposure.{daemon-Limited}
use omni_trade.Funding.Daemon.Stuck.{open_position-same_venue, decide-stuck}
use omni_trade.Funding.Premium.{PremiumSnapshot, snapshot, fetch_snapshots}
use omni_trade.Funding.Premium.Merged.{fetch_snapshots-merged}
use omni_trade.Samples.{env, instrument, orchestrator, world, failed_db, failed_row}

abbrev perp : String → Instrument
perp venue = record (instrument venue) { market_type = "perp"; venue_symbol = "BTC/USDT:USDT" }

abbrev perps : Registry
perps = record { instruments = perp "binance" ∷ instrument "binance" ∷ perp "hyperliquid" ∷ [] }

abbrev pair : CrossVenuePair
pair = record {
  base = "BTC";
  venue_a = "binance";
  venue_b = "hyperliquid";
  instrument_a = perp "binance";
  instrument_b = perp "hyperliquid";
}

find_pairs-Matched_example : All (Matched perps) (find_pairs perps none)
find_pairs-Matched_example = find_pairs-Matched perps none

find_pairs-complete_example : Memᴰ pair (find_pairs perps (some ("BTC" ∷ [])))
unfolding new_pair
find_pairs-complete_example =
    find_pairs-complete perps ("BTC" ∷ []) "BTC" (perp "binance") (perp "hyperliquid")
      (Memᴰ.head refl) refl refl (here refl (Memᴰ.tail (Memᴰ.head refl)))

-- No funding on the one venue, one percent on the other.
abbrev rates : Rates
rates =
    (
      "binance",
      "BTC/USDT:USDT",
      record {
        funding_rate = some (of_int 0);
        premium_pct = some (of_int 3);
        next_funding_time = none;
      },
    )
    ∷ (
      "hyperliquid",
      "BTC/USDT:USDT",
      record {
        funding_rate = some (fixed.literal 1 2);
        premium_pct = none;
        next_funding_time = none;
      },
    )
    ∷ []

compare_all-Leading_example :
    Perm
      (compare_all (fixed.literal 1 2) (of_int 0) (pair ∷ pair ∷ []) rates)
      (map (compare_pair (fixed.literal 1 2) (of_int 0) rates) (pair ∷ pair ∷ []))
    × Leading
        (λ s. s.is_profitable)
        (compare_all (fixed.literal 1 2) (of_int 0) (pair ∷ pair ∷ []) rates)
compare_all-Leading_example =
    compare_all-Leading (fixed.literal 1 2) (of_int 0) (pair ∷ pair ∷ []) rates

abbrev held : HedgedRow
held = record {
  position_id = "hp-0";
  base = "ETH";
  venue_long = "binance";
  venue_short = "hyperliquid";
  notional_usd = of_int 100;
  intent_open = "";
  leg_long_id = "leg-a";
  leg_short_id = "leg-b";
  rate_at_open_a = none;
  rate_at_open_b = none;
  opened_at = 0;
  intent_close = none;
  closed_at = none;
  is_open = true;
}

-- The state with one open position.
abbrev holding : World
holding = record world {
  tables = record { instruments = []; snapshots = []; hedged_positions = held ∷ [] };
}

record_open-get_example :
    Lists
      (Memᴰ (record {
        position_id = "hp-1";
        base = "BTC";
        venue_a = "binance";
        venue_b = "hyperliquid";
        intent_open = "i1";
        leg_long_id = "leg-a";
        leg_short_id = "leg-b";
        notional_per_leg = of_int 100;
        rate_at_open_a = none;
        rate_at_open_b = none;
      }))
      (get_open_positions
        (record_open pair
          (of_int 100)
          "i1"
          "leg-a"
          "leg-b"
          none
          none
          (opened failed_db holding)).1).0
record_open-get_example =
    record_open-get pair (of_int 100) "i1" "leg-a" "leg-b" none none failed_db holding refl

record_close-get_example :
    Lists
      (λ ps. All (IsOther "hp-0") ps × All (λ r. Kept "hp-0" r ps) holding.tables.hedged_positions)
      (get_open_positions (record_close "hp-0" "i2" (opened failed_db holding)).1).0
record_close-get_example = record_close-get "hp-0" "i2" failed_db holding

abbrev monitor : Monitor
monitor = record { registry = perps; ttl = of_int 60; min_spread = fixed.literal 1 2 }

abbrev live : ArbConfig
live = record {
  min_spread_pct = fixed.literal 1 2;
  notional_per_leg = of_int 1000;
  max_positions = 5;
  dry_run = false;
}

tick-dry_run_example :
    Untouched holding
      (tick (submit_through orchestrator) monitor (record live { dry_run = true }) none holding).1
tick-dry_run_example =
    tick-dry_run (submit_through orchestrator) monitor (record live { dry_run = true }) none holding
      refl

limited : On (Limited 5) holding
limited = (refl, record { few = omega arith; single = λ b. ground arith })

daemon-Limited_example :
    On (Limited 5) (tick (submit_through orchestrator) monitor live none holding).1
daemon-Limited_example = daemon-Limited orchestrator monitor live none holding limited

abbrev signalled : CrossVenuePair → FundingSpread
signalled p = record {
  pair = p;
  rate_a = some (of_int 0);
  rate_b = some (fixed.literal 1 2);
  spread = some (fixed.literal 1 2);
  spread_pct_annual = none;
  next_funding_a = none;
  next_funding_b = none;
  signal = open_long_a_short_b;
  fee_cost_pct = of_int 0;
  slippage_cost_pct = of_int 0;
  net_annual_return_pct = none;
  is_profitable = true;
  venue_first = nowhere;
}

-- Two perpetuals of one venue.
abbrev one_venue : CrossVenuePair
one_venue = record pair { venue_b = "binance"; instrument_b = perp "binance" }

open_position-same_venue_example :
    open_position (submit_through orchestrator) live (signalled one_venue) world
    ≡ (raised value_error, world)
open_position-same_venue_example =
    open_position-same_venue (submit_through orchestrator) live (signalled one_venue) world refl
      refl refl

abbrev first_done : Db
first_done = record {
  intents = record failed_row { intent_id = ""; status = IntentStatus.all_filled } ∷ [];
  legs = [];
}

decide-stuck_example :
    (decide (submit_through orchestrator) live (signalled pair ∷ []) (opened first_done holding)).1
    ≡ opened first_done holding
unfolding find_intent
decide-stuck_example =
    decide-stuck orchestrator live (signalled pair ∷ []) first_done holding refl refl

abbrev premium_of : String → PremiumSnapshot
premium_of venue =
    snapshot []
      (record { symbol = "BTC/USDT:USDT"; mark = some (of_int 110); index = some (of_int 100) }
        ∷ [])
      (perp venue)

fetch_snapshots-merged_example :
    (premium_of "binance").premium_pct ≡ (premium_of "hyperliquid").premium_pct
unfolding fetch_snapshots ◌>>=◌
fetch_snapshots-merged_example =
    fetch_snapshots-merged (perp "binance" ∷ perp "hyperliquid" ∷ []) [] world
      (premium_of "binance" ∷ premium_of "hyperliquid" ∷ []) (premium_of "binance")
      (premium_of "hyperliquid") refl (Memᴰ.head refl) (Memᴰ.tail (Memᴰ.head refl)) refl
