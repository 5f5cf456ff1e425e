-- ===== src/Market/Quote.antt =====
-- src/market/quote.py: a snapshot of an order book, and the walk along it.
use omni_trade.Prelude.{
  ℕ, ◌+◌, String, Bool, true, false, ◌==◌, Option, List, [], ◌∷◌, is_empty, if◌then◌else◌,
}
use omni_trade.Float.{Float, F, nought}
use omni_trade.Market.Instrument.{Instrument, float_min, of_int}

module _ ⦃fl : Float⦄ where
  pub record EstimatedFill : Type 0 where
    pub avg_price : F
    pub slippage_pct : F
    pub depth_consumed_levels : ℕ
    pub filled_fully : Bool

  -- One side of the book: price and quantity of each level, the best first.
  abbrev pub Side : Type 0
  Side = List (F × F)

  pub record Quote : Type 0 where
    pub instrument : Instrument
    pub fetched_at : F
    pub bid_price : F
    pub bid_size : F
    pub ask_price : F
    pub ask_size : F
    pub mid_price : F
    pub taker_fee_rate : F
    pub maker_fee_rate : F
    pub funding_rate : Option F
    pub next_funding_time : Option F
    pub open_interest : Option F
    pub bids : Side
    pub asks : Side

  -- The variables of the loop.
  pub record Walk : Type 0 where
    pub remaining : F
    pub total_cost : F
    pub filled_qty : F
    pub levels_consumed : ℕ

  unfoldable pub consume : F → F → Walk → Walk
  consume price qty w =
      let taken = float_min qty w.remaining in
      record {
        remaining = fl.sub w.remaining taken;
        total_cost = fl.add w.total_cost (fl.mul taken price);
        filled_qty = fl.add w.filled_qty taken;
        levels_consumed = w.levels_consumed + 1;
      }

  -- `for price, qty in orderbook`, with its `break`.
  unfoldable pub walk : Side → Walk → Walk
  unfolding consume
  walk [] w = w
  walk ((price, qty) ∷ levels) w =
      let w' = consume price qty w in
      let rest = walk levels w' in if fl.le w'.remaining nought then w' else rest

  abbrev pub no_fill : Bool → EstimatedFill
  no_fill full = record {
    avg_price = nought;
    slippage_pct = nought;
    depth_consumed_levels = 0;
    filled_fully = full;
  }

  unfoldable pub slippage : F → F → String → F
  slippage mid avg side =
      if fl.lt nought mid
      then (if side == "buy"
          then fl.mul (fl.div (fl.sub avg mid) mid) (of_int 100)
          else fl.mul (fl.div (fl.sub mid avg) mid) (of_int 100))
      else nought

  abbrev pub start : F → Walk
  start amount = record {
    remaining = amount;
    total_cost = nought;
    filled_qty = nought;
    levels_consumed = 0;
  }

  abbrev pub summary : Quote → String → Walk → EstimatedFill
  summary q side w =
      let avg_price = fl.div w.total_cost w.filled_qty in
      if fl.eq w.filled_qty nought then no_fill false else record {
        avg_price = avg_price;
        slippage_pct = slippage q.mid_price avg_price side;
        depth_consumed_levels = w.levels_consumed;
        filled_fully = fl.le w.remaining (fl.literal 1 12);
      }

  abbrev pub book : Quote → String → Side
  book q side = if side == "buy" then q.asks else q.bids

  unfoldable pub estimate_fill : Quote → F → String → EstimatedFill
  unfolding slippage walk
  estimate_fill q amount_base side =
      if fl.eq amount_base nought
      then no_fill true
      else if is_empty (book q side)
      then no_fill false
      else summary q side (walk (book q side) (start amount_base))
