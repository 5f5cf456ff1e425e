-- ===== src/Funding/Comparator.antt =====
-- src/strategy/funding_arb/comparator.py: what a pair of perpetuals is expected to earn. The
-- arguments `history_a` and `history_b`, which no line reads, are left out.
pub mod Signals
use omni_trade.Prelude.{
  String, Bool, true, false, not, ◌&&◌, ◌||◌, ◌==◌, Option, none, some, or_else, List, [], ◌∷◌, map,
  sort, if◌then◌else◌,
}
use omni_trade.Float.{Float, F, nought, negative, absolute}
use omni_trade.Market.Instrument.{float_max, float_min, of_int}
use omni_trade.Market.Pairs.{CrossVenuePair}

-- The values of `Signal` that the comparator gives.
pub data Signal : Type 0 where
  open_long_a_short_b open_short_a_long_b no_signal : Signal

pub data Venue : Type 0 where
  a b nowhere : Venue

module _ ⦃fl : Float⦄ where
  pub record NetReturn : Type 0 where
    pub convergence_pnl_pct : F
    pub funding_pnl_pct : F
    pub fee_cost_pct : F
    pub slippage_cost_pct : F
    pub total_cost_pct : F
    pub net_per_period_pct : F
    pub avg_funding_hours : F
    pub net_annual_pct : F
    pub is_profitable : Bool
    pub venue_first : Venue

  pub record FundingSpread : Type 0 where
    pub pair : CrossVenuePair
    pub rate_a : Option F
    pub rate_b : Option F
    pub spread : Option F
    pub spread_pct_annual : Option F
    pub next_funding_a : Option F
    pub next_funding_b : Option F
    pub signal : Signal
    pub fee_cost_pct : F
    pub slippage_cost_pct : F
    pub net_annual_return_pct : Option F
    pub is_profitable : Bool
    pub venue_first : Venue

  -- What is known of one side of a pair: the keyword arguments with its suffix.
  pub record SideData : Type 0 where
    pub premium : F
    pub taker_fee : F
    pub slippage_pct : F
    pub next_funding : Option F

  unfoldable pub funding_hours : Option F → F → F
  funding_hours none now = of_int 8
  funding_hours (some t) now =
      if fl.lt now t
      then float_max (fl.div (fl.sub t now) (of_int 3600)) (fl.literal 25 2)
      else of_int 8

  -- The guard of `compute_net_return`: both rates have the same sign.
  abbrev pub same_sign : F → F → Bool
  same_sign x y = fl.lt nought x && fl.lt nought y || fl.lt x nought && fl.lt y nought

  abbrev pub no_return : NetReturn
  no_return = record {
    convergence_pnl_pct = nought;
    funding_pnl_pct = nought;
    fee_cost_pct = nought;
    slippage_cost_pct = nought;
    total_cost_pct = nought;
    net_per_period_pct = nought;
    avg_funding_hours = nought;
    net_annual_pct = nought;
    is_profitable = false;
    venue_first = nowhere;
  }

  -- `funding_collected`; `a_first` says that the venue `a` settles first.
  abbrev pub funding_collected : F → F → Bool → F
  funding_collected rate_a rate_b a_first =
      if fl.lt rate_a rate_b
      then (if a_first then fl.mul (absolute rate_a) (of_int 100) else nought)
      else if a_first
      then nought
      else fl.mul (absolute rate_b) (of_int 100)

  unfoldable pub compute_net_return : F → F → F → SideData → SideData → NetReturn
  unfolding funding_hours
  compute_net_return now rate_a rate_b x y =
      let convergence_pnl =
        fl.mul (fl.add (absolute x.premium) (absolute y.premium)) (fl.literal 5 1) in
      let hours_a = funding_hours x.next_funding now in
      let hours_b = funding_hours y.next_funding now in
      let min_hours = float_min hours_a hours_b in
      let a_first = fl.le hours_a hours_b in
      let funding = funding_collected rate_a rate_b a_first in
      let fee_cost = fl.mul (fl.mul (fl.add x.taker_fee y.taker_fee) (of_int 2)) (of_int 100) in
      let slippage_cost = fl.add x.slippage_pct y.slippage_pct in
      let total_cost = fl.add fee_cost slippage_cost in
      let net = fl.sub (fl.add convergence_pnl funding) total_cost in
      if same_sign rate_a rate_b then no_return else record {
        convergence_pnl_pct = convergence_pnl;
        funding_pnl_pct = funding;
        fee_cost_pct = fee_cost;
        slippage_cost_pct = slippage_cost;
        total_cost_pct = total_cost;
        net_per_period_pct = net;
        avg_funding_hours = min_hours;
        net_annual_pct =
            if fl.lt nought min_hours
            then fl.mul (fl.mul (fl.div net min_hours) (of_int 365)) (of_int 24)
            else nought;
        is_profitable = fl.lt nought net;
        venue_first = if a_first then a else b;
      }

  -- `x or 0`
  abbrev pub or_zero : F → F
  or_zero x = if fl.eq x nought then nought else x

  abbrev pub signal_of : F → NetReturn → F → Signal
  signal_of min_spread net spread =
      if net.is_profitable && fl.lt min_spread (fl.mul (absolute spread) (of_int 100))
      then (if fl.lt nought spread then open_long_a_short_b else open_short_a_long_b)
      else no_signal

  abbrev pub annual : F → NetReturn → F
  annual spread net =
      let intervals_per_year = fl.div (of_int 8760) (float_max net.avg_funding_hours (of_int 1)) in
      fl.mul (fl.mul (or_zero spread) intervals_per_year) (of_int 100)

  -- The result where a rate is missing.
  abbrev pub unknown : CrossVenuePair → Option F → Option F → SideData → SideData → FundingSpread
  unknown pair rate_a rate_b x y = record {
    pair = pair;
    rate_a = rate_a;
    rate_b = rate_b;
    spread = none;
    spread_pct_annual = none;
    next_funding_a = x.next_funding;
    next_funding_b = y.next_funding;
    signal = no_signal;
    fee_cost_pct = nought;
    slippage_cost_pct = nought;
    net_annual_return_pct = none;
    is_profitable = false;
    venue_first = nowhere;
  }

  -- The result for two rates.
  abbrev pub known : F → CrossVenuePair → F → F → SideData → SideData → NetReturn → FundingSpread
  known min_spread pair rate_a rate_b x y net =
      let spread = fl.sub rate_b rate_a in
      record {
        pair = pair;
        rate_a = some rate_a;
        rate_b = some rate_b;
        spread = some spread;
        spread_pct_annual = some (annual spread net);
        next_funding_a = x.next_funding;
        next_funding_b = y.next_funding;
        signal = signal_of min_spread net spread;
        fee_cost_pct = net.fee_cost_pct;
        slippage_cost_pct = net.slippage_cost_pct;
        net_annual_return_pct = some net.net_annual_pct;
        is_profitable = net.is_profitable;
        venue_first = net.venue_first;
      }

  -- `min_spread` is the attribute `_min_spread`, and `now` the clock's reading.
  unfoldable pub compare :
      F → F → CrossVenuePair → Option F → Option F → SideData → SideData → FundingSpread
  unfolding compute_net_return
  compare min_spread now pair (some rate_a) (some rate_b) x y =
      known min_spread pair rate_a rate_b x y (compute_net_return now rate_a rate_b x y)
  compare min_spread now pair (some rate_a) none x y = unknown pair (some rate_a) none x y
  compare min_spread now pair none rate_b x y = unknown pair none rate_b x y

  -- The dictionary that `rates` holds for one instrument, by the keys that are read.
  pub record RateInfo : Type 0 where
    pub funding_rate : Option F
    pub premium_pct : Option F
    pub next_funding_time : Option F

  abbrev pub Rates : Type 0
  Rates = List (String × String × RateInfo)

  abbrev pub no_info : RateInfo
  no_info = record { funding_rate = none; premium_pct = none; next_funding_time = none }

  -- `rates.get((venue, symbol), {})`
  unfoldable pub rate_of : String → String → Rates → RateInfo
  rate_of venue symbol [] = no_info
  rate_of venue symbol ((v, s, info) ∷ rest) =
      if v == venue && s == symbol then info else rate_of venue symbol rest

  -- `compare` is called without slippages.
  abbrev pub side_data : RateInfo → F → SideData
  side_data info taker_fee = record {
    premium = or_else info.premium_pct nought;
    taker_fee = taker_fee;
    slippage_pct = nought;
    next_funding = info.next_funding_time;
  }

  unfoldable pub compare_pair : F → F → Rates → CrossVenuePair → FundingSpread
  unfolding compare rate_of
  compare_pair min_spread now rates p =
      let x = rate_of p.venue_a p.instrument_a.venue_symbol rates in
      let y = rate_of p.venue_b p.instrument_b.venue_symbol rates in
      compare min_spread now p x.funding_rate y.funding_rate
        (side_data x p.instrument_a.taker_fee_rate) (side_data y p.instrument_b.taker_fee_rate)

  -- `-(s.net_annual_return_pct or -9999)`
  abbrev pub rank : FundingSpread → F
  rank s = negative (elim s.net_annual_return_pct [
    | none ↦ negative (of_int 9999)
    | some x ↦ if fl.eq x nought then negative (of_int 9999) else x
  ])

  -- The order of the key: the profitable ones first, then by the annual return.
  abbrev pub goes_before : FundingSpread → FundingSpread → Bool
  goes_before s t =
      s.is_profitable && not t.is_profitable
      || (s.is_profitable && t.is_profitable || not s.is_profitable && not t.is_profitable)
        && fl.lt (rank s) (rank t)

  -- The clock is read once for all pairs.
  unfoldable pub compare_all : F → F → List CrossVenuePair → Rates → List FundingSpread
  unfolding compare_pair
  compare_all min_spread now pairs rates =
      sort goes_before (map (compare_pair min_spread now rates) pairs)
