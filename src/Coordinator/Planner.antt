-- ===== src/Coordinator/Planner.antt =====
-- src/coordinator/planner.py: from an intent to a plan, with the quotes of each venue.
pub mod Sound
pub mod Complete
use omni_trade.Prelude.{
  ℤ, ℕ, String, Bool, true, false, not, ◌&&◌, ◌==◌, Option, none, some, List, [], ◌∷◌, ◌++◌, map,
  is_empty, if◌then◌else◌,
}
use omni_trade.Float.{Float, F, nought}
use omni_trade.Market.Instrument.{Instrument, round_qty, of_int}
use omni_trade.Market.Quote.{EstimatedFill, Quote, estimate_fill}
use omni_trade.Market.Registry.{Registry, find_one}
use omni_trade.Coordinator.Intent.{
  Intent, get_leg_config, resolve_product, resolve_side, resolve_leverage,
}
use omni_trade.Coordinator.Plan.{
  PlannedLeg, SelectionLog, Violation, slippage, fee, funding, Reason, no_instrument, no_orderbook,
  empty_orderbook, below_min_notional, too_small, insufficient_depth, violates, no_legs, Plan,
}

module _ ⦃fl : Float⦄ where
  -- `_PlanCandidate`
  pub record PlanCandidate : Type 0 where
    pub venue : String
    pub split_ratio : F
    pub instrument : Instrument
    pub leg_product : String
    pub leg_side : String
    pub leg_leverage : ℤ

  -- What has been decided about a venue.
  pub data Verdict : Type 0 where
    planned : PlannedLeg → Verdict
    refused : String → Reason → Verdict

  unfoldable pub candidate : Intent → String → F → Option Instrument → Option PlanCandidate
  candidate i venue ratio none = none
  candidate i venue ratio (some inst) =
      let c = get_leg_config i venue in
      some (record {
        venue = venue;
        split_ratio = ratio;
        instrument = inst;
        leg_product = resolve_product c i.product;
        leg_side = resolve_side c i.side;
        leg_leverage = resolve_leverage c i.leverage;
      })

  -- One round of the loop of phase 1.
  unfoldable pub resolve : Registry → Intent → String → F → Option PlanCandidate
  unfolding candidate
  resolve reg i venue ratio = candidate i venue ratio (
      find_one reg i.base venue (resolve_product (get_leg_config i venue) i.product)
        i.quote_preference)

  abbrev pub keep_candidate : Option PlanCandidate → List PlanCandidate → List PlanCandidate
  keep_candidate none cs = cs
  keep_candidate (some c) cs = c ∷ cs

  abbrev pub keep_refused :
      String → Option PlanCandidate → List (String × Reason) → List (String × Reason)
  keep_refused venue none rs = (venue, no_instrument) ∷ rs
  keep_refused venue (some c) rs = rs

  -- Phase 1: the candidates, and the venues without an instrument, in the order of `split`.
  unfoldable pub candidates : Registry → Intent → List (String × F) → List PlanCandidate
  candidates reg i [] = []
  candidates reg i ((venue, ratio) ∷ rest) =
      keep_candidate (resolve reg i venue ratio) (candidates reg i rest)

  unfoldable pub unresolved : Registry → Intent → List (String × F) → List (String × Reason)
  unresolved reg i [] = []
  unresolved reg i ((venue, ratio) ∷ rest) =
      keep_refused venue (resolve reg i venue ratio) (unresolved reg i rest)

  unfoldable pub compute_notional : F → F → F
  compute_notional total split_ratio = fl.mul total split_ratio

  abbrev pub exceeds : F → Option F → (F → Violation) → List Violation
  exceeds x none v = []
  exceeds x (some limit) v = if fl.lt limit x then v limit ∷ [] else []

  abbrev pub funding_exceeds : Option F → Option F → List Violation
  funding_exceeds none limit = []
  funding_exceeds (some rate) limit =
      let pct = fl.mul rate (of_int 100) in exceeds pct limit (funding pct)

  unfoldable pub check_thresholds : EstimatedFill → F → Option F → Intent → List Violation
  check_thresholds fill fee_usd funding_rate i =
      exceeds fill.slippage_pct i.max_slippage_pct (slippage fill.slippage_pct)
      ++ (exceeds fee_usd i.max_fee_usd (fee fee_usd)
          ++ funding_exceeds funding_rate i.max_funding_rate_pct)

  -- The part of phase 3 that follows the walk along the book.
  unfoldable pub assess_fill : Intent → PlanCandidate → Quote → F → F → EstimatedFill → Verdict
  assess_fill i c q notional qty fill =
      let inst = c.instrument in
      let fee_usd =
        fl.div (fl.mul notional (fl.add inst.taker_fee_rate inst.maker_fee_rate)) (of_int 2) in
      let violations = check_thresholds fill fee_usd q.funding_rate i in
      if not fill.filled_fully
      then refused c.venue (insufficient_depth (fl.mul fill.avg_price qty))
      else if not (is_empty violations)
      then refused c.venue (violates violations)
      else planned (record {
        venue = c.venue;
        instrument = inst;
        quote_matched = inst.quote.symbol;
        planned_notional_usd = notional;
        planned_qty_base = qty;
        estimated_fill = fill;
        estimated_fee_usd = fee_usd;
        side = c.leg_side;
        leverage = c.leg_leverage;
        funding_rate = q.funding_rate;
        next_funding_time = q.next_funding_time;
        selection_log =
            record {
              quote_preference = i.quote_preference;
              selected = inst.quote.symbol;
              mid_price = q.mid_price;
            }
            ∷ [];
      })

  unfoldable pub assess_quote : Intent → PlanCandidate → Quote → Verdict
  assess_quote i c q =
      let inst = c.instrument in
      let notional = compute_notional i.total_notional_usd c.split_ratio in
      let qty = round_qty inst (fl.div notional q.mid_price) in
      if fl.le q.mid_price nought
      then refused c.venue empty_orderbook
      else if fl.lt nought inst.min_notional && fl.lt notional inst.min_notional
      then refused c.venue (below_min_notional notional)
      else if fl.le qty nought
      then refused c.venue (too_small notional)
      else assess_fill i c q notional qty (estimate_fill q qty c.leg_side)

  -- One round of the loop of phase 3; `none` is a quote that could not be fetched.
  unfoldable pub assess : Intent → PlanCandidate → Option Quote → Verdict
  assess i c none = refused c.venue no_orderbook
  assess i c (some q) = assess_quote i c q

  -- `zip(phase1, quotes)` with the function that fetches the quotes.
  unfoldable pub verdicts : (Instrument → Option Quote) → Intent → List PlanCandidate → List Verdict
  verdicts fetch i = map λ c. assess i c (fetch c.instrument)

  abbrev pub keep_planned : Verdict → List PlannedLeg → List PlannedLeg
  keep_planned (planned l) ls = l ∷ ls
  keep_planned (refused v r) ls = ls

  abbrev pub keep_rejected : Verdict → List (String × Reason) → List (String × Reason)
  keep_rejected (planned l) rs = rs
  keep_rejected (refused v r) rs = (v, r) ∷ rs

  unfoldable pub planned_legs : List Verdict → List PlannedLeg
  planned_legs [] = []
  planned_legs (v ∷ vs) = keep_planned v (planned_legs vs)

  unfoldable pub rejected_legs : List Verdict → List (String × Reason)
  rejected_legs [] = []
  rejected_legs (v ∷ vs) = keep_rejected v (rejected_legs vs)

  unfoldable pub sum_of : (PlannedLeg → F) → F → List PlannedLeg → F
  sum_of f acc [] = acc
  sum_of f acc (l ∷ ls) = sum_of f (fl.add acc (f l)) ls

  unfoldable pub aggregate_price : List PlannedLeg → F
  unfolding sum_of
  aggregate_price legs =
      let total = sum_of (λ l. l.planned_notional_usd) nought legs in
      let weighted =
        sum_of (λ l. fl.mul l.estimated_fill.avg_price l.planned_notional_usd) nought legs in
      if is_empty legs then nought else if fl.lt nought total then fl.div weighted total else nought

  abbrev pub with_venue : String × Reason → Option String × Reason
  with_venue (v, r) = (some v, r)

  -- The plan that phases 1 to 3 end with.
  unfoldable pub build_plan : Intent → List PlannedLeg → List (String × Reason) → Plan
  unfolding aggregate_price sum_of
  build_plan i legs rejected = record {
    intent = i;
    legs = legs;
    rejected_venues = rejected;
    aggregate_estimated_avg_price = aggregate_price legs;
    aggregate_estimated_fee_usd = sum_of (λ l. l.estimated_fee_usd) nought legs;
    is_acceptable = not (is_empty legs) && is_empty rejected;
    rejection_reasons =
        (if is_empty legs then (none, no_legs) ∷ [] else []) ++ map with_venue rejected;
  }

  -- `Planner.plan`; `fetch` is the result of `fetch_many`, slot by slot.
  unfoldable pub plan : Registry → (Instrument → Option Quote) → Intent → Plan
  unfolding build_plan
  plan reg fetch i =
      let vs = verdicts fetch i (candidates reg i i.split) in
      build_plan i (planned_legs vs) (unresolved reg i i.split ++ rejected_legs vs)
