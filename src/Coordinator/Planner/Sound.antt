-- ===== src/Coordinator/Planner/Sound.antt =====
-- What the planner of src/coordinator/planner.py promises of each leg.
use omni_trade.Prelude.{
  ◌≡◌, refl, String, Bool, true, false, not, ◌&&◌, Option, none, some, List, [], ◌∷◌, ◌++◌,
  is_empty, All, if◌then◌else◌, Bool-cases, inl, inr, arith,
}
use omni_trade.Float.{Float, F, nought}
use omni_trade.Market.Instrument.{Instrument, round_qty, of_int}
use omni_trade.Market.Quote.{EstimatedFill, Quote, estimate_fill}
use omni_trade.Market.Registry.{Registry, find_one}
use omni_trade.Coordinator.Intent.{
  Intent, get_leg_config, resolve_product, resolve_side, resolve_leverage,
}
use omni_trade.Coordinator.Plan.{PlannedLeg, Violation, Reason}
use omni_trade.Coordinator.Planner.{
  PlanCandidate, Verdict, planned, refused, candidate, resolve, keep_candidate, candidates,
  compute_notional, exceeds, funding_exceeds, check_thresholds, assess_fill, assess_quote, assess,
  verdicts, keep_planned, planned_legs, build_plan, plan,
}

module _ ⦃fl : Float⦄ where
  -- A value that is known does not exceed a limit that is given.
  abbrev pub Within : Option F → Option F → Type 0
  Within (some x) (some limit) = fl.lt limit x ≡ false
  Within _ _ = Unit

  -- The same for a rate, in percent.
  abbrev pub WithinPercent : Option F → Option F → Type 0
  WithinPercent (some rate) limit = Within (some (fl.mul rate (of_int 100))) limit
  WithinPercent none limit = Unit

  exceeds-Within :
      (x : F) (limit : Option F) (v : F → Violation)
      → is_empty (exceeds x limit v) ≡ true
      → Within (some x) limit
  exceeds-Within x none v h = tt
  exceeds-Within x (some limit) v h = elim (Bool-cases (fl.lt limit x)) [
    | inl over ↦ absurd (ground (arith, h, over))
    | inr fine ↦ fine
  ]

  funding-Within :
      (rate limit : Option F)
      → is_empty (funding_exceeds rate limit) ≡ true
      → WithinPercent rate limit
  funding-Within none limit h = tt
  funding-Within (some rate) limit h = exceeds-Within _ limit _ h

  empty_parts :
      {A : Type 0} (xs ys zs : List A)
      → not (is_empty (xs ++ (ys ++ zs))) ≡ false
      → (is_empty xs ≡ true) × (is_empty ys ≡ true) × (is_empty zs ≡ true)
  empty_parts [] [] [] h = (refl, refl, refl)
  empty_parts [] [] (z ∷ zs) h = absurd (cc h)
  empty_parts [] (y ∷ ys) zs h = absurd (cc h)
  empty_parts (x ∷ xs) ys zs h = absurd (cc h)

  Within-limits :
      (fill : EstimatedFill) (fee : F) (rate : Option F) (i : Intent)
      → not (is_empty (check_thresholds fill fee rate i)) ≡ false
      → Within (some fill.slippage_pct) i.max_slippage_pct
        × Within (some fee) i.max_fee_usd
        × WithinPercent rate i.max_funding_rate_pct
  unfolding check_thresholds
  Within-limits fill fee rate i h =
      let parts = empty_parts _ _ _ h in
      (
        exceeds-Within fill.slippage_pct i.max_slippage_pct _ parts.0,
        exceeds-Within fee i.max_fee_usd _ parts.1,
        funding-Within rate i.max_funding_rate_pct parts.2,
      )

module _ ⦃fl : Float⦄ (reg : Registry) (fetch : Instrument → Option Quote) (i : Intent) where
  abbrev lookup : String → Option Instrument
  lookup venue =
      find_one reg i.base venue (resolve_product (get_leg_config i venue) i.product)
        i.quote_preference

  -- A leg of the plan against the registry, the quotes and the limits of the intent.
  pub record GoodLeg (l : PlannedLeg) : Type 0 where
    pub quote : Quote
    pub found : lookup l.venue ≡ some l.instrument
    pub fetched : fetch l.instrument ≡ some quote
    pub side : l.side ≡ resolve_side (get_leg_config i l.venue) i.side
    pub leverage : l.leverage ≡ resolve_leverage (get_leg_config i l.venue) i.leverage
    pub sized :
        l.planned_qty_base ≡ round_qty l.instrument (fl.div l.planned_notional_usd quote.mid_price)
    pub estimated : l.estimated_fill ≡ estimate_fill quote l.planned_qty_base l.side
    pub positive : fl.le l.planned_qty_base nought ≡ false
    pub above_min :
        (fl.lt nought l.instrument.min_notional
          && fl.lt l.planned_notional_usd l.instrument.min_notional)
        ≡ false
    pub filled : l.estimated_fill.filled_fully ≡ true
    pub fee :
        (ratio : F) × (l.planned_notional_usd ≡ fl.mul i.total_notional_usd ratio)
        × (l.estimated_fee_usd
            ≡ fl.div
                (fl.mul l.planned_notional_usd
                  (fl.add l.instrument.taker_fee_rate l.instrument.maker_fee_rate))
                (of_int 2))
    pub funding_rate : l.funding_rate ≡ quote.funding_rate
    pub within_slippage : Within (some l.estimated_fill.slippage_pct) i.max_slippage_pct
    pub within_fee : Within (some l.estimated_fee_usd) i.max_fee_usd
    pub within_funding : WithinPercent l.funding_rate i.max_funding_rate_pct

  record IsCandidate (c : PlanCandidate) : Type 0 where
    pub found : lookup c.venue ≡ some c.instrument
    pub side : c.leg_side ≡ resolve_side (get_leg_config i c.venue) i.side
    pub leverage : c.leg_leverage ≡ resolve_leverage (get_leg_config i c.venue) i.leverage

  abbrev AllCandidates : Option PlanCandidate → List PlanCandidate → Type 0
  AllCandidates o cs = All IsCandidate (keep_candidate o cs)

  candidate-IsCandidate :
      (venue : String) (ratio : F) (o : Option Instrument) (cs : List PlanCandidate)
      → lookup venue ≡ o
      → All IsCandidate cs
      → AllCandidates (candidate i venue ratio o) cs
  unfolding candidate
  candidate-IsCandidate venue ratio none cs h k = k
  candidate-IsCandidate venue ratio (some inst) cs h k =
      (record { found = h; side = refl; leverage = refl }, k)

  candidates-All : (split : List (String × F)) → All IsCandidate (candidates reg i split)
  unfolding candidates resolve
  candidates-All [] = tt
  candidates-All ((venue, ratio) ∷ rest) =
      candidate-IsCandidate venue ratio _ _ refl (candidates-All rest)

  -- The verdict on a candidate is on its venue, and a planned leg is good.
  unfoldable Judged : PlanCandidate → Verdict → Type 0
  Judged c (planned l) = GoodLeg l × (l.venue ≡ c.venue)
  Judged c (refused v r) = v ≡ c.venue

  refused-Judged : (c : PlanCandidate) (r : Reason) → Judged c (refused c.venue r)
  unfolding Judged
  refused-Judged c r = refl

  planned-Judged :
      (c : PlanCandidate) (l : PlannedLeg) → GoodLeg l → l.venue ≡ c.venue → Judged c (planned l)
  unfolding Judged
  planned-Judged c l g h = (g, h)

  Judged-if :
      (c : PlanCandidate) (b : Bool) (x y : Verdict)
      → Judged c x
      → (b ≡ false → Judged c y)
      → Judged c (if b then x else y)
  Judged-if c true x y h k = h
  Judged-if c false x y h k = k refl

  of_not : (b : Bool) → not b ≡ false → b ≡ true
  of_not true h = refl
  of_not false h = absurd (cc h)

  assess_fill-Judged :
      (c : PlanCandidate) (q : Quote)
      → IsCandidate c
      → fetch c.instrument ≡ some q
      → let notional = compute_notional i.total_notional_usd c.split_ratio in
        let qty = round_qty c.instrument (fl.div notional q.mid_price) in
        (fl.lt nought c.instrument.min_notional && fl.lt notional c.instrument.min_notional) ≡ false
        → fl.le qty nought ≡ false
        → Judged c (assess_fill i c q notional qty (estimate_fill q qty c.leg_side))
  unfolding assess_fill compute_notional
  assess_fill-Judged c q k h above positive =
      let notional = compute_notional i.total_notional_usd c.split_ratio in
      let qty = round_qty c.instrument (fl.div notional q.mid_price) in
      let fill = estimate_fill q qty c.leg_side in
      let fee_usd =
        fl.div (fl.mul notional (fl.add c.instrument.taker_fee_rate c.instrument.maker_fee_rate))
          (of_int 2) in
      elim (Bool-cases (not fill.filled_fully)) [
        | inl short ↦ rw short (refused-Judged c _)
        | inr full ↦
            elim (Bool-cases (not (is_empty (check_thresholds fill fee_usd q.funding_rate i)))) [
              | inl beyond ↦ rw (full, beyond) (refused-Judged c _)
              | inr within ↦
                  rw (full, within)
                    (planned-Judged c _
                      (record {
                        quote = q;
                        found = k.found;
                        fetched = h;
                        side = k.side;
                        leverage = k.leverage;
                        sized = refl;
                        estimated = refl;
                        positive = positive;
                        above_min = above;
                        filled = of_not _ full;
                        fee = (c.split_ratio, refl, refl);
                        funding_rate = refl;
                        within_slippage = (Within-limits fill fee_usd q.funding_rate i within).0;
                        within_fee = (Within-limits fill fee_usd q.funding_rate i within).1;
                        within_funding = (Within-limits fill fee_usd q.funding_rate i within).2;
                      })
                      refl)
            ]
      ]

  assess-Judged :
      (c : PlanCandidate) (o : Option Quote)
      → IsCandidate c
      → fetch c.instrument ≡ o
      → Judged c (assess i c o)
  unfolding assess assess_quote
  assess-Judged c none k h = refused-Judged c _
  assess-Judged c (some q) k h = search (Judged-if, refused-Judged, assess_fill-Judged)

  keep_planned-All :
      (c : PlanCandidate) (v : Verdict) (ls : List PlannedLeg)
      → Judged c v
      → All GoodLeg ls
      → All GoodLeg (keep_planned v ls)
  unfolding Judged
  keep_planned-All c (planned l) ls h k = (h.0, k)
  keep_planned-All c (refused v r) ls h k = k

  verdicts-All :
      (cs : List PlanCandidate)
      → All IsCandidate cs
      → All GoodLeg (planned_legs (verdicts fetch i cs))
  unfolding verdicts planned_legs
  verdicts-All [] k = tt
  verdicts-All (c ∷ cs) k =
      keep_planned-All c _ _ (assess-Judged c _ k.0 refl) (verdicts-All cs k.1)

  -- Every leg of a plan is for the instrument that the registry prefers for its venue, has the side
  -- and the leverage of the venue's configuration, a size rounded from its notional at the quote's
  -- mid price, and the estimated fill of that size in the fetched book. The book fills it in full,
  -- and its notional is not below the instrument's minimum. Its slippage is that of the estimated
  -- fill, its fee the notional times the mean of the taker and the maker rate, its funding rate
  -- that of the quote; none of the three exceeds the intent's limit, where there is one.
  pub plan-GoodLeg : All GoodLeg (plan reg fetch i).legs
  unfolding plan build_plan
  plan-GoodLeg = verdicts-All _ (candidates-All i.split)
