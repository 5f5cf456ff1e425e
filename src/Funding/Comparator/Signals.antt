-- ===== src/Funding/Comparator/Signals.antt =====
-- When the comparator signals an entry, and in which order it lists the pairs.
use omni_trade.Prelude.{
  ◌≡◌, ◌⊎◌, refl, Bool, true, false, ◌&&◌, Option, none, some, or_else, List, map, Leading,
  sort-Leading, sort-Perm, arith, Bool-cases, inl, inr,
}
use mathlib.Core.List.{Perm}
use omni_trade.Float.{Float, F, nought, absolute}
use omni_trade.Market.Instrument.{of_int}
use omni_trade.Market.Pairs.{CrossVenuePair}
use omni_trade.Funding.Comparator.{
  open_long_a_short_b, no_signal, SideData, NetReturn, FundingSpread, Rates, same_sign,
  funding_hours, funding_collected, compute_net_return, known, rate_of, compare, compare_pair,
  goes_before, compare_all,
}

module _ ⦃fl : Float⦄ where
  -- Both rates are positive, or both are negative.
  abbrev pub SameSign : F → F → Type 0
  SameSign x y =
      ((fl.lt nought x ≡ true) × (fl.lt nought y ≡ true))
      ⊎ ((fl.lt x nought ≡ true) × (fl.lt y nought ≡ true))

  -- What the funding of a period may bring: nothing, or the absolute rate, in percent, of the venue
  -- that is shorted or bought, the first if its rate is the lower one and the second otherwise.
  abbrev pub FundingGain : F → F → F → Type 0
  FundingGain rate_a rate_b x =
      (x ≡ nought)
      ⊎ ((fl.lt rate_a rate_b ≡ true) × (x ≡ fl.mul (absolute rate_a) (of_int 100)))
      ⊎ ((fl.lt rate_a rate_b ≡ false) × (x ≡ fl.mul (absolute rate_b) (of_int 100)))

  -- Half of both premiums, and the funding, less the fees of opening and closing on both sides, in
  -- percent, and the slippages.
  abbrev pub earned : SideData → SideData → F → F
  earned x y funding =
      fl.sub
        (fl.add (fl.mul (fl.add (absolute x.premium) (absolute y.premium)) (fl.literal 5 1))
          funding)
        (fl.add (fl.mul (fl.mul (fl.add x.taker_fee y.taker_fee) (of_int 2)) (of_int 100))
          (fl.add x.slippage_pct y.slippage_pct))

  -- The sides have the premiums of the rates, or 0, and the fees of their instruments, and no
  -- slippage is expected.
  abbrev pub SidesOf : Rates → CrossVenuePair → SideData → SideData → Type 0
  SidesOf rates p x y =
      (x.premium ≡ or_else (rate_of p.venue_a p.instrument_a.venue_symbol rates).premium_pct nought)
      × (y.premium
          ≡ or_else (rate_of p.venue_b p.instrument_b.venue_symbol rates).premium_pct nought)
      × (x.taker_fee ≡ p.instrument_a.taker_fee_rate)
      × (y.taker_fee ≡ p.instrument_b.taker_fee_rate)
      × (x.slippage_pct ≡ nought)
      × (y.slippage_pct ≡ nought)

  -- The conditions of an entry: both rates are known and not of the same sign, the pair is
  -- profitable, and the spread exceeds the minimum.
  pub record Worthwhile (rates : Rates) (min_spread : F) (s : FundingSpread) : Type 0 where
    pub first_rate : F
    pub second_rate : F
    pub rates_known : (s.rate_a ≡ some first_rate) × (s.rate_b ≡ some second_rate)
    pub spread_known : s.spread ≡ some (fl.sub second_rate first_rate)
    pub opposed : SameSign first_rate second_rate → ⊥
    pub profits : s.is_profitable ≡ true
    pub side_a : SideData
    pub side_b : SideData
    pub sides : SidesOf rates s.pair side_a side_b
    pub gain : F
    pub gain_known : FundingGain first_rate second_rate gain
    pub earns : fl.lt nought (earned side_a side_b gain) ≡ true
    pub exceeds :
        fl.lt min_spread (fl.mul (absolute (fl.sub second_rate first_rate)) (of_int 100)) ≡ true
    -- Whether the second rate is the higher one.
    pub rises :
        fl.lt nought (fl.sub second_rate first_rate)
        ≡ (elim s.signal [ open_long_a_short_b ↦ true | _ ↦ false ])

  abbrev pub Sound : Rates → F → FundingSpread → Type 0
  Sound rates min_spread s = (s.signal ≡ no_signal) ⊎ Worthwhile rates min_spread s

  -- A profitable return is what is earned, for rates of different signs.
  abbrev Earns : F → F → SideData → SideData → NetReturn → Type 0
  Earns ra rb x y net =
      (net.is_profitable ≡ false)
      ⊎ ((SameSign ra rb → ⊥)
          × ((gain : F) × FundingGain ra rb gain × (fl.lt nought (earned x y gain) ≡ true)))

  gains : (ra rb : F) (a_first : Bool) → FundingGain ra rb (funding_collected ra rb a_first)
  gains ra rb a_first = elim (Bool-cases (fl.lt ra rb)) [
    | inl lower ↦ rw lower (elim (Bool-cases a_first) [
      | inl e ↦ rw e (inr (inl (refl, refl)))
      | inr e ↦ rw e (inl refl)
    ])
    | inr higher ↦ rw higher (elim (Bool-cases a_first) [
      | inl e ↦ rw e (inl refl)
      | inr e ↦ rw e (inr (inr (refl, refl)))
    ])
  ]

  SameSign-guard : (ra rb : F) → SameSign ra rb → same_sign ra rb ≡ true
  SameSign-guard ra rb h = ground (arith, h)

  compute-Earns :
      (now ra rb : F) (x y : SideData) → Earns ra rb x y (compute_net_return now ra rb x y)
  unfolding compute_net_return
  compute-Earns now ra rb x y =
      let a_first = fl.le (funding_hours x.next_funding now) (funding_hours y.next_funding now) in
      let gain = funding_collected ra rb a_first in
      elim (Bool-cases (same_sign ra rb)) [
        | inl same ↦ inl (rw same refl)
        | inr differ ↦ elim (Bool-cases (fl.lt nought (earned x y gain))) [
          | inr loss ↦ inl (rw (differ, loss) refl)
          | inl profit ↦ inr (
            (λ s. absurd (cc (SameSign-guard ra rb s, differ))),
            (gain, gains ra rb a_first, profit),
          )
        ]
      ]

  known-Sound :
      (rates : Rates) (m : F) (p : CrossVenuePair) (ra rb : F) (x y : SideData) (net : NetReturn)
      → SidesOf rates p x y
      → Earns ra rb x y net
      → Sound rates m (known m p ra rb x y net)
  known-Sound rates m p ra rb x y net sides earns =
      let spread = fl.sub rb ra in
      let exceeds = fl.lt m (fl.mul (absolute spread) (of_int 100)) in
      elim (Bool-cases (net.is_profitable && exceeds)) [
        | inr e ↦ inl (rw e refl)
        | inl e ↦ elim earns [
          | inl loss ↦ absurd (ground (arith, e, loss))
          | inr (opposed, (gain, gain_known, earns)) ↦ inr (record {
            first_rate = ra;
            second_rate = rb;
            rates_known = (refl, refl);
            spread_known = refl;
            opposed = opposed;
            profits = ground (arith, e);
            side_a = x;
            side_b = y;
            sides = sides;
            gain = gain;
            gain_known = gain_known;
            earns = earns;
            exceeds = ground (arith, e);
            rises = elim (Bool-cases (fl.lt nought spread)) [
              | inl up ↦ rw (e, up) refl
              | inr down ↦ rw (e, down) refl
            ];
          })
        ]
      ]

  pub compare-Sound :
      (rates : Rates) (m now : F) (p : CrossVenuePair) (ra rb : Option F) (x y : SideData)
      → SidesOf rates p x y
      → Sound rates m (compare m now p ra rb x y)
  unfolding compare
  compare-Sound rates m now p (some ra) (some rb) x y sides =
      known-Sound rates m p ra rb x y (compute_net_return now ra rb x y) sides
        (compute-Earns now ra rb x y)
  compare-Sound rates m now p (some ra) none x y sides = inl refl
  compare-Sound rates m now p none rb x y sides = inl refl

  -- The comparison of all pairs has one entry for each pair, with the profitable ones first.
  pub compare_all-Leading :
      (m now : F) (ps : List CrossVenuePair) (rates : Rates)
      → Perm (compare_all m now ps rates) (map (compare_pair m now rates) ps)
        × Leading (λ s. s.is_profitable) (compare_all m now ps rates)
  unfolding compare_all
  compare_all-Leading m now ps rates = (
    sort-Perm goes_before _,
    sort-Leading (λ s. s.is_profitable) goes_before (λ s t hs ht. rw (hs, ht) refl)
        (λ s t hs ht. rw (hs, ht) refl) _,
  )
