-- ===== src/Market/Pairs/Matched.antt =====
-- Which pairs src/market/pair_matcher.py finds.
use omni_trade.Prelude.{
  Before, here, later, keep-Before, kept-Before, Before-nil, ◌≡◌, refl, sym, ap, subst, ltb, String,
  Bool, true, false, ◌&&◌, ◌==◌, Option, some, List, [], ◌∷◌, length, All, All-append, arith,
  Bool-cases, inl, inr,
}
use mathlib.Core.List.{Memᴰ}
use mathlib.Core.List.Memᴰ
use omni_trade.Float.{Float}
use omni_trade.Market.Instrument.{Instrument}
use omni_trade.Market.Registry.{Registry, list_instruments}
use omni_trade.Market.Pairs.{
  CrossVenuePair, new_pair, pairs_with, all_pairs, is_trading, trading_perps, pairs_of, bases_of,
  find_pairs,
}

module _ ⦃fl : Float⦄ where
  -- A perpetual of the base that is trading.
  abbrev pub is_eligible : String → Instrument → Bool
  is_eligible base i =
      i.base.symbol == base && i.market_type == "perp" && i.listing_status == "trading"

  -- A pair of two different entries of the registry that belong together.
  pub record Matched (r : Registry) (p : CrossVenuePair) : Type 0 where
    pub in_order : Before p.instrument_a p.instrument_b r.instruments
    pub first_fits : is_eligible p.base p.instrument_a ≡ true
    pub second_fits : is_eligible p.base p.instrument_b ≡ true
    pub venues : (p.venue_a ≡ p.instrument_a.venue) × (p.venue_b ≡ p.instrument_b.venue)

  trading-Before :
      (r : Registry) (base : String) (a b : Instrument)
      → Before a b (trading_perps r base)
      → Matched r (new_pair base a b)
  unfolding list_instruments new_pair
  trading-Before r base a b h =
      let k = kept-Before is_trading a b _ h in
      let l = kept-Before _ a b r.instruments k.0 in
      record {
        in_order = l.0;
        first_fits = ground (arith, k.1, l.1);
        second_fits = ground (arith, k.2, l.2);
        venues = (refl, refl);
      }

  Before-trading :
      (r : Registry) (base : String) (a b : Instrument)
      → is_eligible base a ≡ true
      → is_eligible base b ≡ true
      → Before a b r.instruments
      → Before a b (trading_perps r base)
  unfolding list_instruments
  Before-trading r base a b ha hb h =
      keep-Before is_trading a b _ (ground (arith, ha)) (ground (arith, hb))
        (keep-Before _ a b r.instruments (ground (arith, ha)) (ground (arith, hb)) h)

  module _ (base : String) (Q : CrossVenuePair → Type 0) where
    pairs_with-All :
        (a : Instrument) (xs : List Instrument)
        → ((b : Instrument) → Memᴰ b xs → Q (new_pair base a b))
        → All Q (pairs_with base a xs)
    unfolding pairs_with
    pairs_with-All a [] h = tt
    pairs_with-All a (b ∷ xs) h =
        (h b (Memᴰ.head refl), pairs_with-All a xs λ c m. h c (Memᴰ.tail m))

    all_pairs-All :
        (xs : List Instrument)
        → ((a b : Instrument) → Before a b xs → Q (new_pair base a b))
        → All Q (all_pairs base xs)
    unfolding all_pairs
    all_pairs-All [] h = tt
    all_pairs-All (a ∷ xs) h =
        All-append Q (pairs_with base a xs) _ (pairs_with-All a xs λ b m. h a b (here refl m))
          (all_pairs-All xs λ c d k. h c d (later k))

  pairs_of-Matched : (r : Registry) (bases : List String) → All (Matched r) (pairs_of r bases)
  unfolding pairs_of
  pairs_of-Matched r [] = tt
  pairs_of-Matched r (base ∷ bases) = elim (Bool-cases (ltb (length (trading_perps r base)) 2)) [
    | inl e ↦ rw e (pairs_of-Matched r bases)
    | inr e ↦ rw e (
        All-append (Matched r) (all_pairs base (trading_perps r base)) _
          (all_pairs-All base (Matched r) _ (trading-Before r base)) (pairs_of-Matched r bases))
  ]

  -- Every pair that is found consists of two entries of the registry in its order, both of them
  -- trading perpetuals of the pair's base, with their venues.
  pub find_pairs-Matched :
      (r : Registry) (base_filter : Option (List String))
      → All (Matched r) (find_pairs r base_filter)
  unfolding find_pairs
  find_pairs-Matched r base_filter = pairs_of-Matched r (bases_of r base_filter)

  pairs_with-mem :
      (base : String) (a b : Instrument) (xs : List Instrument)
      → Memᴰ b xs
      → Memᴰ (new_pair base a b) (pairs_with base a xs)
  unfolding pairs_with
  pairs_with-mem base a b [] m = absurd (Memᴰ.not-nil m)
  pairs_with-mem base a b (x ∷ xs) (Memᴰ.head e) = Memᴰ.head (ap (new_pair base a) e)
  pairs_with-mem base a b (x ∷ xs) (Memᴰ.tail m) = Memᴰ.tail (pairs_with-mem base a b xs m)

  all_pairs-mem :
      (base : String) (a b : Instrument) (xs : List Instrument)
      → Before a b xs
      → Memᴰ (new_pair base a b) (all_pairs base xs)
  unfolding all_pairs
  all_pairs-mem base a b [] h = absurd (Before-nil h)
  all_pairs-mem base a b (x ∷ xs) (here e m) = Memᴰ.append_left _ (
      subst (λ y. Memᴰ (new_pair base a b) (pairs_with base y xs)) e (pairs_with-mem base a b xs m))
  all_pairs-mem base a b (x ∷ xs) (later h) =
      Memᴰ.append_right (pairs_with base x xs) (all_pairs-mem base a b xs h)

  two_of : {a b : Instrument} (xs : List Instrument) → Before a b xs → ltb (length xs) 2 ≡ false
  two_of (x ∷ y ∷ xs) h = ground arith
  two_of (x ∷ []) (here e m) = absurd (Memᴰ.not-nil m)
  two_of (x ∷ []) (later h) = absurd (Before-nil h)
  two_of [] h = absurd (Before-nil h)

  pairs_of-mem :
      (r : Registry) (base : String) (a b : Instrument) (bases : List String)
      → Memᴰ base bases
      → Before a b (trading_perps r base)
      → Memᴰ (new_pair base a b) (pairs_of r bases)
  unfolding pairs_of
  pairs_of-mem r base a b [] m h = absurd (Memᴰ.not-nil m)
  pairs_of-mem r base a b (x ∷ bases) (Memᴰ.head e) h =
      let k : Before a b (trading_perps r x) = subst (λ y. Before a b (trading_perps r y)) e h in
      rw (two_of _ k) (
        Memᴰ.append_left _ (
          subst (λ y. Memᴰ (new_pair y a b) (all_pairs x (trading_perps r x))) (sym e)
            (all_pairs-mem x a b _ k)))
  pairs_of-mem r base a b (x ∷ bases) (Memᴰ.tail m) h =
      let rest = pairs_of-mem r base a b bases m h in
      elim (Bool-cases (ltb (length (trading_perps r x)) 2)) [
        | inl e ↦ rw e rest
        | inr e ↦ rw e (Memᴰ.append_right (all_pairs x (trading_perps r x)) rest)
      ]

  -- Two trading perpetuals of a base that is looked for are found as a pair, in the registry's
  -- order.
  pub find_pairs-complete :
      (r : Registry) (bases : List String) (base : String) (a b : Instrument)
      → Memᴰ base bases
      → is_eligible base a ≡ true
      → is_eligible base b ≡ true
      → Before a b r.instruments
      → Memᴰ (new_pair base a b) (find_pairs r (some bases))
  unfolding find_pairs
  find_pairs-complete r bases base a b m ha hb h =
      pairs_of-mem r base a b bases m (Before-trading r base a b ha hb h)
