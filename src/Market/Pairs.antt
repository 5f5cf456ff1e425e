-- ===== src/Market/Pairs.antt =====
-- src/market/pair_matcher.py: two perpetuals of the same base.
pub mod Matched
use omni_trade.Prelude.{
  ltb, String, Bool, ◌==◌, Option, none, some, List, [], ◌∷◌, ◌++◌, map, select, length, sorted_set,
  if◌then◌else◌,
}
use omni_trade.Float.{Float}
use omni_trade.Market.Instrument.{Instrument}
use omni_trade.Market.Registry.{Registry, list_instruments}

module _ ⦃fl : Float⦄ where
  pub record CrossVenuePair : Type 0 where
    pub base : String
    pub venue_a : String
    pub venue_b : String
    pub instrument_a : Instrument
    pub instrument_b : Instrument

  unfoldable pub new_pair : String → Instrument → Instrument → CrossVenuePair
  new_pair base a b = record {
    base = base;
    venue_a = a.venue;
    venue_b = b.venue;
    instrument_a = a;
    instrument_b = b;
  }

  -- `for j in range(i + 1, len(instruments))`
  unfoldable pub pairs_with : String → Instrument → List Instrument → List CrossVenuePair
  unfolding new_pair
  pairs_with base a [] = []
  pairs_with base a (b ∷ later) = new_pair base a b ∷ pairs_with base a later

  -- `for i in range(len(instruments))`
  unfoldable pub all_pairs : String → List Instrument → List CrossVenuePair
  unfolding pairs_with
  all_pairs base [] = []
  all_pairs base (a ∷ later) = pairs_with base a later ++ all_pairs base later

  abbrev pub is_trading : Instrument → Bool
  is_trading i = i.listing_status == "trading"

  abbrev pub trading_perps : Registry → String → List Instrument
  trading_perps r base = select is_trading (list_instruments r (some base) (some "perp") none)

  -- `for base in bases`
  unfoldable pub pairs_of : Registry → List String → List CrossVenuePair
  unfolding all_pairs
  pairs_of r [] = []
  pairs_of r (base ∷ bases) =
      let instruments = trading_perps r base in
      let rest = pairs_of r bases in
      if ltb (length instruments) 2 then rest else all_pairs base instruments ++ rest

  abbrev pub bases_of : Registry → Option (List String) → List String
  bases_of r none =
      sorted_set (map (λ i. i.base.symbol) (list_instruments r none (some "perp") none))
  bases_of r (some bases) = bases

  unfoldable pub find_pairs : Registry → Option (List String) → List CrossVenuePair
  unfolding pairs_of
  find_pairs r base_filter = pairs_of r (bases_of r base_filter)
