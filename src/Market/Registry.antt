-- ===== src/Market/Registry.antt =====
-- src/market/registry.py: the in-memory table of instruments and its queries.
pub mod Lookup
use omni_trade.Prelude.{
  ◌≡◌, refl, String, Bool, true, false, ◌&&◌, ◌==◌, Option, none, some, List, [], ◌∷◌, select,
  if◌then◌else◌,
}
use omni_trade.Float.{Float}
use omni_trade.Market.Instrument.{Instrument, Key, instrument_key}

module _ ⦃fl : Float⦄ where
  abbrev pub same_key : Key → Key → Bool
  same_key a b =
      a.venue == b.venue
      && a.network == b.network
      && a.market_type == b.market_type
      && a.base == b.base
      && a.quote == b.quote

  -- `self._instruments`, in insertion order; a key has one entry.
  pub record Registry : Type 0 where
    pub instruments : List Instrument

  -- `d[key] = v`: a key that is there keeps its place.
  unfoldable pub put : Instrument → List Instrument → List Instrument
  unfolding instrument_key
  put new [] = new ∷ []
  put new (i ∷ rest) =
      let later = put new rest in
      if same_key (instrument_key i) (instrument_key new) then new ∷ rest else i ∷ later

  unfoldable pub add : Registry → Instrument → Registry
  unfolding put
  add r i = record { instruments = put i r.instruments }

  abbrev pub accepts : Option String → String → Bool
  accepts none s = true
  accepts (some want) s = s == want

  unfoldable pub list_instruments :
      Registry → Option String → Option String → Option String → List Instrument
  list_instruments r base market_type venue =
      select
        (λ i.
          accepts base i.base.symbol && accepts market_type i.market_type && accepts venue i.venue)
        r.instruments

  -- `for instr in candidates`
  unfoldable pub first_quoted : String → List Instrument → Option Instrument
  first_quoted preferred [] = none
  first_quoted preferred (i ∷ rest) =
      if i.quote.symbol == preferred then some i else first_quoted preferred rest

  abbrev pub or_next : Option Instrument → Option Instrument → Option Instrument
  or_next none later = later
  or_next (some i) later = some i

  -- `for preferred_quote in quote_preference`
  unfoldable pub pick : List String → List Instrument → Option Instrument
  unfolding first_quoted
  pick [] candidates = none
  pick (preferred ∷ others) candidates =
      or_next (first_quoted preferred candidates) (pick others candidates)

  unfoldable pub find_one : Registry → String → String → String → List String → Option Instrument
  unfolding list_instruments pick
  find_one r base venue market_type quote_preference =
      pick quote_preference (list_instruments r (some base) (some market_type) (some venue))
