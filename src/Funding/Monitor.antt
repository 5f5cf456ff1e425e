-- ===== src/Funding/Monitor.antt =====
-- `scan_once` of src/strategy/funding_arb/monitor.py.
pub mod Steps
use omni_trade.Prelude.{
  String, Bool, true, false, ◌&&◌, ◌==◌, Option, none, some, List, [], ◌∷◌, ◌++◌, any, is_empty,
  if◌then◌else◌,
}
use omni_trade.Exec.{Exec, pure, gets, ◌>>=◌, ◌>>◌}
use omni_trade.Float.{Float, F}
use omni_trade.Market.Instrument.{Instrument}
use omni_trade.Market.Registry.{Registry}
use omni_trade.Market.Pairs.{CrossVenuePair, find_pairs}
use omni_trade.World.{Env, World}
use omni_trade.Persistence.Tables.{insert_funding_snapshot}
use omni_trade.Funding.Comparator.{FundingSpread, RateInfo, Rates, compare_all}
use omni_trade.Funding.RateCache.{get, refresh}

module _ ⦃fl : Float⦄ where
  -- The attributes `_registry` of the matcher, `_ttl` of the cache and `_min_spread` of the
  -- comparator.
  pub record Monitor : Type 0 where
    pub registry : Registry
    pub ttl : F
    pub min_spread : F

  abbrev pub is_seen : Instrument → List Instrument → Bool
  is_seen i seen = any (λ j. j.venue == i.venue && j.venue_symbol == i.venue_symbol) seen

  abbrev pub see : Instrument → List Instrument → List Instrument
  see i seen = if is_seen i seen then seen else seen ++ i ∷ []

  -- `all_instruments`, in the order in which they are met.
  unfoldable pub unique_instruments : List CrossVenuePair → List Instrument → List Instrument
  unique_instruments [] seen = seen
  unique_instruments (p ∷ ps) seen =
      unique_instruments ps (see p.instrument_b (see p.instrument_a seen))

  abbrev pub add_rate : Instrument → Option RateInfo → Rates → Rates
  add_rate i none rates = rates
  add_rate i (some info) rates = (i.venue, i.venue_symbol, info) ∷ rates

module _ ⦃fl : Float⦄ ⦃env : Env⦄ where
  -- The dictionary `rates`; its keys are distinct.
  unfoldable pub collect_rates : F → List Instrument → Exec World Rates
  unfolding get
  collect_rates ttl [] = pure []
  collect_rates ttl (i ∷ is) = do
    entry ← get ttl i.venue i.venue_symbol
    rest ← collect_rates ttl is
    pure (add_rate i entry rest)

  abbrev pub insert_known : Instrument → Option RateInfo → Exec World (Unit {0})
  insert_known i none = pure tt
  insert_known i (some info) =
      insert_funding_snapshot i.venue i.venue_symbol info.funding_rate info.next_funding_time none

  unfoldable pub persist_snapshots : F → List Instrument → Exec World (Unit {0})
  unfolding get insert_funding_snapshot
  persist_snapshots ttl [] = pure tt
  persist_snapshots ttl (i ∷ is) = do
    entry ← get ttl i.venue i.venue_symbol
    insert_known i entry
    persist_snapshots ttl is

  unfoldable pub scan_pairs : Monitor → List CrossVenuePair → Exec World (List FundingSpread)
  unfolding unique_instruments refresh collect_rates persist_snapshots compare_all
  scan_pairs m pairs = do
    let instruments : List Instrument = unique_instruments pairs []
    refresh instruments
    rates ← collect_rates m.ttl instruments
    now ← gets (λ w. env.time w.journal)
    persist_snapshots m.ttl instruments
    pure (compare_all m.min_spread now pairs rates)

  unfoldable pub scan_once : Monitor → Option (List String) → Exec World (List FundingSpread)
  unfolding find_pairs scan_pairs
  scan_once m base_filter =
      let pairs = find_pairs m.registry base_filter in
      if is_empty pairs then pure [] else scan_pairs m pairs
