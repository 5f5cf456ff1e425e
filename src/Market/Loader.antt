-- ===== src/Market/Loader.antt =====
-- src/market/registry.py: loading the instruments of all venues, from the cache or from the venues,
-- which are asked one after another. A method that changes the registry returns it.
use omni_trade.Prelude.{
  ℕ, ◌*◌, ◌-◌, leb, ltb, String, Bool, true, false, not, ◌&&◌, ◌==◌, Option, none, some, List, [],
  ◌∷◌, is_empty, select, if◌then◌else◌,
}
use omni_trade.Exec.{Exec, pure, gets, catch, ◌>>=◌, ◌>>◌}
use omni_trade.Float.{Float, F}
use omni_trade.Market.Instrument.{Instrument, of_int}
use omni_trade.Market.Registry.{Registry, add}
use omni_trade.World.{market, list_markets, Exchange, Env, World, ask}
use omni_trade.Persistence.Tables.{
  save_instruments, load_instruments, clear_instruments, instrument_cache_age,
}

module _ ⦃fl : Float⦄ where
  -- The attributes; `has_store` says whether `_store` is not None.
  pub record InstrumentRegistry : Type 0 where
    pub registry : Registry
    pub ttl_hours : ℕ
    pub loaded_at : Option F
    pub has_store : Bool

  -- `for instrument in markets: self._instruments[instrument.instrument_key] = instrument`
  unfoldable pub add_all : List Instrument → Registry → Registry
  unfolding add
  add_all [] r = r
  add_all (i ∷ is) r = add_all is (add r i)

  abbrev pub with_instruments : InstrumentRegistry → Registry → InstrumentRegistry
  with_instruments s r = record s { registry = r }

  -- A time to live in microseconds.
  abbrev pub ttl : InstrumentRegistry → ℕ
  ttl s = s.ttl_hours * 3600 * 1_000_000

module _ ⦃fl : Float⦄ ⦃env : Env⦄ where
  abbrev pub stamp : InstrumentRegistry → Exec World InstrumentRegistry
  stamp s = gets λ w. record s { loaded_at = some (env.time w.journal) }

  -- An age below 0 counts as fresh, as 0 does.
  abbrev pub is_fresh_cache : InstrumentRegistry → ℕ → World → Bool
  is_fresh_cache s cached_at w = leb (env.now w.journal - cached_at) (ttl s)

  -- The cached instruments; an empty list stands for a cache that is not used.
  abbrev pub if_fresh : Bool → Exec World (List Instrument)
  if_fresh true = load_instruments
  if_fresh false = pure []

  abbrev pub read_cache : InstrumentRegistry → Option ℕ → Exec World (List Instrument)
  read_cache s none = pure []
  read_cache s (some cached_at) =
      catch (do fresh ← gets (is_fresh_cache s cached_at); if_fresh fresh) λ e. pure []

  unfoldable pub try_cache : InstrumentRegistry → Exec World (List Instrument)
  try_cache s = if s.has_store then (do age ← instrument_cache_age; read_cache s age) else pure []

  abbrev pub fetch_markets : String → Option Exchange → Exec World (List Instrument)
  fetch_markets name none = pure []
  fetch_markets name (some x) = ask (market name list_markets) x.list_markets

  -- `_load_one`: a venue that fails adds nothing.
  unfoldable pub load_one : String → Registry → Exec World Registry
  unfolding add_all ask
  load_one name r = do
    markets ← catch (fetch_markets name (env.exchanges name)) (λ e. pure [])
    pure (add_all markets r)

  unfoldable pub load_each : List String → Registry → Exec World Registry
  unfolding load_one
  load_each [] r = pure r
  load_each (name ∷ names) r = do r' ← load_one name r; load_each names r'

  unfoldable pub save_cache : InstrumentRegistry → Exec World (Unit {0})
  save_cache s =
      if s.has_store && not (is_empty s.registry.instruments)
      then catch (do save_instruments s.registry.instruments; pure tt) (λ e. pure tt)
      else pure tt

  abbrev pub fetch_all : List String → InstrumentRegistry → Exec World InstrumentRegistry
  fetch_all names s = do
    r ← load_each names s.registry
    s' ← stamp (with_instruments s r)
    save_cache s'
    pure s'

  abbrev pub from_cache :
      List String → InstrumentRegistry → List Instrument → Exec World InstrumentRegistry
  from_cache names s cached =
      if is_empty cached
      then fetch_all names s
      else stamp (with_instruments s (add_all cached s.registry))

  -- `load_all` over the venues of `names`, the keys of `exchanges`; `store` says whether a store is
  -- given.
  unfoldable pub load_all : List String → Bool → InstrumentRegistry → Exec World InstrumentRegistry
  unfolding try_cache load_each save_cache
  load_all names store s = do
    let s' : InstrumentRegistry = record s { has_store = store }
    cached ← try_cache s'
    from_cache names s' cached

  abbrev pub clear_cache : Bool → Option String → Exec World (Unit {0})
  clear_cache true venue = do clear_instruments venue; pure tt
  clear_cache false venue = pure tt

  unfoldable pub refresh : List String → InstrumentRegistry → Exec World InstrumentRegistry
  unfolding load_all
  refresh names s = do
    clear_cache s.has_store none
    load_all names s.has_store (with_instruments s (record { instruments = [] }))

  abbrev pub without_venue : String → Registry → Registry
  without_venue venue r = record {
    instruments = select (λ i. not (i.venue == venue)) r.instruments;
  }

  abbrev pub update_cache : Bool → String → List Instrument → Exec World (Unit {0})
  update_cache true venue markets = do
    clear_instruments (some venue)
    save_instruments markets
    pure tt
  update_cache false venue markets = pure tt

  -- What was loaded before an exception of the cache stays loaded.
  abbrev pub reload_from :
      String → InstrumentRegistry → Option Exchange → Exec World InstrumentRegistry
  reload_from venue s none = pure s
  reload_from venue s (some x) =
      catch
        (do
          markets ← ask (market venue list_markets) x.list_markets
          catch (update_cache s.has_store venue markets) (λ e. pure tt)
          pure (with_instruments s (add_all markets s.registry)))
        λ e. pure s

  unfoldable pub reload : String → InstrumentRegistry → Exec World InstrumentRegistry
  unfolding add_all ask
  reload venue s =
      reload_from venue (with_instruments s (without_venue venue s.registry)) (env.exchanges venue)

  abbrev pub older_than_ttl : InstrumentRegistry → Option F → World → Bool
  older_than_ttl s none w = true
  older_than_ttl s (some t) w = fl.lt (of_int (s.ttl_hours * 3600)) (fl.sub (env.time w.journal) t)

  unfoldable pub is_stale : InstrumentRegistry → Exec World Bool
  is_stale s = gets (older_than_ttl s s.loaded_at)

  abbrev pub stale_since : InstrumentRegistry → Option ℕ → Exec World Bool
  stale_since s none = is_stale s
  stale_since s (some cached_at) = gets λ w. ltb (ttl s) (env.now w.journal - cached_at)

  unfoldable pub check_stale : InstrumentRegistry → Exec World Bool
  unfolding is_stale
  check_stale s =
      if s.has_store then (do age ← instrument_cache_age; stale_since s age) else is_stale s
