-- ===== src/Persistence/Tables.antt =====
-- src/persistence/store.py: the tables of instruments, funding rates and hedged positions.
pub mod Cached
use omni_trade.Prelude.{
  ℕ, zero, suc, leb, ltb, String, Bool, true, false, not, ◌&&◌, ◌||◌, ◌==◌, Option, none, some,
  is_some, List, [], ◌∷◌, ◌++◌, map, any, all, length, select, sort, text_less, if◌then◌else◌,
}
use omni_trade.Exec.{Exec, returned, pure, raise, gets, runtime_error, integrity_error, ◌>>=◌, ◌>>◌}
use omni_trade.Float.{Float, F}
use omni_trade.Market.Instrument.{Instrument}
use omni_trade.Market.Registry.{accepts}
use omni_trade.World.{InstrumentRow, SnapshotRow, HedgedRow, Tables, Env, World}
use omni_trade.Persistence.Store.{connection, guard}

module _ ⦃fl : Float⦄ where
  abbrev pub set_tables : Tables → Exec World (Unit {0})
  set_tables t w = (returned tt, record w { tables = t })

  abbrev pub read_tables : Exec World Tables
  read_tables = gets (λ w. w.tables)

  -- `if self._db is None: return default`
  abbrev pub if_open : {A : Type 0} → A → Exec World A → Exec World A
  if_open default m w = if is_some w.db then m w else (returned default, w)

  -- The cache of instruments

  abbrev pub new_instrument_row : ℕ → Instrument → InstrumentRow
  new_instrument_row now i = record {
    venue = i.venue;
    network = i.network;
    market_type = i.market_type;
    base = i.base.symbol;
    quote = i.quote.symbol;
    venue_symbol = i.venue_symbol;
    min_qty = i.min_qty;
    qty_step = i.qty_step;
    price_step = i.price_step;
    min_notional = i.min_notional;
    taker_fee_rate = i.taker_fee_rate;
    maker_fee_rate = i.maker_fee_rate;
    contract_size = i.contract_size;
    is_inverse = i.is_inverse;
    listing_status = i.listing_status;
    cached_at = now;
  }

  -- The primary key of `instruments`.
  abbrev pub same_instrument : InstrumentRow → InstrumentRow → Bool
  same_instrument r s =
      r.venue == s.venue
      && r.network == s.network
      && r.market_type == s.market_type
      && r.base == s.base
      && r.quote == s.quote

  -- `INSERT OR REPLACE`: a row with the key goes, and the new one comes last.
  abbrev pub replace_instrument : InstrumentRow → List InstrumentRow → List InstrumentRow
  replace_instrument r rows = select (λ s. not (same_instrument s r)) rows ++ r ∷ []

  unfoldable pub replace_instruments : ℕ → List Instrument → List InstrumentRow → List InstrumentRow
  replace_instruments now [] rows = rows
  replace_instruments now (i ∷ is) rows =
      replace_instruments now is (replace_instrument (new_instrument_row now i) rows)

  -- `ORDER BY venue, market_type, base, quote`
  abbrev pub then_less : String → String → Bool → Bool
  then_less s t later = text_less s t || s == t && later

  abbrev pub instrument_less : InstrumentRow → InstrumentRow → Bool
  instrument_less r s = then_less r.venue s.venue (
      then_less r.market_type s.market_type
        (then_less r.base s.base (then_less r.quote s.quote false)))

  -- `Asset(symbol)` has the kind "crypto", and an instrument without the argument has no maximal
  -- leverage.
  abbrev pub rebuilt : InstrumentRow → Instrument
  rebuilt r = record {
    venue = r.venue;
    network = r.network;
    market_type = r.market_type;
    base = record { symbol = r.base; kind = "crypto" };
    quote = record { symbol = r.quote; kind = "crypto" };
    venue_symbol = r.venue_symbol;
    min_qty = r.min_qty;
    qty_step = r.qty_step;
    price_step = r.price_step;
    min_notional = r.min_notional;
    taker_fee_rate = r.taker_fee_rate;
    maker_fee_rate = r.maker_fee_rate;
    contract_size = r.contract_size;
    is_inverse = r.is_inverse;
    listing_status = r.listing_status;
    max_leverage = none;
  }

  abbrev pub later_of : ℕ → Option ℕ → Option ℕ
  later_of n none = some n
  later_of n (some m) = if leb m n then some n else some m

  -- `MAX(cached_at)`
  unfoldable pub latest : List InstrumentRow → Option ℕ
  latest [] = none
  latest (r ∷ rs) = later_of r.cached_at (latest rs)

  -- Snapshots of funding rates

  abbrev pub same_symbol : SnapshotRow → SnapshotRow → Bool
  same_symbol r s = r.venue == s.venue && r.symbol == s.symbol

  -- `UNIQUE(venue, symbol, fetched_at)`
  abbrev pub same_snapshot : SnapshotRow → SnapshotRow → Bool
  same_snapshot r s =
      same_symbol r s && leb r.fetched_at s.fetched_at && leb s.fetched_at r.fetched_at

  -- The row of a group with the greatest time.
  abbrev pub is_latest : List SnapshotRow → SnapshotRow → Bool
  is_latest rows r = all (λ s. not (same_symbol s r) || leb s.fetched_at r.fetched_at) rows

  unfoldable pub first : {A : Type 0} → ℕ → List A → List A
  first zero xs = []
  first (suc n) [] = []
  first (suc n) (x ∷ xs) = x ∷ first n xs

module _ ⦃fl : Float⦄ ⦃env : Env⦄ where
  unfoldable pub save_instruments : List Instrument → Exec World ℕ
  unfolding connection replace_instruments
  save_instruments is = do
    connection
    now ← gets (λ w. env.now w.journal)
    t ← read_tables
    set_tables (record t { instruments = replace_instruments now is t.instruments })
    pure (length is)

  unfoldable pub load_instruments : Exec World (List Instrument)
  unfolding connection
  load_instruments = do
    connection
    t ← read_tables
    pure (map rebuilt (sort instrument_less t.instruments))

  unfoldable pub load_instruments_by_query :
      Option String → Option String → Option String → Exec World (List InstrumentRow)
  unfolding connection
  load_instruments_by_query base venue market_type = do
    connection
    t ← read_tables
    pure (
        sort instrument_less (
          select
            (λ r. accepts base r.base && accepts venue r.venue && accepts market_type r.market_type)
            t.instruments))

  -- The count is the number of rows that went.
  unfoldable pub clear_instruments : Option String → Exec World ℕ
  unfolding connection
  clear_instruments venue = do
    connection
    t ← read_tables
    set_tables (record t { instruments = select (λ r. not (accepts venue r.venue)) t.instruments })
    pure (length (select (λ r. accepts venue r.venue) t.instruments))

  unfoldable pub instrument_cache_age : Exec World (Option ℕ)
  unfolding latest
  instrument_cache_age = if_open none do t ← read_tables; pure (latest t.instruments)

  unfoldable pub insert_funding_snapshot :
      String → String → Option F → Option F → Option F → Exec World (Unit {0})
  insert_funding_snapshot venue symbol funding_rate next_funding_time mark_price = if_open tt do
    now ← gets (λ w. env.datetime_now w.journal)
    t ← read_tables
    let row : SnapshotRow = record {
      venue = venue;
      symbol = symbol;
      funding_rate = funding_rate;
      mark_price = mark_price;
      next_funding_time = next_funding_time;
      fetched_at = now;
    }
    set_tables
        (record t { snapshots = select (λ r. not (same_snapshot r row)) t.snapshots ++ row ∷ [] })

  unfoldable pub get_latest_funding_rates : Exec World (List SnapshotRow)
  get_latest_funding_rates = if_open [] do
    t ← read_tables
    pure (
        sort (λ r s. then_less r.venue s.venue (then_less r.symbol s.symbol false))
          (select (is_latest t.snapshots) t.snapshots))

  unfoldable pub get_funding_history : String → String → ℕ → Exec World (List SnapshotRow)
  unfolding first
  get_funding_history venue symbol limit = if_open [] do
    t ← read_tables
    pure (
        first limit (
          sort (λ r s. ltb s.fetched_at r.fetched_at)
            (select (λ r. r.venue == venue && r.symbol == symbol) t.snapshots)))
