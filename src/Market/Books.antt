-- ===== src/Market/Books.antt =====
-- src/market/orderbook_cache.py: the order books that the streams of the venues deliver. A stream's
-- key is its venue and market type, of which the source makes one text and splits it again; the
-- clock's reading is an argument.
pub mod Sound
use omni_trade.Prelude.{
  ℕ, eqb, leb, ltb, String, Bool, true, false, not, ◌&&◌, ◌||◌, ◌==◌, Option, none, some, List, [],
  ◌∷◌, any, select, is_empty, sort, if◌then◌else◌,
}
use omni_trade.Float.{Float, F, nought}
use omni_trade.Market.Instrument.{Instrument, float_min, of_int}
use omni_trade.Market.Quote.{Side, Quote}
use omni_trade.Coordinator.AccountType.{ccxt_account_type}
use omni_trade.World.{RawBook}

-- `f"{venue}_{market_type}"`
pub record StreamKey : Type 0 where
  pub venue : String
  pub market_type : String

abbrev pub same_stream : StreamKey → StreamKey → Bool
same_stream j k = j.venue == k.venue && j.market_type == k.market_type

module _ ⦃fl : Float⦄ where
  -- An entry of `_cache` with its key.
  pub record BookEntry : Type 0 where
    pub stream : StreamKey
    pub venue_symbol : String
    pub bids : Side
    pub asks : Side
    pub ts : F
    pub exchange_ts : Option F

  -- `_cache` and `_stale_keys`.
  pub record Books : Type 0 where
    pub cache : List BookEntry
    pub stale_keys : List StreamKey

  abbrev pub is_entry : StreamKey → String → BookEntry → Bool
  is_entry key symbol e = same_stream e.stream key && e.venue_symbol == symbol

  unfoldable pub find_book : StreamKey → String → List BookEntry → Option BookEntry
  find_book key symbol [] = none
  find_book key symbol (e ∷ es) =
      let rest = find_book key symbol es in if is_entry key symbol e then some e else rest

  unfoldable pub put_book : BookEntry → List BookEntry → List BookEntry
  put_book new [] = new ∷ []
  put_book new (e ∷ es) =
      let rest = put_book new es in
      if is_entry new.stream new.venue_symbol e then new ∷ es else e ∷ rest

  -- `_parse_side`, which passes over what is not a pair.
  unfoldable pub parse_side : List (Option (F × F)) → Side
  parse_side [] = []
  parse_side (none ∷ rest) = parse_side rest
  parse_side (some level ∷ rest) = level ∷ parse_side rest

  -- The best price of a side, with the tests on it.
  abbrev pub best_positive : Side → Bool
  best_positive [] = false
  best_positive (level ∷ rest) = not (fl.le level.0 nought)

  abbrev pub crossed : Side → Side → Bool
  crossed (bid ∷ bids) (ask ∷ asks) = fl.le ask.0 bid.0
  crossed _ _ = false

  abbrev pub acceptable : Side → Side → Bool
  acceptable bids asks = best_positive bids && best_positive asks && not (crossed bids asks)

  unfoldable pub apply_update : F → StreamKey → String → RawBook → Books → Books
  unfolding put_book parse_side
  apply_update now key symbol ob books =
      let bids = parse_side ob.bids in
      let asks = parse_side ob.asks in
      let entry : BookEntry = record {
        stream = key;
        venue_symbol = symbol;
        bids = bids;
        asks = asks;
        ts = now;
        exchange_ts = ob.timestamp;
      } in
      if symbol == ""
      then books
      else if is_empty ob.bids || is_empty ob.asks
      then books
      else if acceptable bids asks
      then record books { cache = put_book entry books.cache }
      else books

  -- How one wait for `watch_order_book` ends.
  pub data Event : Type 0 where
    update : F → RawBook → Event
    unsupported : Event
    timed_out : Event
    cancelled : Event
    failed : Event

  abbrev pub mark_stale : StreamKey → Books → Books
  mark_stale key books =
      if any (same_stream key) books.stale_keys
      then books
      else record books { stale_keys = key ∷ books.stale_keys }

  abbrev pub discard_stale : StreamKey → Books → Books
  discard_stale key books = record books {
    stale_keys = select (λ k. not (same_stream k key)) books.stale_keys;
  }

  -- The `for` over the instruments starts again when it is through, and after a failure.
  abbrev pub or_restart : List Instrument → List Instrument → List Instrument
  or_restart all [] = all
  or_restart all rest = rest

  -- `_stream_venue`, for the events of its waits one after another; `rest` is what is left of the
  -- `for`. The second result is `reconnect_delay`.
  unfoldable pub stream :
      StreamKey → List Instrument → List Instrument → List Event → Books → F → Books × F
  unfolding apply_update
  stream key all rest [] books delay = (books, delay)
  stream key all [] (e ∷ es) books delay = (books, delay)
  stream key all (i ∷ rest) (update now ob ∷ es) books delay =
      stream key all (or_restart all rest) es
        (discard_stale key (apply_update now key i.venue_symbol ob books)) (of_int 1)
  stream key all (i ∷ rest) (unsupported ∷ es) books delay = (mark_stale key books, delay)
  stream key all (i ∷ rest) (timed_out ∷ es) books delay =
      stream key all (or_restart all rest) es books delay
  stream key all (i ∷ rest) (cancelled ∷ es) books delay = (books, delay)
  stream key all (i ∷ rest) (failed ∷ es) books delay =
      stream key all all es (mark_stale key books) (float_min (fl.mul delay (of_int 2)) (of_int 30))

  abbrev pub stream_key : Instrument → StreamKey
  stream_key i = record { venue = i.venue; market_type = ccxt_account_type i.market_type }

  abbrev pub quote_of : Instrument → F → Side → Side → Option Quote
  quote_of i time (bid ∷ bids) (ask ∷ asks) =
      if fl.le bid.0 nought || fl.le ask.0 nought
      then none
      else some (record {
        instrument = i;
        fetched_at = time;
        bid_price = bid.0;
        bid_size = bid.1;
        ask_price = ask.0;
        ask_size = ask.1;
        mid_price = fl.div (fl.add bid.0 ask.0) (of_int 2);
        taker_fee_rate = i.taker_fee_rate;
        maker_fee_rate = i.maker_fee_rate;
        funding_rate = none;
        next_funding_time = none;
        open_interest = none;
        bids = bid ∷ bids;
        asks = ask ∷ asks;
      })
  quote_of i time _ _ = none

  abbrev pub entry_quote : ℕ → F → F → Instrument → Option BookEntry → Option Quote
  entry_quote max_staleness_ms now time i none = none
  entry_quote max_staleness_ms now time i (some e) =
      if fl.lt (of_int max_staleness_ms) (fl.mul (fl.sub now e.ts) (of_int 1000))
      then none
      else quote_of i time e.bids e.asks

  -- `now` is the reading of `perf_counter`, `time` that of `time`.
  unfoldable pub get_quote : ℕ → F → F → Books → Instrument → Option Quote
  unfolding find_book
  get_quote max_staleness_ms now time books i =
      if any (same_stream (stream_key i)) books.stale_keys
      then none
      else entry_quote max_staleness_ms now time i
          (find_book (stream_key i) i.venue_symbol books.cache)

  -- `_select_instruments` with its default sets.
  abbrev pub is_priority : String → Instrument → Bool
  is_priority mt i =
      ccxt_account_type i.market_type == mt
      && (i.base.symbol == "BTC" || i.base.symbol == "ETH")
      && (i.quote.symbol == "USDT" || i.quote.symbol == "USDC" || i.quote.symbol == "USD")

  abbrev pub base_rank : Instrument → ℕ
  base_rank i = if i.base.symbol == "BTC" then 0 else 1

  abbrev pub quote_rank : Instrument → ℕ
  quote_rank i =
      if i.quote.symbol == "USDT"
      then 0
      else if i.quote.symbol == "USDC"
      then 1
      else if i.quote.symbol == "USD"
      then 2
      else 9

  abbrev pub ranks_before : Instrument → Instrument → Bool
  ranks_before i j =
      ltb (base_rank i) (base_rank j)
      || eqb (base_rank i) (base_rank j) && ltb (quote_rank i) (quote_rank j)

  unfoldable pub select_instruments : List Instrument → String → List Instrument
  select_instruments instruments mt = sort ranks_before (select (is_priority mt) instruments)

  unfoldable pub clear : Books → Books
  clear books = record { cache = []; stale_keys = [] }
