-- ===== src/Samples/Quotes.antt =====
-- The theorems about books, quotes, and the cache of instruments at concrete inputs.
use omni_trade.Prelude.{refl, none, some, List, [], ◌∷◌}
use omni_trade.Float.Fixed.{fixed}
use omni_trade.Market.Instrument.{of_int, instrument_key}
use omni_trade.Market.Books.{StreamKey, Books, Event, update, timed_out, failed, stream, get_quote}
use omni_trade.Market.Books.Sound.{AllUsable, Quoted, stream-AllUsable, get_quote-Quoted}
use omni_trade.Market.Fetcher.{Fetcher, fetch_many}
use omni_trade.Market.Fetcher.Slots.{Batch, fetch_many-Batch}
use omni_trade.World.{RawBook}
use omni_trade.Persistence.Store.Rows.{opened}
use omni_trade.Persistence.Tables.{save_instruments, load_instruments}
use omni_trade.Persistence.Tables.Cached.{Includes, stripped, save-load_instruments}
use omni_trade.Samples.{env, instrument, world, failed_db}

abbrev key : StreamKey
key = record { venue = "binance"; market_type = "spot" }

abbrev raw_book : RawBook
raw_book = record {
  bids = some (of_int 99, of_int 10) ∷ none ∷ [];
  asks = some (of_int 101, of_int 10) ∷ [];
  timestamp = none;
}

abbrev events : List Event
events =
    update (of_int 1) raw_book
    ∷ failed
    ∷ timed_out
    ∷ update (of_int 2) (record raw_book { asks = some (of_int 98, of_int 1) ∷ [] })
    ∷ []

abbrev no_books : Books
no_books = record { cache = []; stale_keys = [] }

abbrev streamed : Books
streamed =
    (stream key (instrument "binance" ∷ []) (instrument "binance" ∷ []) events no_books
      (of_int 1)).0

stream-AllUsable_example : AllUsable streamed
stream-AllUsable_example =
    stream-AllUsable key (instrument "binance" ∷ []) (instrument "binance" ∷ []) events no_books
      (of_int 1) tt

get_quote-Quoted_example :
    Quoted
      (instrument "binance")
      (get_quote 5000 (of_int 2) (of_int 2) streamed (instrument "binance"))
get_quote-Quoted_example =
    get_quote-Quoted 5000 (of_int 2) (of_int 2) streamed (instrument "binance")
      stream-AllUsable_example

abbrev fetcher : Fetcher
fetcher = record { cache = some streamed; max_staleness_ms = 500 }

fetch_many-Batch_example :
    Batch
      (instrument "binance" ∷ instrument "nowhere" ∷ [])
      (fetch_many fetcher (instrument "binance" ∷ instrument "nowhere" ∷ []) 20 world).0
fetch_many-Batch_example =
    fetch_many-Batch fetcher (instrument "binance" ∷ instrument "nowhere" ∷ []) 20 world

save-load_instruments_example :
    Includes
      (stripped (instrument "binance"))
      (load_instruments
        (save_instruments
          (instrument "binance" ∷ instrument "binance" ∷ instrument "hyperliquid" ∷ [])
          (opened failed_db world)).1).0
unfolding instrument_key
save-load_instruments_example =
    save-load_instruments (instrument "binance" ∷ []) (instrument "hyperliquid" ∷ [])
      (instrument "binance") failed_db world refl
