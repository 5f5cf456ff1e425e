-- ===== src/Market/Books/Sound.antt =====
-- Every book in the cache of src/market/orderbook_cache.py is usable, whatever the streams deliver.
use omni_trade.Prelude.{
  ◌≡◌, refl, String, true, false, ◌||◌, ◌==◌, Option, none, some, List, [], ◌∷◌, All, any, arith,
  Bool-cases, inl, inr, ℕ, is_empty,
}
use omni_trade.Float.{Float, F, nought}
use omni_trade.Market.Instrument.{Instrument, of_int}
use omni_trade.Market.Quote.{Side, Quote}
use omni_trade.World.{RawBook}
use omni_trade.Market.Books.{
  StreamKey, same_stream, BookEntry, Books, is_entry, find_book, put_book, parse_side, acceptable,
  apply_update, Event, update, unsupported, timed_out, cancelled, failed, mark_stale, or_restart,
  stream, stream_key, quote_of, entry_quote, get_quote,
}

module _ ⦃fl : Float⦄ where
  -- Both sides have a level, no best price is at or below 0, and the best ask is not at or below the
  -- best bid.
  abbrev pub Usable : Side → Side → Type 0
  Usable (bid ∷ bids) (ask ∷ asks) =
      (fl.le bid.0 nought ≡ false) × (fl.le ask.0 nought ≡ false) × (fl.le ask.0 bid.0 ≡ false)
  Usable _ _ = ⊥

  abbrev pub IsUsable : BookEntry → Type 0
  IsUsable e = Usable e.bids e.asks

  acceptable-Usable : (bids asks : Side) → acceptable bids asks ≡ true → Usable bids asks
  acceptable-Usable [] asks h = absurd (cc h)
  acceptable-Usable (bid ∷ bids) [] h = absurd (ground (arith, h))
  acceptable-Usable (bid ∷ bids) (ask ∷ asks) h =
      (ground (arith, h), ground (arith, h), ground (arith, h))

  abbrev pub AllUsable : Books → Type 0
  AllUsable b = All IsUsable b.cache

  put_book-All :
      (e : BookEntry) (es : List BookEntry)
      → IsUsable e
      → All IsUsable es
      → All IsUsable (put_book e es)
  unfolding put_book
  put_book-All e [] h hs = (h, tt)
  put_book-All e (x ∷ es) h hs = elim (Bool-cases (is_entry e.stream e.venue_symbol x)) [
    | inl same ↦ rw same (h, hs.1)
    | inr other ↦ rw other (hs.0, put_book-All e es h hs.1)
  ]

  apply_update-AllUsable :
      (now : F) (key : StreamKey) (symbol : String) (ob : RawBook) (b : Books)
      → AllUsable b
      → AllUsable (apply_update now key symbol ob b)
  unfolding apply_update
  apply_update-AllUsable now key symbol ob b h = elim (Bool-cases (symbol == "")) [
    | inl unnamed ↦ rw unnamed h
    | inr named ↦ elim (Bool-cases (is_empty ob.bids || is_empty ob.asks)) [
      | inl lacking ↦ rw (named, lacking) h
      | inr sided ↦ elim (Bool-cases (acceptable (parse_side ob.bids) (parse_side ob.asks))) [
        | inl ok ↦ rw (named, sided, ok) (put_book-All _ b.cache (acceptable-Usable _ _ ok) h)
        | inr bad ↦ rw (named, sided, bad) h
      ]
    ]
  ]

  mark_stale-AllUsable : (key : StreamKey) (b : Books) → AllUsable b → AllUsable (mark_stale key b)
  mark_stale-AllUsable key b h = elim (Bool-cases (any (same_stream key) b.stale_keys)) [
    | inl e ↦ rw e h
    | inr e ↦ rw e h
  ]

  -- If all cached books are usable, they are after any sequence of updates, time-outs, failures and
  -- refusals of a stream, wherever the stream stands in its list of instruments: both sides have a
  -- level, no best price is at or below 0 and the best ask is not at or below the best bid.
  pub stream-AllUsable :
      (key : StreamKey) (all rest : List Instrument) (es : List Event) (b : Books) (delay : F)
      → AllUsable b
      → AllUsable (stream key all rest es b delay).0
  unfolding stream
  stream-AllUsable key all rest [] b delay h = h
  stream-AllUsable key all [] (e ∷ es) b delay h = h
  stream-AllUsable key all (i ∷ rest) (update now ob ∷ es) b delay h =
      stream-AllUsable key all (or_restart all rest) es _ _
        (apply_update-AllUsable now key i.venue_symbol ob b h)
  stream-AllUsable key all (i ∷ rest) (unsupported ∷ es) b delay h = mark_stale-AllUsable key b h
  stream-AllUsable key all (i ∷ rest) (timed_out ∷ es) b delay h =
      stream-AllUsable key all (or_restart all rest) es b delay h
  stream-AllUsable key all (i ∷ rest) (cancelled ∷ es) b delay h = h
  stream-AllUsable key all (i ∷ rest) (failed ∷ es) b delay h =
      stream-AllUsable key all all es _ _ (mark_stale-AllUsable key b h)

  -- The best prices and sizes are those of the first levels.
  abbrev pub HasLevels : Quote → Type 0
  HasLevels q =
      (bids : Side) × (asks : Side) × (q.bids ≡ (q.bid_price, q.bid_size) ∷ bids)
      × (q.asks ≡ (q.ask_price, q.ask_size) ∷ asks)

  -- What a quote says of its book.
  abbrev pub Quoted : Instrument → Option Quote → Type 0
  Quoted i none = Unit
  Quoted i (some q) =
      (q.instrument ≡ i)
      × (fl.le q.bid_price nought ≡ false)
      × (fl.le q.ask_price nought ≡ false)
      × (fl.le q.ask_price q.bid_price ≡ false)
      × HasLevels q

  quote_of-Quoted :
      (i : Instrument) (time : F) (bids asks : Side)
      → Usable bids asks
      → Quoted i (quote_of i time bids asks)
  quote_of-Quoted i time [] asks h = tt
  quote_of-Quoted i time (bid ∷ bids) [] h = tt
  quote_of-Quoted i time (bid ∷ bids) (ask ∷ asks) h =
      elim (Bool-cases (fl.le bid.0 nought || fl.le ask.0 nought)) [
        | inl e ↦ rw e tt
        | inr e ↦ rw e (refl, h.0, h.1, h.2, (bids, asks, refl, refl))
      ]

  entry_quote-Quoted :
      (ms : ℕ) (now time : F) (i : Instrument) (e : BookEntry)
      → IsUsable e
      → Quoted i (entry_quote ms now time i (some e))
  entry_quote-Quoted ms now time i e h =
      elim (Bool-cases (fl.lt (of_int ms) (fl.mul (fl.sub now e.ts) (of_int 1000)))) [
        | inl stale ↦ rw stale tt
        | inr fresh ↦ rw fresh (quote_of-Quoted i time e.bids e.asks h)
      ]

  found-Quoted :
      (ms : ℕ) (now time : F) (i : Instrument) (key : StreamKey) (symbol : String)
      (es : List BookEntry)
      → All IsUsable es
      → Quoted i (entry_quote ms now time i (find_book key symbol es))
  unfolding find_book
  found-Quoted ms now time i key symbol [] h = tt
  found-Quoted ms now time i key symbol (e ∷ es) h = elim (Bool-cases (is_entry key symbol e)) [
    | inl hit ↦ rw hit (entry_quote-Quoted ms now time i e h.0)
    | inr miss ↦ rw miss (found-Quoted ms now time i key symbol es h.1)
  ]

  -- From a cache of usable books a quote is for the instrument that was asked for. Neither its bid nor
  -- its ask is at or below 0, its ask is not at or below its bid, and both are the prices of the
  -- first levels that it has, with their sizes.
  pub get_quote-Quoted :
      (ms : ℕ) (now time : F) (b : Books) (i : Instrument)
      → AllUsable b
      → Quoted i (get_quote ms now time b i)
  unfolding get_quote
  get_quote-Quoted ms now time b i h =
      elim (Bool-cases (any (same_stream (stream_key i)) b.stale_keys)) [
        | inl stale ↦ rw stale tt
        | inr healthy ↦
            rw healthy (found-Quoted ms now time i (stream_key i) i.venue_symbol b.cache h)
      ]
