-- ===== src/Market/Fetcher/Slots.antt =====
-- What `fetch_many` of src/market/quote_fetcher.py returns, and when it raises.
use omni_trade.Prelude.{
  ℕ, ◌≡◌, refl, String, Bool, false, ◌&&◌, ◌==◌, Option, none, some, List, [], ◌∷◌, Bool-cases, inl,
  inr, any, ◌||◌,
}
use omni_trade.Exec.{
  Outcome, returned, raised, attribute_error, and_then, proceed, pure, raise, gets, catch, ◌>>=◌,
}
use omni_trade.Exec.Ensures.{
  Ensures, Ensures-pure, Ensures-bind, Ensures-catch, Ensures-any, Ensures-if, Met,
}
use omni_trade.Float.{Float, F, nought}
use omni_trade.Market.Instrument.{Instrument, of_int}
use omni_trade.Market.Quote.{Side, Quote}
use omni_trade.Market.Books.{
  BookEntry, Books, same_stream, find_book, stream_key, quote_of, entry_quote, get_quote,
}
use omni_trade.World.{FundingInfo, History, Exchange, Env, World, ask}
use omni_trade.Funding.RateCache.{info_of, Fetched}
use omni_trade.Market.Fetcher.{
  Fetcher, quote_from, distribute, apply_info, with_slot, fetch_rest, enrich_funding, cached_quote,
  or_rest, fetch_from, fetch, fetch_one, fetch_each, fund_venue, quoted_perps, fund_groups,
  fetch_many,
}

module _ ⦃fl : Float⦄ where
  -- One slot for each instrument, in their order; a quote has the fees of its instrument.
  abbrev pub IsFor : Instrument → Option Quote → Type 0
  IsFor i none = Unit
  IsFor i (some q) = (q.instrument ≡ i) × (q.taker_fee_rate ≡ i.taker_fee_rate)

  abbrev pub Slots : List Instrument → List (Option Quote) → Type 0
  Slots [] [] = Unit
  Slots (i ∷ is) (q ∷ qs) = IsFor i q × Slots is qs
  Slots _ _ = ⊥

  -- One slot for each instrument, unless an entry that was asked for is not a dictionary.
  abbrev pub Distributed : Fetched → List Instrument → Outcome (List (Option Quote)) → Type 0
  Distributed fetched is (returned qs) = Slots is qs
  Distributed fetched is (raised e) =
      (e ≡ attribute_error) × ((s : String) × (info_of s fetched ≡ none))

  with_slot-Distributed :
      (fetched : Fetched) (i : Instrument) (q : Option Quote) (is : List Instrument)
      (rest : Outcome (List (Option Quote)))
      → IsFor i q
      → Distributed fetched is rest
      → Distributed fetched (i ∷ is) (with_slot q rest)
  with_slot-Distributed fetched i q is (returned qs) h k = (h, k)
  with_slot-Distributed fetched i q is (raised e) h k = k

  applied-Distributed :
      (fetched : Fetched) (i : Instrument) (q : Quote) (is : List Instrument)
      (rest : Outcome (List (Option Quote))) (info : Option FundingInfo)
      → info_of i.venue_symbol fetched ≡ info
      → IsFor i (some q)
      → Distributed fetched is rest
      → Distributed fetched (i ∷ is) (and_then (apply_info q info) λ r. with_slot (some r) rest)
  applied-Distributed fetched i q is rest none e h k = (refl, (i.venue_symbol, e))
  applied-Distributed fetched i q is rest (some info) e h k =
      with_slot-Distributed fetched i (some _) is rest h k

  distribute-Distributed :
      (venue : String) (fetched : Fetched) (is : List Instrument) (qs : List (Option Quote))
      → Slots is qs
      → Distributed fetched is (distribute venue fetched is qs)
  unfolding distribute
  distribute-Distributed venue fetched [] [] h = tt
  distribute-Distributed venue fetched (i ∷ is) (none ∷ qs) h =
      with_slot-Distributed fetched i none is _ tt (distribute-Distributed venue fetched is qs h.1)
  distribute-Distributed venue fetched (i ∷ is) (some q ∷ qs) h =
      let rest = distribute-Distributed venue fetched is qs h.1 in
      elim (Bool-cases (i.market_type == "perp" && i.venue == venue)) [
        | inl e ↦ rw e (applied-Distributed fetched i q is _ _ refl h.0 rest)
        | inr e ↦ rw e (with_slot-Distributed fetched i (some q) is _ h.0 rest)
      ]
  distribute-Distributed venue fetched [] (q ∷ qs) h = absurd h
  distribute-Distributed venue fetched (i ∷ is) [] h = absurd h

  get_quote-IsFor :
      (ms : ℕ) (now time : F) (b : Books) (i : Instrument) → IsFor i (get_quote ms now time b i)
  unfolding get_quote
  get_quote-IsFor ms now time b i =
      elim (Bool-cases (any (same_stream (stream_key i)) b.stale_keys)) [
        | inl stale ↦ rw stale tt
        | inr healthy ↦ rw healthy (of_entry (find_book (stream_key i) i.venue_symbol b.cache))
      ]
    where
      of_sides : (bids asks : Side) → IsFor i (quote_of i time bids asks)
      of_sides [] asks = tt
      of_sides (bid ∷ bids) [] = tt
      of_sides (bid ∷ bids) (ask ∷ asks) =
          elim (Bool-cases (fl.le bid.0 nought || fl.le ask.0 nought)) [
            | inl e ↦ rw e tt
            | inr e ↦ rw e (refl, refl)
          ]

      of_entry : (e : Option BookEntry) → IsFor i (entry_quote ms now time i e)
      of_entry none = tt
      of_entry (some e) =
          elim (Bool-cases (fl.lt (of_int ms) (fl.mul (fl.sub now e.ts) (of_int 1000)))) [
            | inl stale ↦ rw stale tt
            | inr fresh ↦ rw fresh (of_sides e.bids e.asks)
          ]

module _ ⦃fl : Float⦄ ⦃env : Env⦄ where
  abbrev Any : World → Type 0
  Any w = Unit

  abbrev Never : World → Type 0
  Never w = ⊥

  cached_quote-Ensures :
      (f : Fetcher) (i : Instrument) → Ensures Any (cached_quote f i) (λ q _. IsFor i q) Any
  unfolding gets
  cached_quote-Ensures f i = record { run = λ w h. of_cache f.cache w }
    where
      of_cache :
          (c : Option Books) (w : World)
          → IsFor i (elim c [
            | none ↦ none
            | some books ↦
                get_quote f.max_staleness_ms (env.monotonic w.journal) (env.time w.journal) books i
          ])
      of_cache none w = tt
      of_cache (some books) w = get_quote-IsFor _ _ _ books i

  fetch_rest-Ensures :
      (i : Instrument) (x : Exchange) (depth : ℕ)
      → Ensures Any (fetch_rest i x depth) (λ q _. IsFor i (some q)) Any
  unfolding fetch_rest quote_from
  fetch_rest-Ensures i x depth =
      Ensures-bind _ _ (Ensures-any _)
        λ ob. Ensures-bind _ _ (Ensures-any _) λ time. Ensures-pure _ λ w h. (refl, refl)

  or_rest-Ensures :
      (o : Option Quote) (i : Instrument) (x : Exchange) (depth : ℕ)
      → Ensures (λ _. IsFor i o) (or_rest o i x depth) (λ q _. IsFor i (some q)) Any
  or_rest-Ensures none i x depth = record { run = λ w h. (fetch_rest-Ensures i x depth).run w tt }
  or_rest-Ensures (some q) i x depth = Ensures-pure q λ w h. h

  enrich-Ensures :
      (i : Instrument) (q : Quote) (x : Exchange)
      → IsFor i (some q)
      → Ensures Any (enrich_funding q x) (λ r _. IsFor i (some r)) Any
  unfolding enrich_funding
  enrich-Ensures i q x k = Ensures-bind _ _ (Ensures-any _) λ funding. Ensures-pure _ λ w h. k

  fetch_from-Ensures :
      (f : Fetcher) (x : Option Exchange) (i : Instrument) (depth : ℕ) (enrich : Bool)
      → Ensures Any (fetch_from f x i depth enrich) (λ q _. IsFor i (some q)) Any
  unfolding raise
  fetch_from-Ensures f none i depth enrich = record { run = λ w h. tt }
  fetch_from-Ensures f (some x) i depth enrich =
      Ensures-bind _ _ (cached_quote-Ensures f i) λ cached.
        Ensures-bind _ _ (or_rest-Ensures cached i x depth) λ q. record {
          run = λ w h.
              (Ensures-if (enrich && i.market_type == "perp") _ _ (λ _. enrich-Ensures i q x h)
                  λ _. Ensures-pure q λ v k. h).run
                w tt;
        }

  fetch_one-Ensures :
      (f : Fetcher) (depth : ℕ) (i : Instrument)
      → Ensures Any (fetch_one f depth i) (λ q _. IsFor i q) Never
  unfolding fetch_one fetch
  fetch_one-Ensures f depth i =
      Ensures-catch _ _
        (Ensures-bind _ _ (fetch_from-Ensures f (env.exchanges i.venue) i depth false)
          λ q. Ensures-pure (some q) λ w h. h)
        λ e. Ensures-pure none λ w h. tt

  fetch_each-Ensures :
      (f : Fetcher) (depth : ℕ) (is : List Instrument)
      → Ensures Any (fetch_each f depth is) (λ qs _. Slots is qs) Never
  unfolding fetch_each
  fetch_each-Ensures f depth [] = Ensures-pure [] λ w h. tt
  fetch_each-Ensures f depth (i ∷ is) = Ensures-bind _ _ (fetch_one-Ensures f depth i) λ q. record {
    run = λ w h.
        (Ensures-bind _ _ (fetch_each-Ensures f depth is)
            λ qs. Ensures-pure (q ∷ qs) λ v k. (h, k)).run
          w tt;
  }

  -- A venue has answered with a dictionary that has, for a symbol, an entry that is not one.
  pub record Malformed : Type 0 where
    pub venue : String
    pub exchange : Exchange
    pub known : env.exchanges venue ≡ some exchange
    pub history : History
    pub symbols : List String
    pub fetched : Fetched
    pub answer : exchange.fetch_funding_rates history symbols ≡ returned (some fetched)
    pub symbol : String
    pub entry : info_of symbol fetched ≡ none

  abbrev pub Batch : List Instrument → Outcome (List (Option Quote)) → Type 0
  Batch is (returned qs) = Slots is qs
  Batch is (raised e) = (e ≡ attribute_error) × Malformed

  malformed :
      (venue : String) (x : Exchange) (h : History) (symbols : List String) (fetched : Fetched)
      (is : List Instrument) (o : Outcome (List (Option Quote)))
      → env.exchanges venue ≡ some x
      → x.fetch_funding_rates h symbols ≡ returned (some fetched)
      → Distributed fetched is o
      → Batch is o
  malformed venue x h symbols fetched is (returned qs) e a k = k
  malformed venue x h symbols fetched is (raised error) e a k = (
    k.0,
    record {
      venue = venue;
      exchange = x;
      known = e;
      history = h;
      symbols = symbols;
      fetched = fetched;
      answer = a;
      symbol = k.1.0;
      entry = k.1.1;
    },
  )

  no_entries :
      (is : List Instrument) (o : Outcome (List (Option Quote))) → Distributed [] is o → Batch is o
  unfolding info_of
  no_entries is (returned qs) k = k
  no_entries is (raised e) k = absurd (cc k.1.1)

  fund_venue-Batch :
      (x : Option Exchange) (venue : String) (symbols : List String) (is : List Instrument)
      (qs : List (Option Quote)) (w : World)
      → env.exchanges venue ≡ x
      → Slots is qs
      → Batch is (fund_venue x venue symbols is qs w).0
  unfolding ask catch pure ◌>>=◌
  fund_venue-Batch none venue symbols is qs w e k = k
  fund_venue-Batch (some x) venue symbols is qs w e k =
      by_answer (x.fetch_funding_rates w.journal symbols) refl
    where
      by_answer :
          (o : Outcome (Option Fetched))
          → x.fetch_funding_rates w.journal symbols ≡ o
          → Batch is (fund_venue (some x) venue symbols is qs w).0
      by_answer (raised error) a = rw a k
      by_answer (returned none) a = rw a (no_entries is _ (distribute-Distributed venue [] is qs k))
      by_answer (returned (some fetched)) a = rw a (
          malformed venue x w.journal symbols fetched is _ e a
            (distribute-Distributed venue fetched is qs k))

  fund_groups-Batch :
      (groups : List (String × List String)) (is : List Instrument) (qs : List (Option Quote))
      (w : World)
      → Slots is qs
      → Batch is (fund_groups groups is qs w).0
  unfolding fund_groups pure ◌>>=◌
  fund_groups-Batch [] is qs w k = k
  fund_groups-Batch ((venue, symbols) ∷ rest) is qs w k =
      next _ _ (fund_venue-Batch (env.exchanges venue) venue symbols is qs w refl k)
        (λ rs v h. fund_groups-Batch rest is rs v h)
    where
      next :
          (o : Outcome (List (Option Quote))) (v : World)
          → Batch is o
          → ((rs : List (Option Quote)) (u : World)
              → Slots is rs
              → Batch is (fund_groups rest is rs u).0)
          → Batch is (proceed o (λ rs. fund_groups rest is rs) v).0
      next (returned rs) v h k = k rs v h
      next (raised e) v h k = h

  -- Fetching many quotes returns one slot for each instrument in their order, empty or with a quote
  -- for that instrument at its fee, whichever venues raise. It raises only AttributeError, and only
  -- where a venue has answered the request for the funding rates with a dictionary that has an entry
  -- which is not a dictionary.
  pub fetch_many-Batch :
      (f : Fetcher) (is : List Instrument) (depth : ℕ) (w : World)
      → Batch is (fetch_many f is depth w).0
  unfolding fetch_many ◌>>=◌
  fetch_many-Batch f is depth w = funded _ _ ((fetch_each-Ensures f depth is).run w tt)
    where
      funded :
          (o : Outcome (List (Option Quote))) (v : World)
          → Met (λ qs _. Slots is qs) Never o v
          → Batch is (proceed o (λ qs. fund_groups (quoted_perps is qs []) is qs) v).0
      funded (returned qs) v h = fund_groups-Batch (quoted_perps is qs []) is qs v h
      funded (raised e) v h = absurd h
