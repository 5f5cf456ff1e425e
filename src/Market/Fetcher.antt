-- ===== src/Market/Fetcher.antt =====
-- src/market/quote_fetcher.py: quotes from the cached books or from the venues, with their funding.
-- The cached books stay as they are while quotes are fetched.
pub mod Slots
use omni_trade.Prelude.{
  ℕ, String, Bool, true, false, ◌&&◌, ◌==◌, Option, none, some, List, [], ◌∷◌, if◌then◌else◌,
}
use omni_trade.Exec.{
  Exec, Outcome, returned, raised, attribute_error, and_then, pure, raise, gets, catch, value_error,
  ◌>>=◌, ◌>>◌,
}
use omni_trade.Float.{Float, F, nought}
use omni_trade.Market.Instrument.{Instrument, of_int}
use omni_trade.Market.Quote.{Side, Quote}
use omni_trade.Market.Books.{Books, parse_side, get_quote}
use omni_trade.World.{
  FundingInfo, market, fetch_orderbook, fetch_funding_rate, fetch_funding_rates, RawBook, Exchange,
  Env, World, ask,
}
use omni_trade.Funding.RateCache.{add_symbol, info_of, next_time, Fetched}

module _ ⦃fl : Float⦄ where
  -- `_cache` with its limit of staleness.
  pub record Fetcher : Type 0 where
    pub cache : Option Books
    pub max_staleness_ms : ℕ

  -- The price and the size of the best level, 0 without one.
  abbrev pub best : Side → F × F
  best [] = (nought, nought)
  best (level ∷ rest) = level

  abbrev pub mid_of : F → F → F
  mid_of bid ask =
      if fl.lt nought bid && fl.lt nought ask
      then fl.div (fl.add bid ask) (of_int 2)
      else if fl.lt nought ask
      then ask
      else if fl.lt nought bid
      then bid
      else nought

  unfoldable pub quote_from : Instrument → F → RawBook → Quote
  unfolding parse_side
  quote_from i time ob =
      let bids = parse_side ob.bids in
      let asks = parse_side ob.asks in
      let bid = best bids in
      let ask = best asks in
      record {
        instrument = i;
        fetched_at = time;
        bid_price = bid.0;
        bid_size = bid.1;
        ask_price = ask.0;
        ask_size = ask.1;
        mid_price = mid_of bid.0 ask.0;
        taker_fee_rate = i.taker_fee_rate;
        maker_fee_rate = i.maker_fee_rate;
        funding_rate = none;
        next_funding_time = none;
        open_interest = none;
        bids = bids;
        asks = asks;
      }

  abbrev pub apply_funding : Quote → Option F → Option F → Quote
  apply_funding q rate time = record q { funding_rate = rate; next_funding_time = time }

  abbrev pub is_perp : Instrument → Bool
  is_perp i = i.market_type == "perp"

  -- `perp_by_venue`: the symbols of the quotes that were fetched, by venue.
  unfoldable pub quoted_perps :
      List Instrument
      → List (Option Quote)
      → List (String × List String)
      → List (String × List String)
  unfolding add_symbol
  quoted_perps (i ∷ is) (some q ∷ qs) groups =
      quoted_perps is qs (if is_perp i then add_symbol i.venue i.venue_symbol groups else groups)
  quoted_perps (i ∷ is) (none ∷ qs) groups = quoted_perps is qs groups
  quoted_perps _ _ groups = groups

  -- An entry that is not a dictionary has no `get`.
  abbrev pub apply_info : Quote → Option FundingInfo → Outcome Quote
  apply_info q none = raised attribute_error
  apply_info q (some info) =
      returned (apply_funding q info.funding_rate (next_time info.next_funding_timestamp))

  abbrev pub distribute_one : String → Fetched → Instrument → Quote → Outcome Quote
  distribute_one venue fetched i q =
      if is_perp i && i.venue == venue
      then apply_info q (info_of i.venue_symbol fetched)
      else returned q

  abbrev pub with_slot :
      Option Quote → Outcome (List (Option Quote)) → Outcome (List (Option Quote))
  with_slot q rest = and_then rest λ qs. returned (q ∷ qs)

  -- `for idx, quote in pairs`, slot by slot.
  unfoldable pub distribute :
      String → Fetched → List Instrument → List (Option Quote) → Outcome (List (Option Quote))
  unfolding info_of
  distribute venue fetched (i ∷ is) (some q ∷ qs) =
      let rest = distribute venue fetched is qs in
      and_then (distribute_one venue fetched i q) λ r. with_slot (some r) rest
  distribute venue fetched (i ∷ is) (none ∷ qs) = with_slot none (distribute venue fetched is qs)
  distribute venue fetched _ qs = returned qs

module _ ⦃fl : Float⦄ ⦃env : Env⦄ where
  unfoldable pub fetch_rest : Instrument → Exchange → ℕ → Exec World Quote
  unfolding quote_from ask
  fetch_rest i x depth = do
    ob ←
        ask (market i.venue (fetch_orderbook i.venue_symbol depth))
          (λ h. x.fetch_orderbook h i.venue_symbol depth)
    time ← gets (λ w. env.time w.journal)
    pure (quote_from i time ob)

  -- `_fetch_funding`: where its `try` catches an exception, both values are None.
  unfoldable pub fetch_funding : Exchange → Instrument → Exec World (Option F × Option F)
  unfolding ask
  fetch_funding x i =
      catch
        (do
          info ←
              ask (market i.venue (fetch_funding_rate i.venue_symbol))
                (λ h. x.fetch_funding_rate h i.venue_symbol)
          pure (info.funding_rate, next_time info.next_funding_timestamp))
        λ e. pure (none, none)

  unfoldable pub enrich_funding : Quote → Exchange → Exec World Quote
  unfolding fetch_funding
  enrich_funding q x = do
    funding ← fetch_funding x q.instrument
    pure (apply_funding q funding.0 funding.1)

  abbrev pub cached_quote : Fetcher → Instrument → Exec World (Option Quote)
  cached_quote f i = gets λ w. elim f.cache [
    | none ↦ none
    | some books ↦
        get_quote f.max_staleness_ms (env.monotonic w.journal) (env.time w.journal) books i
  ]

  abbrev pub or_rest : Option Quote → Instrument → Exchange → ℕ → Exec World Quote
  or_rest none i x depth = fetch_rest i x depth
  or_rest (some q) i x depth = pure q

  abbrev pub fetch_from : Fetcher → Option Exchange → Instrument → ℕ → Bool → Exec World Quote
  fetch_from f none i depth enrich = raise value_error
  fetch_from f (some x) i depth enrich = do
    cached ← cached_quote f i
    q ← or_rest cached i x depth
    if enrich && is_perp i then enrich_funding q x else pure q

  unfoldable pub fetch : Fetcher → Instrument → ℕ → Bool → Exec World Quote
  unfolding fetch_rest enrich_funding
  fetch f i depth enrich_funding = fetch_from f (env.exchanges i.venue) i depth enrich_funding

  -- `_fetch_one`
  unfoldable pub fetch_one : Fetcher → ℕ → Instrument → Exec World (Option Quote)
  unfolding fetch
  fetch_one f depth i = catch (do q ← fetch f i depth false; pure (some q)) λ e. pure none

  -- Phase 1; the quotes are fetched one after another.
  unfoldable pub fetch_each : Fetcher → ℕ → List Instrument → Exec World (List (Option Quote))
  unfolding fetch_one
  fetch_each f depth [] = pure []
  fetch_each f depth (i ∷ is) = do
    q ← fetch_one f depth i
    qs ← fetch_each f depth is
    pure (q ∷ qs)

  -- An answer that is not a dictionary gives no rate to any quote.
  abbrev pub distribute_answer :
      String
      → List Instrument
      → List (Option Quote)
      → Option (Option Fetched)
      → Outcome (List (Option Quote))
  distribute_answer venue is qs none = returned qs
  distribute_answer venue is qs (some none) = distribute venue [] is qs
  distribute_answer venue is qs (some (some fetched)) = distribute venue fetched is qs

  abbrev pub fund_venue :
      Option Exchange
      → String
      → List String
      → List Instrument
      → List (Option Quote)
      → Exec World (List (Option Quote))
  fund_venue none venue symbols is qs = pure qs
  fund_venue (some x) venue symbols is qs = do
    answer ←
        catch
          (do
            a ←
                ask (market venue (fetch_funding_rates symbols))
                  (λ h. x.fetch_funding_rates h symbols)
            pure (some a))
          (λ e. pure none)
    λ w. (distribute_answer venue is qs answer, w)

  -- Phase 2: `for venue, pairs in perp_by_venue.items()`
  unfoldable pub fund_groups :
      List (String × List String)
      → List Instrument
      → List (Option Quote)
      → Exec World (List (Option Quote))
  unfolding distribute ask
  fund_groups [] is qs = pure qs
  fund_groups ((venue, symbols) ∷ rest) is qs = do
    qs' ← fund_venue (env.exchanges venue) venue symbols is qs
    fund_groups rest is qs'

  unfoldable pub fetch_many : Fetcher → List Instrument → ℕ → Exec World (List (Option Quote))
  unfolding fetch_each quoted_perps fund_groups
  fetch_many f is depth = do qs ← fetch_each f depth is; fund_groups (quoted_perps is qs []) is qs
