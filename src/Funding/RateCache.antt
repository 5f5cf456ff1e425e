-- ===== src/Funding/RateCache.antt =====
-- src/market/funding_rate_cache.py: the latest funding rate of each venue and symbol. The requests
-- of one refresh run one after another.
pub mod Refreshed
use omni_trade.Prelude.{
  ℕ, String, Bool, true, false, not, ◌&&◌, ◌==◌, Option, none, some, List, [], ◌∷◌, ◌++◌, select,
  map, if◌then◌else◌,
}
use omni_trade.Exec.{
  Exec, Outcome, returned, raised, attribute_error, pure, gets, catch, ◌>>=◌, ◌>>◌,
}
use omni_trade.Float.{Float, F, nought}
use omni_trade.Market.Instrument.{Instrument, of_int}
use omni_trade.World.{
  FundingInfo, market, fetch_funding_rates, Exchange, RateEntry, Env, World, ask,
}
use omni_trade.Funding.Comparator.{RateInfo}

-- `d.setdefault(venue, []).append(symbol)`
unfoldable pub add_symbol :
    String → String → List (String × List String) → List (String × List String)
add_symbol venue symbol [] = (venue, symbol ∷ []) ∷ []
add_symbol venue symbol ((v, symbols) ∷ rest) =
    let later = add_symbol venue symbol rest in
    if v == venue then (v, symbols ++ symbol ∷ []) ∷ rest else (v, symbols) ∷ later

module _ ⦃fl : Float⦄ where
  unfoldable pub perp_by_venue :
      List Instrument → List (String × List String) → List (String × List String)
  unfolding add_symbol
  perp_by_venue [] groups = groups
  perp_by_venue (i ∷ is) groups =
      perp_by_venue is
        (if i.market_type == "perp" then add_symbol i.venue i.venue_symbol groups else groups)

  unfoldable pub find_entry : String → String → List RateEntry → Option RateEntry
  find_entry venue symbol [] = none
  find_entry venue symbol (e ∷ es) =
      let rest = find_entry venue symbol es in
      if e.venue == venue && e.symbol == symbol then some e else rest

  -- `self._entries[(venue, sym)] = entry`
  unfoldable pub put_entry : RateEntry → List RateEntry → List RateEntry
  put_entry new [] = new ∷ []
  put_entry new (e ∷ es) =
      let rest = put_entry new es in
      if e.venue == new.venue && e.symbol == new.symbol then new ∷ es else e ∷ rest

  -- The answer of a venue for several symbols; `none` is an entry that is not a dictionary.
  abbrev pub Fetched : Type 0
  Fetched = List (String × Option FundingInfo)

  -- `fr_data.get(sym, {})`
  unfoldable pub info_of : String → Fetched → Option FundingInfo
  info_of symbol [] = some (record { funding_rate = none; next_funding_timestamp = none })
  info_of symbol ((s, info) ∷ rest) =
      let later = info_of symbol rest in if s == symbol then info else later

  -- From milliseconds to seconds.
  abbrev pub next_time : Option F → Option F
  next_time none = none
  next_time (some t) = if fl.lt nought t then some (fl.div t (of_int 1000)) else none

  abbrev pub new_entry : F → String → String → FundingInfo → RateEntry
  new_entry now venue symbol info = record {
    venue = venue;
    symbol = symbol;
    funding_rate = info.funding_rate;
    next_funding_time = next_time info.next_funding_timestamp;
    ts = now;
  }

  -- One turn of the loop; an entry that is not a dictionary has no `get`.
  abbrev pub store_next :
      F
      → String
      → String
      → Option FundingInfo
      → List RateEntry
      → (List RateEntry → Outcome (Unit {0}) × List RateEntry)
      → Outcome (Unit {0}) × List RateEntry
  store_next now venue s none entries rest = (raised attribute_error, entries)
  store_next now venue s (some info) entries rest =
      rest (put_entry (new_entry now venue s info) entries)

  -- `for sym in symbols`: what was stored before a raise stays.
  unfoldable pub store_rates :
      F → String → Fetched → List String → List RateEntry → Outcome (Unit {0}) × List RateEntry
  unfolding put_entry info_of
  store_rates now venue fetched [] entries = (returned tt, entries)
  store_rates now venue fetched (s ∷ ss) entries =
      store_next now venue s (info_of s fetched) entries
        (λ later. store_rates now venue fetched ss later)

  abbrev pub rate_info : RateEntry → RateInfo
  rate_info e = record {
    funding_rate = e.funding_rate;
    premium_pct = none;
    next_funding_time = e.next_funding_time;
  }

  abbrev pub set_rates : List RateEntry → Exec World (Unit {0})
  set_rates es w = (returned tt, record w { rates = es })

module _ ⦃fl : Float⦄ ⦃env : Env⦄ where
  abbrev pub is_fresh : F → F → RateEntry → Bool
  is_fresh ttl now e = not (fl.lt ttl (fl.sub now e.ts))

  abbrev pub fresh_info : F → F → Option RateEntry → Option RateInfo
  fresh_info ttl now none = none
  fresh_info ttl now (some e) = if is_fresh ttl now e then some (rate_info e) else none

  -- `ttl` is the attribute `_ttl`.
  unfoldable pub get : F → String → String → Exec World (Option RateInfo)
  unfolding find_entry
  get ttl venue symbol =
      gets λ w. fresh_info ttl (env.monotonic w.journal) (find_entry venue symbol w.rates)

  unfoldable pub all_rates : F → Exec World (List (String × String × RateInfo))
  all_rates ttl = gets λ w.
      map (λ e. (e.venue, e.symbol, rate_info e))
        (select (is_fresh ttl (env.monotonic w.journal)) w.rates)

  -- What a venue answered; `none` where its adapter raised or its answer is not a dictionary.
  abbrev pub store_answer : F → String → List String → Option Fetched → Exec World (Unit {0})
  store_answer now venue symbols none w = (returned tt, w)
  store_answer now venue symbols (some fetched) w =
      let (o, es) = store_rates now venue fetched symbols w.rates in (o, record w { rates = es })

  unfoldable pub refresh_venue : Exchange → String → List String → Exec World (Unit {0})
  unfolding store_rates ask
  refresh_venue x venue symbols = do
    now ← gets (λ w. env.monotonic w.journal)
    answer ←
        catch
          (ask (market venue (fetch_funding_rates symbols)) (λ h. x.fetch_funding_rates h symbols))
          (λ e. pure none)
    store_answer now venue symbols answer

  -- `gather` with `return_exceptions=True` passes over what a task raises.
  abbrev pub refresh_known : Option Exchange → String → List String → Exec World (Unit {0})
  refresh_known none venue symbols = pure tt
  refresh_known (some x) venue symbols = catch (refresh_venue x venue symbols) λ e. pure tt

  unfoldable pub refresh_groups : List (String × List String) → Exec World (Unit {0})
  unfolding refresh_venue
  refresh_groups [] = pure tt
  refresh_groups ((venue, symbols) ∷ rest) = do
    refresh_known (env.exchanges venue) venue symbols
    refresh_groups rest

  unfoldable pub refresh : List Instrument → Exec World (Unit {0})
  unfolding perp_by_venue refresh_groups
  refresh instruments = refresh_groups (perp_by_venue instruments [])

  unfoldable pub clear : Exec World (Unit {0})
  clear = set_rates []
