-- ===== src/Funding/Premium.antt =====
-- src/strategy/funding_arb/premium_tracker.py: the premiums of perpetuals, and where they differ.
pub mod Merged
use omni_trade.Prelude.{
  ℕ, suc, eqb, ltb, String, Bool, true, false, not, ◌&&◌, ◌==◌, Option, none, some, is_some, List,
  [], ◌∷◌, length, select, if◌then◌else◌,
}
use omni_trade.Exec.{Exec, pure, catch, ◌>>=◌, ◌>>◌}
use omni_trade.Float.{Float, F, nought, absolute}
use omni_trade.Market.Instrument.{Instrument, of_int}
use omni_trade.World.{FundingInfo, MarkInfo, market, fetch_mark_prices, Exchange, Env, World, ask}
use omni_trade.Funding.Comparator.{or_zero, RateInfo}
use omni_trade.Funding.RateCache.{perp_by_venue}

module _ ⦃fl : Float⦄ where
  pub record PremiumSnapshot : Type 0 where
    pub venue : String
    pub symbol : String
    pub base : String
    pub mark_price : Option F
    pub index_price : Option F
    pub premium_pct : Option F
    pub funding_rate : Option F
    pub next_funding_time : Option F

  pub record PremiumDivergence : Type 0 where
    pub base : String
    pub venue_discount : String
    pub venue_premium : String
    pub discount_pct : F
    pub premium_pct : F
    pub spread_pct : F
    pub snap_discount : PremiumSnapshot
    pub snap_premium : PremiumSnapshot

  -- An entry of `mark_prices` with its key.
  pub record Mark : Type 0 where
    pub symbol : String
    pub mark : Option F
    pub index : Option F

  -- `x or y`: a 0 counts as missing.
  abbrev pub or_other : Option F → Option F → Option F
  or_other none y = y
  or_other (some x) y = if fl.eq x nought then y else some x

  unfoldable pub put_mark : Mark → List Mark → List Mark
  put_mark new [] = new ∷ []
  put_mark new (m ∷ ms) =
      let rest = put_mark new ms in if m.symbol == new.symbol then new ∷ ms else m ∷ rest

  -- `for sym, entry in data.items()`
  unfoldable pub put_marks : List (String × MarkInfo) → List Mark → List Mark
  unfolding put_mark
  put_marks [] marks = marks
  put_marks ((symbol, info) ∷ rest) marks = put_marks rest (
      put_mark
        (record {
          symbol = symbol;
          mark = or_other info.mark_price info.mark;
          index = or_other info.index_price info.index;
        })
        marks)

  -- `mark_prices.get(symbol, {})`
  unfoldable pub mark_of : String → List Mark → Mark
  mark_of symbol [] = record { symbol = symbol; mark = none; index = none }
  mark_of symbol (m ∷ ms) = let rest = mark_of symbol ms in if m.symbol == symbol then m else rest

  unfoldable pub rate_of_symbol : String → List (String × RateInfo) → Option F × Option F
  rate_of_symbol symbol [] = (none, none)
  rate_of_symbol symbol ((s, info) ∷ rest) =
      let later = rate_of_symbol symbol rest in
      if s == symbol then (info.funding_rate, info.next_funding_time) else later

  abbrev pub premium : Option F → Option F → Option F
  premium (some mark) (some index) =
      if fl.lt nought index
      then some (fl.mul (fl.div (fl.sub mark index) index) (of_int 100))
      else none
  premium _ _ = none

  abbrev pub snapshot : List (String × RateInfo) → List Mark → Instrument → PremiumSnapshot
  snapshot rates marks i =
      let mp = mark_of i.venue_symbol marks in
      let fr = rate_of_symbol i.venue_symbol rates in
      record {
        venue = i.venue;
        symbol = i.venue_symbol;
        base = i.base.symbol;
        mark_price = mp.mark;
        index_price = mp.index;
        premium_pct = premium mp.mark mp.index;
        funding_rate = fr.0;
        next_funding_time = fr.1;
      }

  unfoldable pub snapshots :
      List (String × RateInfo) → List Mark → List Instrument → List PremiumSnapshot
  unfolding mark_of rate_of_symbol
  snapshots rates marks [] = []
  snapshots rates marks (i ∷ is) =
      let rest = snapshots rates marks is in
      if i.market_type == "perp" then snapshot rates marks i ∷ rest else rest

  -- The key of `min` and `max`.
  abbrev pub premium_key : PremiumSnapshot → F
  premium_key s = elim s.premium_pct [ none ↦ nought | some x ↦ or_zero x ]

  -- `min` and `max` keep the first of equal elements; a snapshot stands with its place, by which
  -- `is` tells it from another.
  unfoldable pub min_snap : ℕ → ℕ × PremiumSnapshot → List PremiumSnapshot → ℕ × PremiumSnapshot
  min_snap n found [] = found
  min_snap n found (s ∷ ss) =
      min_snap (suc n) (if fl.lt (premium_key s) (premium_key found.1) then (n, s) else found) ss

  unfoldable pub max_snap : ℕ → ℕ × PremiumSnapshot → List PremiumSnapshot → ℕ × PremiumSnapshot
  max_snap n found [] = found
  max_snap n found (s ∷ ss) =
      max_snap (suc n) (if fl.lt (premium_key found.1) (premium_key s) then (n, s) else found) ss

  abbrev pub divergence : String → PremiumSnapshot → PremiumSnapshot → PremiumDivergence
  divergence base low high = record {
    base = base;
    venue_discount = low.venue;
    venue_premium = high.venue;
    discount_pct = premium_key low;
    premium_pct = premium_key high;
    spread_pct = fl.add (absolute (premium_key low)) (absolute (premium_key high));
    snap_discount = low;
    snap_premium = high;
  }

  abbrev pub compare_snaps : String → List PremiumSnapshot → Option PremiumDivergence
  compare_snaps base [] = none
  compare_snaps base (s ∷ ss) =
      let low = min_snap 1 (0, s) ss in
      let high = max_snap 1 (0, s) ss in
      if eqb low.0 high.0 then none else some (divergence base low.1 high.1)

  unfoldable pub detect_divergence : String → List PremiumSnapshot → Option PremiumDivergence
  unfolding min_snap max_snap
  detect_divergence base snaps =
      let base_snaps = select (λ s. s.base == base && is_some s.premium_pct) snaps in
      if ltb (length base_snaps) 2 then none else compare_snaps base base_snaps

module _ ⦃fl : Float⦄ ⦃env : Env⦄ where
  abbrev pub put_answer : List Mark → Option (List (String × MarkInfo)) → List Mark
  put_answer marks none = marks
  put_answer marks (some fetched) = put_marks fetched marks

  -- `_fetch_mark_batch`
  abbrev pub fetch_mark_batch :
      Option Exchange → String → List String → List Mark → Exec World (List Mark)
  fetch_mark_batch none venue symbols marks = pure marks
  fetch_mark_batch (some x) venue symbols marks = do
    fetched ←
        catch (ask (market venue (fetch_mark_prices symbols)) (λ h. x.fetch_mark_prices h symbols))
          (λ e. pure none)
    pure (put_answer marks fetched)

  unfoldable pub fetch_marks : List (String × List String) → List Mark → Exec World (List Mark)
  unfolding put_marks ask
  fetch_marks [] marks = pure marks
  fetch_marks ((venue, symbols) ∷ rest) marks = do
    marks' ← fetch_mark_batch (env.exchanges venue) venue symbols marks
    fetch_marks rest marks'

  -- The batches of the venues run one after another.
  unfoldable pub fetch_snapshots :
      List Instrument → List (String × RateInfo) → Exec World (List PremiumSnapshot)
  unfolding perp_by_venue fetch_marks snapshots
  fetch_snapshots instruments funding_rates = do
    marks ← fetch_marks (perp_by_venue instruments []) []
    pure (snapshots funding_rates marks instruments)
