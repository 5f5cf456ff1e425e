-- ===== src/Funding/Monitor/Steps.antt =====
-- What holds after every request for market data, every change of the rate cache and every new
-- snapshot holds after a scan.
use omni_trade.Prelude.{
  String, Option, none, some, List, [], ◌∷◌, is_some, is_empty, Bool-cases, inl, inr,
}
use omni_trade.Exec.{Exec, Outcome, gets, ◌>>=◌}
use omni_trade.Exec.Preserves.{
  Preserves, Preserves-pure, Preserves-bind, Preserves-gets, Preserves-if, Preserves-catch,
}
use omni_trade.Float.{Float, F}
use omni_trade.Market.Instrument.{Instrument}
use omni_trade.Market.Pairs.{CrossVenuePair, find_pairs}
use omni_trade.World.{
  MarketRequest, market, call, SnapshotRow, RateEntry, Exchange, History, Env, World, log, ask,
}
use omni_trade.Persistence.Tables.{if_open, insert_funding_snapshot}
use omni_trade.Funding.Comparator.{RateInfo}
use omni_trade.Funding.RateCache.{
  get, perp_by_venue, store_answer, refresh_venue, refresh_known, refresh_groups, refresh, Fetched,
}
use omni_trade.Funding.Monitor.{
  Monitor, unique_instruments, collect_rates, insert_known, persist_snapshots, scan_pairs,
  scan_once,
}

module _ ⦃fl : Float⦄ (P : World → Type 0) where
  pub if_open-Preserves :
      {A : Type 0} (default : A) (m : Exec World A)
      → Preserves P m
      → Preserves P (if_open default m)
  if_open-Preserves default m h = record {
    run = λ w p. elim (Bool-cases (is_some w.db)) [ inl e ↦ rw e (h.run w p) | inr e ↦ rw e p ];
  }

module _ ⦃fl : Float⦄ ⦃env : Env⦄ (P : World → Type 0)
    (on_market : (venue : String) (r : MarketRequest) (w : World)
      → P w
      → P (log (call (market venue r)) w))
    (on_rates : (es : List RateEntry) (w : World) → P w → P (record w { rates = es }))
    (on_snapshots : (rows : List SnapshotRow) (w : World)
      → P w
      → P (record w { tables = record w.tables { snapshots = rows } })) where
  ask_market-Preserves :
      {A : Type 0} (venue : String) (r : MarketRequest) (answer : History → Outcome A)
      → Preserves P (ask (market venue r) answer)
  unfolding ask
  ask_market-Preserves venue r answer = record { run = λ w h. on_market venue r w h }

  get-Preserves : (ttl : F) (venue symbol : String) → Preserves P (get ttl venue symbol)
  unfolding get
  get-Preserves ttl venue symbol = Preserves-gets _

  store_answer-Preserves :
      (now : F) (venue : String) (symbols : List String) (answer : Option Fetched)
      → Preserves P (store_answer now venue symbols answer)
  store_answer-Preserves now venue symbols none = record { run = λ w h. h }
  store_answer-Preserves now venue symbols (some fetched) = record { run = λ w h. on_rates _ w h }

  refresh_known-Preserves :
      (x : Option Exchange) (venue : String) (symbols : List String)
      → Preserves P (refresh_known x venue symbols)
  unfolding refresh_venue
  refresh_known-Preserves none venue symbols = Preserves-pure tt
  refresh_known-Preserves (some x) venue symbols =
      Preserves-catch _ _
        (Preserves-bind _ _ (Preserves-gets _) λ now.
          Preserves-bind _ _
            (Preserves-catch _ _ (ask_market-Preserves venue _ _) λ e. Preserves-pure none)
            (store_answer-Preserves now venue symbols))
        λ e. Preserves-pure tt

  refresh_groups-Preserves :
      (groups : List (String × List String)) → Preserves P (refresh_groups groups)
  unfolding refresh_groups
  refresh_groups-Preserves [] = Preserves-pure tt
  refresh_groups-Preserves ((venue, symbols) ∷ rest) =
      Preserves-bind _ _ (refresh_known-Preserves (env.exchanges venue) venue symbols)
        λ _. refresh_groups-Preserves rest

  pub refresh-Preserves : (is : List Instrument) → Preserves P (refresh is)
  unfolding refresh
  refresh-Preserves is = refresh_groups-Preserves (perp_by_venue is [])

  collect_rates-Preserves : (ttl : F) (is : List Instrument) → Preserves P (collect_rates ttl is)
  unfolding collect_rates
  collect_rates-Preserves ttl [] = Preserves-pure []
  collect_rates-Preserves ttl (i ∷ is) =
      Preserves-bind _ _ (get-Preserves ttl _ _)
        λ entry. Preserves-bind _ _ (collect_rates-Preserves ttl is) λ rest. Preserves-pure _

  insert_known-Preserves :
      (i : Instrument) (info : Option RateInfo) → Preserves P (insert_known i info)
  unfolding insert_funding_snapshot ◌>>=◌ gets
  insert_known-Preserves i none = Preserves-pure tt
  insert_known-Preserves i (some info) =
      if_open-Preserves P _ _ (record { run = λ w h. on_snapshots _ w h })

  persist_snapshots-Preserves :
      (ttl : F) (is : List Instrument) → Preserves P (persist_snapshots ttl is)
  unfolding persist_snapshots
  persist_snapshots-Preserves ttl [] = Preserves-pure tt
  persist_snapshots-Preserves ttl (i ∷ is) = Preserves-bind _ _ (get-Preserves ttl _ _) λ entry.
      Preserves-bind _ _ (insert_known-Preserves i entry) λ _. persist_snapshots-Preserves ttl is

  scan_pairs-Preserves :
      (m : Monitor) (pairs : List CrossVenuePair) → Preserves P (scan_pairs m pairs)
  unfolding scan_pairs
  scan_pairs-Preserves m pairs =
      Preserves-bind _ _ (refresh-Preserves (unique_instruments pairs [])) λ _.
        Preserves-bind _ _ (collect_rates-Preserves m.ttl _) λ rates.
          Preserves-bind _ _ (Preserves-gets _)
            λ now. Preserves-bind _ _ (persist_snapshots-Preserves m.ttl _) λ _. Preserves-pure _

  pub scan_once-Preserves :
      (m : Monitor) (base_filter : Option (List String)) → Preserves P (scan_once m base_filter)
  unfolding scan_once
  scan_once-Preserves m base_filter =
      Preserves-if (is_empty (find_pairs m.registry base_filter)) _ _ (Preserves-pure [])
        (scan_pairs-Preserves m _)
