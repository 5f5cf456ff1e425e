-- ===== src/Funding/Runner/DryRun.antt =====
-- A dry run of the daemon looks and does not touch.
use omni_trade.Prelude.{
  ◌≡◌, refl, ◌∙◌, String, Bool, true, false, not, Option, List, [], ◌∷◌, map, select, select-append,
  append-nil, leb, length, is_empty,
}
use omni_trade.Exec.{Exec}
use omni_trade.Exec.Preserves.{
  Preserves, Preserves-pure, Preserves-bind, Preserves-gets, Preserves-if, Preserves-catch,
}
use omni_trade.Float.{Float}
use omni_trade.Coordinator.Intent.{Intent}
use omni_trade.World.{market, Entry, audit, call, History, Env, World}
use omni_trade.Funding.Comparator.{FundingSpread}
use omni_trade.Funding.Positions.{HedgedPosition, get_open_positions, get_open_hedged_positions}
use omni_trade.Funding.Monitor.{Monitor, scan_once}
use omni_trade.Funding.Monitor.Steps.{if_open-Preserves, scan_once-Preserves}
use omni_trade.Funding.Runner.{
  Answer, ArbConfig, should_close, should_open, is_passed, is_too_small, find_spread, open_position,
  close_position, close_phase, open_phase, decide, tick,
}

module _ ⦃fl : Float⦄ where
  pub get_open_positions-Preserves : (P : World → Type 0) → Preserves P get_open_positions
  unfolding get_open_positions get_open_hedged_positions
  get_open_positions-Preserves P =
      Preserves-bind _ _
        (if_open-Preserves P _ _ (Preserves-bind _ _ (Preserves-gets _) λ t. Preserves-pure _))
        λ rows. Preserves-pure _

module _ ⦃fl : Float⦄ ⦃env : Env⦄ (submit_intent : Intent → Exec World Answer)
    (P : World → Type 0) where
  module _ (cfg : ArbConfig)
      (closes : (p : HedgedPosition) → Preserves P (close_position submit_intent cfg p)) where
    pub close_phase-Preserves :
        (spreads : List FundingSpread) (ps : List HedgedPosition)
        → Preserves P (close_phase submit_intent cfg spreads ps)
    unfolding close_phase
    close_phase-Preserves spreads [] = Preserves-pure tt
    close_phase-Preserves spreads (p ∷ ps) =
        Preserves-bind _ _
          (Preserves-if (should_close (find_spread p spreads)) _ _ (closes p) (Preserves-pure tt))
          λ _. close_phase-Preserves spreads ps

  module _ (cfg : ArbConfig)
      (opens : (s : FundingSpread) → Preserves P (open_position submit_intent cfg s))
      (closes : (p : HedgedPosition) → Preserves P (close_position submit_intent cfg p)) where
    open_phase-Preserves :
        (bases : List String) (opened : List HedgedPosition) (ss : List FundingSpread)
        → Preserves P (open_phase submit_intent cfg bases opened ss)
    unfolding open_phase
    open_phase-Preserves bases opened [] = Preserves-pure tt
    open_phase-Preserves bases opened (s ∷ ss) =
        let skip = open_phase-Preserves bases opened ss in
        Preserves-if (is_passed cfg bases s) _ _ skip (
          Preserves-if (leb cfg.max_positions (length opened)) _ _ (Preserves-pure tt) (
            Preserves-if (is_too_small cfg s.spread) _ _ skip (
              Preserves-if (should_open s) _ _
                (Preserves-bind _ _ (opens s) λ _.
                  Preserves-bind _ _ (get_open_positions-Preserves P)
                    λ opened'. open_phase-Preserves (s.pair.base ∷ bases) opened' ss)
                skip)))

    pub decide-Preserves : (ss : List FundingSpread) → Preserves P (decide submit_intent cfg ss)
    unfolding decide
    decide-Preserves ss = Preserves-if (is_empty ss) _ _ (Preserves-pure tt) (
        Preserves-bind _ _ (get_open_positions-Preserves P) λ opened.
          Preserves-bind _ _ (close_phase-Preserves cfg closes ss opened)
            λ _. open_phase-Preserves (map (λ p. p.base) opened) opened ss)

    tick-Preserves :
        (m : Monitor) (base_filter : Option (List String))
        → Preserves P (scan_once m base_filter)
        → Preserves P (tick submit_intent m cfg base_filter)
    unfolding tick
    tick-Preserves m base_filter scans =
        Preserves-bind _ _ (Preserves-catch _ _ scans λ e. Preserves-pure []) decide-Preserves

module _ ⦃fl : Float⦄ where
  abbrev pub is_market : Entry → Bool
  is_market (audit e) = false
  is_market (call (market venue r)) = true
  is_market (call c) = false

  -- The journal without the requests for market data.
  abbrev pub lasting : History → History
  lasting j = select (λ e. not (is_market e)) j

  -- The two states have the same intents, legs, hedged positions and instruments, the same risk
  -- window, and a journal that differs by requests for market data alone.
  pub record Untouched (v w : World) : Type 0 where
    pub db : w.db ≡ v.db
    pub positions : w.tables.hedged_positions ≡ v.tables.hedged_positions
    pub instruments : w.tables.instruments ≡ v.tables.instruments
    pub order_timestamps : w.order_timestamps ≡ v.order_timestamps
    pub journal : lasting w.journal ≡ lasting v.journal

module _ ⦃fl : Float⦄ ⦃env : Env⦄ where
  -- In dry-run mode a tick, whatever the scan finds and whatever submitting an intent would do,
  -- changes no intent, no leg, no hedged position and no instrument, and writes nothing to the
  -- journal but requests for market data.
  pub tick-dry_run :
      (submit_intent : Intent → Exec World Answer) (m : Monitor) (cfg : ArbConfig)
      (base_filter : Option (List String)) (w : World)
      → cfg.dry_run ≡ true
      → Untouched w (tick submit_intent m cfg base_filter w).1
  unfolding open_position close_position
  tick-dry_run submit_intent m cfg base_filter w dry =
      (tick-Preserves submit_intent (Untouched w) cfg (λ s. rw dry (Preserves-pure tt))
          (λ p. rw dry (Preserves-pure tt)) m base_filter
          (scan_once-Preserves (Untouched w)
            (λ venue r v h. record {
              db = h.db;
              positions = h.positions;
              instruments = h.instruments;
              order_timestamps = h.order_timestamps;
              journal = select-append _ v.journal _ ∙ append-nil _ ∙ h.journal;
            })
            (λ es v h. record {
              db = h.db;
              positions = h.positions;
              instruments = h.instruments;
              order_timestamps = h.order_timestamps;
              journal = h.journal;
            })
            (λ rows v h. record {
              db = h.db;
              positions = h.positions;
              instruments = h.instruments;
              order_timestamps = h.order_timestamps;
              journal = h.journal;
            })
            m base_filter)).run
        w
        (record {
          db = refl;
          positions = refl;
          instruments = refl;
          order_timestamps = refl;
          journal = refl;
        })
