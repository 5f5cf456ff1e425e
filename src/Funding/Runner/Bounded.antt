-- ===== src/Funding/Runner/Bounded.antt =====
-- The daemon never holds more hedged positions open than its limit, and never two on one base.
use omni_trade.Prelude.{
  ℕ, suc, ◌≤◌, leb, ◌≡◌, String, true, false, ◌==◌, Option, is_some, List, [], ◌∷◌, map, any,
  length, is_empty, arith, Bool-cases, inl, inr,
}
use omni_trade.Exec.{Exec, Outcome, returned, raised, pure, gets, ◌>>=◌, raise}
use omni_trade.Exec.Preserves.{
  Preserves, Preserves-pure, Preserves-bind, Preserves-if, Preserves-catch,
}
use omni_trade.Exec.Ensures.{
  Ensures, Ensures-pure, Ensures-if, Ensures-bind, Ensures-catch, Preserves-Ensures, Met,
}
use omni_trade.Float.{Float, F}
use omni_trade.Market.Pairs.{CrossVenuePair}
use omni_trade.Coordinator.Intent.{Intent, new_intent}
use omni_trade.World.{HedgedRow, Env, World}
use omni_trade.Funding.Comparator.{FundingSpread}
use omni_trade.Funding.Positions.{
  HedgedPosition, get_open_positions, get_open_hedged_positions, create_hedged_position,
  record_open, close_hedged_position, record_close,
}
use omni_trade.Funding.Positions.Counts.{
  open_count, Single, Within, add-Within, close-Within, more-Within, wider-Within, read-Within,
  length-open_rows,
}
use omni_trade.Funding.Monitor.{Monitor, scan_once}
use omni_trade.Funding.Monitor.Steps.{if_open-Preserves, scan_once-Preserves}
use omni_trade.Funding.Runner.{
  Answer, ArbConfig, should_open, is_passed, is_too_small, closing, opening, counts_as_open,
  counts_as_closed, lift, after_open, open_position, close_position, close_phase, open_phase,
  decide, tick,
}
use omni_trade.Funding.Runner.DryRun.{close_phase-Preserves}

module _ ⦃fl : Float⦄ where
  -- The connection is open, and the rows of the hedged positions have `Q`.
  abbrev pub On : (List HedgedRow → Type 0) → World → Type 0
  On Q w = (is_some w.db ≡ true) × Q w.tables.hedged_positions

  -- At most so many positions are open, and no two on one base.
  pub record Limited (most : ℕ) (rows : List HedgedRow) : Type 0 where
    pub few : open_count rows ≤ most
    pub single : Single rows

  Within-Limited :
      (bases : List String) (n most : ℕ) (rows : List HedgedRow)
      → n ≤ most
      → Within bases n rows
      → Limited most rows
  Within-Limited bases n most rows le h = record {
    few = omega (arith, le, h.few);
    single = h.single;
  }

  -- What a reading of the open positions returns.
  get_open-Ensures :
      (most : ℕ)
      → Ensures
          (On (Limited most))
          get_open_positions
          (λ ps w. On (Within (map (λ p. p.base) ps) (length ps)) w × (length ps ≤ most))
          (On (Limited most))
  unfolding get_open_positions get_open_hedged_positions pure gets ◌>>=◌
  get_open-Ensures most = record {
    run = λ w h.
        let rows = w.tables.hedged_positions in
        rw h.0 ((h.0, read-Within rows h.1.single), omega (arith, length-open_rows rows, h.1.few));
  }

  reread :
      (bases : List String) (n most : ℕ)
      → n ≤ most
      → Ensures
          (On (Within bases n))
          get_open_positions
          (λ ps w. On (Within bases (length ps)) w × (length ps ≤ most))
          (On (Limited most))
  unfolding get_open_positions get_open_hedged_positions pure gets ◌>>=◌
  reread bases n most le = record {
    run = λ w h.
        let rows = w.tables.hedged_positions in
        rw h.0 (
          (
            h.0,
            record {
              few = omega (arith, length-open_rows rows);
              single = h.1.single;
              covered = h.1.covered;
            },
          ),
          omega (arith, length-open_rows rows, h.1.few, le),
        );
  }

  wider_and_more :
      (base : String) (bases : List String) (n : ℕ) (rows : List HedgedRow)
      → Within bases n rows
      → Within (base ∷ bases) (suc n) rows
  wider_and_more base bases n rows h =
      wider-Within base bases (suc n) rows (more-Within bases n (suc n) rows (omega arith) h)

module _ ⦃fl : Float⦄ ⦃env : Env⦄ (submit_intent : Intent → Exec World Answer)
    (keeps : (Q : List HedgedRow → Type 0) (i : Intent) → Preserves (On Q) (submit_intent i)) where
  lift-Preserves : {A : Type 0} (P : World → Type 0) (o : Outcome A) → Preserves P (lift o)
  lift-Preserves P o = record { run = λ w h. h }

  record_close-Preserves :
      (bases : List String) (n : ℕ) (id closer : String)
      → Preserves (On (Within bases n)) (record_close id closer)
  unfolding record_close close_hedged_position gets ◌>>=◌
  record_close-Preserves bases n id closer =
      if_open-Preserves _ _ _
        (record { run = λ w h. (h.0, close-Within bases n id closer _ _ h.1) })

  close_position-Preserves :
      (bases : List String) (n : ℕ) (cfg : ArbConfig) (p : HedgedPosition)
      → Preserves (On (Within bases n)) (close_position submit_intent cfg p)
  unfolding close_position
  close_position-Preserves bases n cfg p = Preserves-if cfg.dry_run _ _ (Preserves-pure tt) (
      Preserves-bind _ _ (lift-Preserves _ (new_intent (closing p))) λ i.
        Preserves-catch _ _
          (Preserves-bind _ _ (keeps (Within bases n) i) λ a.
            Preserves-if (counts_as_closed a.status) _ _
              (record_close-Preserves bases n p.position_id a.intent_id) (Preserves-pure tt))
          λ e. Preserves-pure tt)

  -- One more position of the base, or none.
  abbrev Grown : String → List String → ℕ → World → Type 0
  Grown base bases n = On (Within (base ∷ bases) (suc n))

  record_open-Ensures :
      (bases : List String) (n : ℕ) (pair : CrossVenuePair) (notional : F)
      (intent long short : String) (ra rb : Option F)
      → any (λ x. x == pair.base) bases ≡ false
      → Ensures
          (On (Within bases n))
          (record_open pair notional intent long short ra rb)
          (λ _. Grown pair.base bases n)
          (Grown pair.base bases n)
  unfolding record_open create_hedged_position pure raise gets ◌>>=◌
  record_open-Ensures bases n pair notional intent long short ra rb fresh = record {
    run = λ w h.
        rw h.0
          (elim (Bool-cases
            (any (λ r. r.position_id == env.new_position_id w.journal) w.tables.hedged_positions)) [
              | inl taken ↦ rw taken (h.0, wider_and_more pair.base bases n _ h.1)
              | inr free ↦ rw free (h.0, add-Within bases n _ _ fresh h.1)
            ]);
  }

  after_open-Ensures :
      (bases : List String) (n : ℕ) (cfg : ArbConfig) (s : FundingSpread) (a : Answer)
      → any (λ x. x == s.pair.base) bases ≡ false
      → Ensures
          (On (Within bases n))
          (after_open submit_intent cfg s a)
          (λ _. Grown s.pair.base bases n)
          (Grown s.pair.base bases n)
  after_open-Ensures bases n cfg s a fresh =
      Ensures-if (counts_as_open a.status) _ _
        (λ _.
          Ensures-bind _ _ (record_open-Ensures bases n s.pair _ _ _ _ _ _ fresh)
            λ id. Ensures-pure tt λ w h. h)
        λ _. Ensures-pure tt λ w h. (h.0, wider_and_more s.pair.base bases n _ h.1)

  open_position-Ensures :
      (bases : List String) (n most : ℕ) (cfg : ArbConfig) (s : FundingSpread)
      → any (λ x. x == s.pair.base) bases ≡ false
      → suc n ≤ most
      → Ensures
          (On (Within bases n))
          (open_position submit_intent cfg s)
          (λ _. Grown s.pair.base bases n)
          (On (Limited most))
  unfolding open_position
  open_position-Ensures bases n most cfg s fresh room =
      Ensures-if cfg.dry_run _ _
        (λ _. Ensures-pure tt λ w h. (h.0, wider_and_more s.pair.base bases n _ h.1))
        λ _.
          Ensures-bind _ _
            (Preserves-Ensures _ (lift-Preserves _ (new_intent (opening cfg s)))
              λ w h. (h.0, Within-Limited bases n most _ (omega (arith, room)) h.1))
            λ i.
              Ensures-catch _ _
                (Ensures-bind _ _
                  (Preserves-Ensures _ (keeps (Within bases n) i)
                    λ w h. (h.0, wider_and_more s.pair.base bases n _ h.1))
                  λ a. after_open-Ensures bases n cfg s a fresh)
                λ e. Ensures-pure tt λ w h. h

  open_phase-Ensures :
      (cfg : ArbConfig) (bases : List String) (opened : List HedgedPosition)
      (ss : List FundingSpread)
      → length opened ≤ cfg.max_positions
      → Ensures
          (On (Within bases (length opened)))
          (open_phase submit_intent cfg bases opened ss)
          (λ _. On (Limited cfg.max_positions))
          (On (Limited cfg.max_positions))
  unfolding open_phase
  open_phase-Ensures cfg bases opened [] le =
      Ensures-pure tt λ w h. (h.0, Within-Limited bases _ _ _ le h.1)
  open_phase-Ensures cfg bases opened (s ∷ ss) le =
      let skip = open_phase-Ensures cfg bases opened ss le in
      Ensures-if (is_passed cfg bases s) _ _ (λ _. skip)
        λ not_passed.
          Ensures-if (leb cfg.max_positions (length opened)) _ _
            (λ _. Ensures-pure tt λ w h. (h.0, Within-Limited bases _ _ _ le h.1))
            λ room.
              Ensures-if (is_too_small cfg s.spread) _ _ (λ _. skip)
                λ _.
                  Ensures-if (should_open s) _ _
                    (λ _.
                      Ensures-bind _ _
                        (open_position-Ensures bases (length opened) cfg.max_positions cfg s
                          (ground (arith, not_passed)) (ground (arith, room)))
                        λ _.
                          Ensures-bind _ _
                            (reread (s.pair.base ∷ bases) (suc (length opened)) cfg.max_positions
                              (ground (arith, room)))
                            λ opened'. record {
                              run = λ w h.
                                  (open_phase-Ensures cfg (s.pair.base ∷ bases) opened' ss h.1).run
                                    w h.0;
                            })
                    λ _. skip

  closing_phase :
      (bases : List String) (n : ℕ) (cfg : ArbConfig) (ss : List FundingSpread)
      (ps : List HedgedPosition)
      → Preserves (On (Within bases n)) (close_phase submit_intent cfg ss ps)
  closing_phase bases n cfg ss ps =
      close_phase-Preserves submit_intent (On (Within bases n)) cfg
        (close_position-Preserves bases n cfg) ss ps

  decide-Ensures :
      (cfg : ArbConfig) (ss : List FundingSpread)
      → Ensures
          (On (Limited cfg.max_positions))
          (decide submit_intent cfg ss)
          (λ _. On (Limited cfg.max_positions))
          (On (Limited cfg.max_positions))
  unfolding decide
  decide-Ensures cfg ss =
      let most = cfg.max_positions in
      Ensures-if (is_empty ss) _ _ (λ _. Ensures-pure tt λ w h. h)
        λ _. Ensures-bind _ _ (get_open-Ensures most) λ opened.
          let bases = map (λ p. p.base) opened in
          record {
            run = λ w h.
                (Ensures-bind _ _
                    (Preserves-Ensures _ (closing_phase bases (length opened) cfg ss opened)
                      λ v k. (k.0, Within-Limited bases _ most _ h.1 k.1))
                    λ _. open_phase-Ensures cfg bases opened ss h.1).run
                  w h.0;
          }

  Met-both :
      {A : Type 0} (P : World → Type 0) (o : Outcome A) (w : World) → Met (λ _. P) P o w → P w
  Met-both P (returned a) w h = h
  Met-both P (raised e) w h = h

  scan-Preserves :
      (Q : List HedgedRow → Type 0) (m : Monitor) (base_filter : Option (List String))
      → Preserves (On Q) (scan_once m base_filter)
  scan-Preserves Q m base_filter =
      scan_once-Preserves (On Q) (λ venue r w h. h) (λ es w h. h) (λ rows w h. h) m base_filter

  pub tick-Limited :
      (m : Monitor) (cfg : ArbConfig) (base_filter : Option (List String)) (w : World)
      → On (Limited cfg.max_positions) w
      → On (Limited cfg.max_positions) (tick submit_intent m cfg base_filter w).1
  unfolding tick
  tick-Limited m cfg base_filter w h =
      let P = On (Limited cfg.max_positions) in
      Met-both P (tick submit_intent m cfg base_filter w).0
        (tick submit_intent m cfg base_filter w).1
        ((Ensures-bind _ _
            (Preserves-Ensures _
              (Preserves-catch _ _ (scan-Preserves (Limited cfg.max_positions) m base_filter)
                λ e. Preserves-pure [])
              λ v k. k)
            (decide-Ensures cfg)).run
          w h)
