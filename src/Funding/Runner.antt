-- ===== src/Funding/Runner.antt =====
-- `_tick` of src/strategy/funding_arb/runner.py: scan, close, open. What is only written to the log
-- is left out: the count of scans, the times, and `exit_spread_pct`, which nothing else reads.
pub mod DryRun
pub mod Bounded
use omni_trade.Prelude.{
  pos, ℕ, leb, String, Bool, true, false, not, ◌&&◌, ◌||◌, ◌==◌, Option, none, some, List, [], ◌∷◌,
  ◌++◌, map, any, length, is_empty, if◌then◌else◌,
}
use omni_trade.Exec.{Exec, Outcome, pure, catch, ◌>>=◌, ◌>>◌}
use omni_trade.Float.{Float, F, nought, absolute}
use omni_trade.Market.Instrument.{of_int}
use omni_trade.Coordinator.StateMachine.{IntentStatus, all_filled, rejected, rolled_back}
use omni_trade.Coordinator.Intent.{Intent, LegConfig, new_intent}
use omni_trade.World.{Env, World}
use omni_trade.Funding.Comparator.{
  Signal, open_long_a_short_b, open_short_a_long_b, no_signal, FundingSpread, or_zero,
}
use omni_trade.Funding.Positions.{HedgedPosition, record_open, record_close, get_open_positions}
use omni_trade.Funding.Monitor.{Monitor, scan_once}

-- What the runner reads of the dictionary that `submit_intent` returns; the status `none` stands
-- for DRY_RUN.
pub record Answer : Type 0 where
  pub status : Option IntentStatus
  pub intent_id : String
  pub leg_ids : List String

abbrev pub counts_as_open : Option IntentStatus → Bool
counts_as_open none = true
counts_as_open (some all_filled) = true
counts_as_open (some rejected) = true
counts_as_open (some s) = false

abbrev pub counts_as_closed : Option IntentStatus → Bool
counts_as_closed (some all_filled) = true
counts_as_closed (some rolled_back) = true
counts_as_closed _ = false

-- `next((l for l in leg_ids if l), leg_ids[0] if len(leg_ids) > 0 else "")`: without an id that is
-- not empty, the first one is empty too.
unfoldable pub long_leg : List String → String
long_leg [] = ""
long_leg (id ∷ ids) = let rest = long_leg ids in if id == "" then rest else id

abbrev pub short_leg : List String → String
short_leg (first ∷ second ∷ rest) = second
short_leg _ = ""

module _ ⦃fl : Float⦄ where
  pub record ArbConfig : Type 0 where
    pub min_spread_pct : F
    pub notional_per_leg : F
    pub max_positions : ℕ
    pub dry_run : Bool

  abbrev pub is_passive : Signal → Bool
  is_passive no_signal = true
  is_passive _ = false

  abbrev pub is_short_a : Signal → Bool
  is_short_a open_short_a_long_b = true
  is_short_a _ = false

  abbrev pub should_open : FundingSpread → Bool
  should_open s = if is_passive s.signal then false else s.is_profitable

  abbrev pub should_close : Option FundingSpread → Bool
  should_close none = true
  should_close (some s) = not s.is_profitable

  unfoldable pub find_spread : HedgedPosition → List FundingSpread → Option FundingSpread
  find_spread p [] = none
  find_spread p (s ∷ ss) =
      let rest = find_spread p ss in if s.pair.base == p.base then some s else rest

  -- The dictionary `{x: u, y: v}`.
  abbrev pub two_keys : {A : Type 0} → String → A → String → A → List (String × A)
  two_keys x u y v = if x == y then (x, v) ∷ [] else (x, u) ∷ (y, v) ∷ []

  abbrev pub perp_leg : String → LegConfig
  perp_leg side = record { product = some "perp"; side = some side; leverage = some (pos 1) }

  -- The arguments of `Intent(…)`: `first` is bought or sold as `side` says, and `second` the other
  -- way round.
  abbrev pub hedge : String → F → String → String → String → String → Intent
  hedge base notional side other first second = record {
    intent_id = "";
    base = base;
    quote_preference = "USDT" ∷ "USDC" ∷ "USD" ∷ [];
    product = "perp";
    side = side;
    order_type = "market";
    total_notional_usd = fl.mul notional (of_int 2);
    split = two_keys first (fl.literal 5 1) second (fl.literal 5 1);
    leverage = pos 1;
    limit_price = none;
    max_slippage_pct = none;
    max_fee_usd = none;
    max_funding_rate_pct = none;
    execute_timeout_seconds = pos 30;
    time_in_force = none;
    created_at = "";
    leg_configs = two_keys first (perp_leg side) second (perp_leg other);
  }

  unfoldable pub opening : ArbConfig → FundingSpread → Intent
  opening cfg s =
      if is_short_a s.signal
      then hedge s.pair.base cfg.notional_per_leg "buy" "sell" s.pair.venue_b s.pair.venue_a
      else hedge s.pair.base cfg.notional_per_leg "buy" "sell" s.pair.venue_a s.pair.venue_b

  unfoldable pub closing : HedgedPosition → Intent
  closing p = hedge p.base p.notional_per_leg "sell" "buy" p.venue_a p.venue_b

  -- A constructor that may raise, called by a method.
  abbrev pub lift : {A : Type 0} → Outcome A → Exec World A
  lift o w = (o, w)

  -- Whether the loop over the spreads passes this one over.
  abbrev pub is_passed : ArbConfig → List String → FundingSpread → Bool
  is_passed cfg bases s = is_passive s.signal || any (λ base. base == s.pair.base) bases

  abbrev pub is_too_small : ArbConfig → Option F → Bool
  is_too_small cfg none = fl.lt (fl.mul (absolute nought) (of_int 100)) cfg.min_spread_pct
  is_too_small cfg (some x) = fl.lt (fl.mul (absolute (or_zero x)) (of_int 100)) cfg.min_spread_pct

module _ ⦃fl : Float⦄ ⦃env : Env⦄ (submit_intent : Intent → Exec World Answer) where
  abbrev pub after_open : ArbConfig → FundingSpread → Answer → Exec World (Unit {0})
  after_open cfg s a =
      if counts_as_open a.status
      then (do
        record_open s.pair cfg.notional_per_leg a.intent_id (long_leg a.leg_ids)
            (short_leg a.leg_ids) s.rate_a s.rate_b
        pure tt)
      else pure tt

  -- The construction of the intent stands before the `try`.
  unfoldable pub open_position : ArbConfig → FundingSpread → Exec World (Unit {0})
  unfolding opening long_leg record_open
  open_position cfg s = if cfg.dry_run then pure tt else do
    i ← lift (new_intent (opening cfg s))
    catch (do a ← submit_intent i; after_open cfg s a) (λ e. pure tt)

  abbrev pub after_close : HedgedPosition → Answer → Exec World (Unit {0})
  after_close p a =
      if counts_as_closed a.status then record_close p.position_id a.intent_id else pure tt

  unfoldable pub close_position : ArbConfig → HedgedPosition → Exec World (Unit {0})
  unfolding closing record_close
  close_position cfg p = if cfg.dry_run then pure tt else do
    i ← lift (new_intent (closing p))
    catch (do a ← submit_intent i; after_close p a) (λ e. pure tt)

  -- Phase 1: `for pos in open_positions`
  unfoldable pub close_phase :
      ArbConfig → List FundingSpread → List HedgedPosition → Exec World (Unit {0})
  unfolding find_spread close_position
  close_phase cfg spreads [] = pure tt
  close_phase cfg spreads (p ∷ ps) = do
    if should_close (find_spread p spreads) then close_position cfg p else pure tt
    close_phase cfg spreads ps

  -- Phase 2: `for spread in spreads`; `bases` is the set `open_bases` and `opened` the list
  -- `open_positions`.
  unfoldable pub open_phase :
      ArbConfig → List String → List HedgedPosition → List FundingSpread → Exec World (Unit {0})
  unfolding open_position get_open_positions
  open_phase cfg bases opened [] = pure tt
  open_phase cfg bases opened (s ∷ ss) =
      let skip = open_phase cfg bases opened ss in
      if is_passed cfg bases s
      then skip
      else if leb cfg.max_positions (length opened)
      then pure tt
      else if is_too_small cfg s.spread
      then skip
      else if should_open s
      then (do
        open_position cfg s
        opened' ← get_open_positions
        open_phase cfg (s.pair.base ∷ bases) opened' ss)
      else skip

  unfoldable pub decide : ArbConfig → List FundingSpread → Exec World (Unit {0})
  unfolding close_phase open_phase
  decide cfg spreads = if is_empty spreads then pure tt else do
    opened ← get_open_positions
    close_phase cfg spreads opened
    open_phase cfg (map (λ p. p.base) opened) opened spreads

  -- `_tick`; a scan that fails is given up.
  unfoldable pub tick : Monitor → ArbConfig → Option (List String) → Exec World (Unit {0})
  unfolding scan_once decide
  tick m cfg base_filter = do
    spreads ← catch (scan_once m base_filter) (λ e. pure [])
    decide cfg spreads
