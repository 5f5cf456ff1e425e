-- ===== src/Strategies/HedgeVolume.antt =====
-- src/strategies/hedge_volume.py: which symbol to trade next for its daily target, how much, and when
-- to close. The date of the clock and what is asked of a position are arguments; the log is left out.
pub mod Chosen
pub mod Progress
use omni_trade.Prelude.{
  ℕ, suc, ltb, String, Bool, true, false, not, ◌==◌, Option, none, some, List, [], ◌∷◌, map, any,
  is_empty, select, or_else, if◌then◌else◌,
}
use omni_trade.Exec.{Exec, Outcome, returned, pure, raise, gets, value_error, ◌>>=◌, ◌>>◌}
use omni_trade.Float.{Float, F, nought}
use omni_trade.Market.Instrument.{float_max, float_min, of_int}

module _ ⦃fl : Float⦄ where
  pub record VolumeTarget : Type 0 where
    pub symbol : String
    pub daily_target_volume : F
    pub current_volume : F
    pub priority : ℕ

  -- Python's `random`, by the number of the draws before, and `round` to a number of digits.
  pub record Chance : Type 0 where
    pub choice : ℕ → List String → String
    pub choices : ℕ → List String → List F → Outcome String
    pub uniform : ℕ → F → F → F
    pub random : ℕ → F
    pub round_to : F → ℕ → F

  -- The attributes of a `HedgeVolumeStrategy`, and the number of the draws so far. The dictionary
  -- `targets` has the symbols of its values as keys.
  pub record Strategy : Type 0 where
    pub targets : List VolumeTarget
    pub default_size : F
    pub max_spread_cost : F
    pub min_position_lifetime : F
    pub max_position_lifetime : F
    pub risk_per_trade : F
    pub last_reset_date : ℕ
    pub draws : ℕ

  -- `{t.symbol: t for t in targets}`: a later target takes the place of one with its symbol.
  unfoldable pub put_target : VolumeTarget → List VolumeTarget → List VolumeTarget
  put_target t [] = t ∷ []
  put_target t (u ∷ us) =
      let rest = put_target t us in if u.symbol == t.symbol then t ∷ us else u ∷ rest

  unfoldable pub put_targets : List VolumeTarget → List VolumeTarget → List VolumeTarget
  unfolding put_target
  put_targets known [] = known
  put_targets known (t ∷ ts) = put_targets (put_target t known) ts

  pub record Config : Type 0 where
    pub default_size : Option F
    pub max_spread_cost : Option F
    pub min_position_lifetime : Option F
    pub max_position_lifetime : Option F
    pub risk_per_trade : Option F

  unfoldable pub new_strategy : List VolumeTarget → Config → ℕ → Strategy
  unfolding put_targets
  new_strategy targets config today = record {
    targets = put_targets [] targets;
    default_size = or_else config.default_size (fl.literal 1 2);
    max_spread_cost = or_else config.max_spread_cost (of_int 100);
    min_position_lifetime = or_else config.min_position_lifetime (of_int 300);
    max_position_lifetime = or_else config.max_position_lifetime (of_int 3600);
    risk_per_trade = or_else config.risk_per_trade (fl.literal 2 2);
    last_reset_date = today;
    draws = 0;
  }

  unfoldable pub get_completion_rate : VolumeTarget → F
  get_completion_rate t =
      if fl.le t.daily_target_volume nought
      then of_int 1
      else float_min (fl.div t.current_volume t.daily_target_volume) (of_int 1)

  unfoldable pub is_completed : VolumeTarget → Bool
  unfolding get_completion_rate
  is_completed t = fl.le (of_int 1) (get_completion_rate t)

  unfoldable pub get_remaining_volume : VolumeTarget → F
  get_remaining_volume t = float_max nought (fl.sub t.daily_target_volume t.current_volume)

  abbrev pub cleared : VolumeTarget → VolumeTarget
  cleared t = record t { current_volume = nought }

  -- `_check_daily_reset`, with the date of today.
  abbrev pub reset : ℕ → Strategy → Strategy
  reset today st =
      if ltb st.last_reset_date today
      then record st { targets = map cleared st.targets; last_reset_date = today }
      else st

  unfoldable pub check_daily_reset : ℕ → Exec Strategy (Unit {0})
  check_daily_reset today st = (returned tt, reset today st)

  -- One more draw.
  unfoldable pub draw : {A : Type 0} → (ℕ → A) → Exec Strategy A
  draw f st = (returned (f st.draws), record st { draws = suc st.draws })

  unfoldable pub draw_outcome : {A : Type 0} → (ℕ → Outcome A) → Exec Strategy A
  draw_outcome f st = (f st.draws, record st { draws = suc st.draws })

  -- `if available_symbols`: the list, or nothing.
  abbrev pub offered : Option (List String) → List String
  offered none = []
  offered (some symbols) = symbols

  unfoldable pub eligible : Option (List String) → List VolumeTarget → List VolumeTarget
  eligible available targets =
      if is_empty (offered available)
      then targets
      else select (λ t. any (λ s. s == t.symbol) (offered available)) targets

  abbrev pub weight : VolumeTarget → F
  weight t = fl.mul (fl.sub (of_int 1) (get_completion_rate t)) (of_int t.priority)

  abbrev pub unfinished : List VolumeTarget → List VolumeTarget
  unfinished = select (λ t. not (is_completed t))

  abbrev pub symbols_of : List VolumeTarget → List String
  symbols_of = map (λ t. t.symbol)

module _ ⦃fl : Float⦄ (chance : Chance) where
  -- No target is configured for the available symbols.
  abbrev pub choose_offered : List String → Exec Strategy String
  choose_offered [] = raise value_error
  choose_offered (s ∷ ss) = draw (λ n. chance.choice n (s ∷ ss))

  -- From the eligible and those whose target is not reached.
  abbrev pub choose_from : List VolumeTarget → List VolumeTarget → Exec Strategy String
  choose_from all_targets [] = draw (λ n. chance.choice n (symbols_of all_targets))
  choose_from all_targets (t ∷ ts) =
      draw_outcome (λ n. chance.choices n (symbols_of (t ∷ ts)) (map weight (t ∷ ts)))

  abbrev pub choose_candidate : List String → List VolumeTarget → Exec Strategy String
  choose_candidate symbols [] = choose_offered symbols
  choose_candidate symbols (t ∷ ts) = choose_from (t ∷ ts) (unfinished (t ∷ ts))

  unfoldable pub select_next_symbol : Option (List String) → ℕ → Exec Strategy String
  unfolding check_daily_reset eligible draw draw_outcome
  select_next_symbol available today = do
    check_daily_reset today
    found ← gets (λ st. eligible available st.targets)
    choose_candidate (offered available) found

  -- `max(min_size, min(max_size, x))`
  abbrev pub clamp : F → F → F → F
  clamp min_size max_size x = float_max min_size (float_min max_size x)

  unfoldable pub add_randomness : F → F → F → Exec Strategy F
  unfolding draw
  add_randomness base_size min_size max_size = do
    factor ← draw (λ n. chance.uniform n (fl.literal 7 1) (of_int 1))
    pure (chance.round_to (clamp min_size max_size (fl.mul base_size factor)) 6)

  unfoldable pub find_target : String → List VolumeTarget → Option VolumeTarget
  find_target symbol [] = none
  find_target symbol (t ∷ ts) = if t.symbol == symbol then some t else find_target symbol ts

  -- The least of the limits, and not less than the minimum.
  abbrev pub optimal : Strategy → F → F → F → F → F → F
  optimal st remaining current_spread available_balance min_size max_size =
      let max_affordable = fl.mul available_balance st.risk_per_trade in
      let max_by_balance =
        if fl.lt nought current_spread then fl.div max_affordable current_spread else max_size in
      let max_by_spread =
        if fl.lt nought current_spread
        then fl.div st.max_spread_cost current_spread
        else max_size in
      let suggested = fl.div remaining (of_int 10) in
      float_max
        (float_min
          (float_min (float_min (float_min remaining max_by_balance) max_by_spread) suggested)
          max_size)
        min_size

  abbrev pub base_size : Strategy → Option VolumeTarget → F → F → F → F → F
  base_size st none current_spread available_balance min_size max_size = st.default_size
  base_size st (some t) current_spread available_balance min_size max_size =
      let remaining = get_remaining_volume t in
      if fl.le remaining nought
      then fl.mul min_size (of_int 2)
      else optimal st remaining current_spread available_balance min_size max_size

  unfoldable pub calculate_optimal_size : String → F → F → F → F → Exec Strategy F
  unfolding find_target get_remaining_volume add_randomness
  calculate_optimal_size symbol current_spread available_balance min_size max_size = do
    size ← gets (λ st.
        base_size st (find_target symbol st.targets) current_spread available_balance min_size
          max_size)
    add_randomness size min_size max_size

  -- `opening_spread` is the spread of the position, `lifetime` its age in seconds.
  abbrev pub has_narrowed : Option F → F → Bool
  has_narrowed none opening_spread = false
  has_narrowed (some spread) opening_spread = fl.lt spread (fl.mul opening_spread (fl.literal 5 1))

  abbrev pub close_probability : Strategy → F → F
  close_probability st lifetime =
      fl.mul
        (fl.div (fl.sub lifetime st.min_position_lifetime)
          (fl.sub st.max_position_lifetime st.min_position_lifetime))
        (fl.literal 5 1)

  abbrev pub decide_closing : Strategy → F → F → Option F → Exec Strategy Bool
  decide_closing st lifetime opening_spread current_spread =
      if fl.lt lifetime st.min_position_lifetime
      then pure false
      else if fl.le st.max_position_lifetime lifetime
      then pure true
      else if has_narrowed current_spread opening_spread
      then pure true
      else draw (λ n. fl.lt (chance.random n) (close_probability st lifetime))

  unfoldable pub should_close_position : F → F → Option F → Exec Strategy Bool
  unfolding draw
  should_close_position lifetime opening_spread current_spread st =
      decide_closing st lifetime opening_spread current_spread st
