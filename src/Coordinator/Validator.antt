-- ===== src/Coordinator/Validator.antt =====
-- src/coordinator/validator.py: checks before any order is sent. It only reads.
pub mod Steps
use omni_trade.Prelude.{
  ℤ, ℕ, String, Bool, true, false, not, ◌&&◌, ◌==◌, Option, none, some, or_else, List, [], ◌∷◌,
  ◌++◌, map, is_empty, if◌then◌else◌,
}
use omni_trade.Exec.{Exec, Error, not_implemented, Outcome, returned, raised, pure, ◌>>=◌}
use omni_trade.Float.{Float, F, nought}
use omni_trade.Market.Instrument.{of_integer, Instrument, required_margin, of_int}
use omni_trade.Coordinator.AccountType.{Params, account_type_params}
use omni_trade.Coordinator.Plan.{PlannedLeg, Plan}
use omni_trade.World.{Call, fetch_balance, fetch_free_margin, Exchange, Env, World, ask}

module _ ⦃fl : Float⦄ where
  pub data Complaint : Type 0 where
    not_trading : String → Complaint
    no_exchange zero_qty : Complaint
    below_min_qty : F → F → Complaint
    balance_failed margin_failed validation_failed : Error → Complaint
    leverage_too_high : ℤ → Complaint
    insufficient_balance : F → F → Complaint

  pub record ValidationResult : Type 0 where
    pub is_valid : Bool
    pub failures : List (String × Complaint)

  abbrev pub complain {ℓ} : {A : Type ℓ} → Bool → A → List A
  complain true c = c ∷ []
  complain false c = []

  -- Check 1.
  unfoldable pub check_listing : Instrument → List Complaint
  check_listing i = complain (not (i.listing_status == "trading")) (not_trading i.listing_status)

  -- Check 3.
  unfoldable pub check_qty : PlannedLeg → List Complaint
  check_qty l =
      if fl.le l.planned_qty_base nought
      then zero_qty ∷ []
      else complain (fl.lt l.planned_qty_base l.instrument.min_qty)
          (below_min_qty l.planned_qty_base l.instrument.min_qty)

  abbrev pub over_limit : ℤ → Option F → Bool
  over_limit leverage none = false
  over_limit leverage (some m) = fl.lt nought m && fl.lt m (of_integer leverage)

  unfoldable pub check_leverage : PlannedLeg → List Complaint
  check_leverage l =
      complain
        (l.instrument.market_type == "perp" && over_limit l.leverage l.instrument.max_leverage)
        (leverage_too_high l.leverage)

  unfoldable pub check_margin : PlannedLeg → F → List Complaint
  check_margin l available =
      let need = required_margin l.instrument l.planned_notional_usd l.leverage in
      complain (fl.lt available need) (insufficient_balance need available)

  -- A balance, by the symbol of the asset.
  abbrev pub Free : Type 0
  Free = String → Option F

  -- What the margin account says is available, and the complaints of asking it.
  abbrev pub margin_answer : PlannedLeg → F → Outcome Free → F × List Complaint
  margin_answer l available (returned free) =
      (or_else (free l.instrument.quote.symbol) available, [])
  margin_answer l available (raised not_implemented) = (available, [])
  margin_answer l available (raised e) = (available, margin_failed e ∷ [])

  -- Balances that were fetched before, by venue and account; the pipeline passes none.
  abbrev pub Prefetched : Type 0
  Prefetched = String → String → Option (Outcome Free)

module _ ⦃fl : Float⦄ ⦃env : Env⦄ where
  -- `balance_or_exc`: from the dictionary or from the venue, as a value.
  abbrev pub ask_balance :
      Exchange → String → Params → Option (Outcome Free) → Exec World (Outcome Free)
  ask_balance x venue params (some known) w = (returned known, w)
  ask_balance x venue params none w =
      let (r, w') = ask (fetch_balance venue params) (λ h. x.fetch_balance h params) w in
      (returned r, w')

  abbrev pub ask_margin : Exchange → PlannedLeg → F → Exec World (F × List Complaint)
  ask_margin x l available w =
      let params = account_type_params l.instrument.market_type in
      let (r, w') = ask (fetch_free_margin l.venue params) (λ h. x.fetch_free_margin h params) w in
      (returned (margin_answer l available r), w')

  abbrev pub available_funds : Exchange → PlannedLeg → F → Exec World (F × List Complaint)
  available_funds x l available =
      if l.instrument.market_type == "perp" then ask_margin x l available else pure (available, [])

  abbrev pub check_balance : Exchange → PlannedLeg → Outcome Free → Exec World (List Complaint)
  check_balance x l (raised e) = pure (balance_failed e ∷ [])
  check_balance x l (returned free) = do
    funds ← available_funds x l (or_else (free l.instrument.quote.symbol) nought)
    pure (funds.1 ++ (check_leverage l ++ check_margin l funds.0))

  abbrev pub check_account : PlannedLeg → Prefetched → Option Exchange → Exec World (List Complaint)
  check_account l known none = pure (no_exchange ∷ [])
  check_account l known (some x) =
      let params = account_type_params l.instrument.market_type in
      do
        balance ← ask_balance x l.venue params (known l.venue params.account)
        found ← check_balance x l balance
        pure (check_qty l ++ found)

  unfoldable pub validate_leg : Prefetched → PlannedLeg → Exec World (List Complaint)
  unfolding check_listing check_qty check_leverage check_margin account_type_params
  validate_leg known l = do
    found ← check_account l known (env.exchanges l.venue)
    pure (check_listing l.instrument ++ found)

  abbrev pub failures_of : PlannedLeg → Outcome (List Complaint) → List (String × Complaint)
  failures_of l (returned cs) = map (λ c. (l.venue, c)) cs
  failures_of l (raised e) = (l.venue, validation_failed e) ∷ []

  -- `gather` over the legs, and the loop that collects the results.
  unfoldable pub collect : Prefetched → List PlannedLeg → World → List (String × Complaint) × World
  collect known [] w = ([], w)
  collect known (l ∷ ls) w =
      let (r, w') = validate_leg known l w in
      let (rest, w'') = collect known ls w' in (failures_of l r ++ rest, w'')

  unfoldable pub validate : Prefetched → Plan → Exec World ValidationResult
  unfolding collect
  validate known p w =
      let (failures, w') = collect known p.legs w in
      (returned (record { is_valid = is_empty failures; failures = failures }), w')
