-- ===== src/Coordinator/AccountType.antt =====
-- src/coordinator/account_type.py: the account that an order goes to.
use omni_trade.Prelude.{String, Bool, true, false, ◌==◌, Option, none, some, if◌then◌else◌}
use omni_trade.Float.{Float, F, nought}

unfoldable pub ccxt_account_type : String → String
ccxt_account_type market_type = if market_type == "perp" then "swap" else market_type

module _ ⦃fl : Float⦄ where
  -- The parameter dictionary of an order: the keys `type`, `reduceOnly`, `timeInForce`, `slippage`.
  -- The source passes the slippage as text; here it is the number that the text writes.
  pub record Params : Type 0 where
    pub account : String
    pub reduce_only : Bool
    pub time_in_force : Option String
    pub slippage : Option F

  unfoldable pub account_type_params : String → Params
  unfolding ccxt_account_type
  account_type_params market_type = record {
    account = ccxt_account_type market_type;
    reduce_only = false;
    time_in_force = none;
    slippage = none;
  }

  unfoldable pub compensation_order_params : String → Params
  unfolding ccxt_account_type
  compensation_order_params market_type = record {
    account = ccxt_account_type market_type;
    reduce_only = if market_type == "perp" then true else false;
    time_in_force = none;
    slippage = none;
  }

  -- What the coordinator reads of an order that a venue returns; `none` is a missing key or `None`,
  -- and `has_id` tells these apart for the key `id`.
  pub record Order : Type 0 where
    pub has_id : Bool
    pub id : Option String
    pub status : Option String
    pub filled : Option F
    pub average : Option F
    pub price : Option F
    -- `order["fee"]["cost"]`, where `fee` is a dictionary
    pub fee_cost : Option F

  -- `x or y` on numbers: 0.0 and `None` count as false.
  abbrev pub or_number : Option F → F → F
  or_number none y = y
  or_number (some x) y = if fl.eq x nought then y else x

  abbrev pub or_option : Option F → Option F → Option F
  or_option none y = y
  or_option (some x) y = if fl.eq x nought then y else some x

  unfoldable pub extract_fee_usd : Order → F
  extract_fee_usd order = or_number order.fee_cost nought
