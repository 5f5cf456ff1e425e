-- ===== src/Market/Instrument.antt =====
-- src/market/asset.py and src/market/instrument.py.
use omni_trade.Prelude.{
  ℤ, pos, negsuc, exceeds, suc, ℕ, String, Bool, ◌&&◌, Option, ◌==◌, if◌then◌else◌,
}
use omni_trade.Float.{Float, F, nought}

pub record Asset : Type 0 where
  pub symbol : String
  pub kind : String

-- The fields of the dataclass; `network` is the `value` of its `NetworkType`.
module _ ⦃fl : Float⦄ where
  pub record Instrument : Type 0 where
    pub venue : String
    pub network : String
    pub market_type : String
    pub base : Asset
    pub quote : Asset
    pub venue_symbol : String
    pub min_qty : F
    pub qty_step : F
    pub price_step : F
    pub min_notional : F
    pub taker_fee_rate : F
    pub maker_fee_rate : F
    pub contract_size : F
    pub is_inverse : Bool
    pub listing_status : String
    pub max_leverage : Option F

  -- `max(a, b)` of the built-ins keeps the first argument unless the second is larger.
  abbrev pub float_max : F → F → F
  float_max a b = if fl.lt a b then b else a

  -- `min(a, b)` keeps the first argument unless the second is smaller.
  abbrev pub float_min : F → F → F
  float_min a b = if fl.lt b a then b else a

  abbrev pub of_int : ℕ → F
  of_int n = fl.literal n 0

  abbrev pub of_integer : ℤ → F
  of_integer (pos n) = of_int n
  of_integer (negsuc n) = fl.sub nought (of_int (suc n))

  -- The dictionary key of an instrument.
  pub record Key : Type 0 where
    pub venue : String
    pub network : String
    pub market_type : String
    pub base : String
    pub quote : String

  unfoldable pub instrument_key : Instrument → Key
  instrument_key i = record {
    venue = i.venue;
    network = i.network;
    market_type = i.market_type;
    base = i.base.symbol;
    quote = i.quote.symbol;
  }

  unfoldable pub round_qty : Instrument → F → F
  round_qty i amount =
      if fl.eq i.qty_step nought
      then amount
      else (let steps = fl.round (fl.div amount i.qty_step) in
          float_max i.min_qty (fl.mul steps i.qty_step))

  unfoldable pub round_price : Instrument → F → F
  round_price i price =
      if fl.eq i.price_step nought
      then price
      else fl.mul (fl.round (fl.div price i.price_step)) i.price_step

  unfoldable pub required_margin : Instrument → F → ℤ → F
  required_margin i notional_usd leverage =
      if i.market_type == "perp" && exceeds 0 leverage
      then fl.div notional_usd (of_integer leverage)
      else notional_usd
