-- ===== src/Coordinator/Intent.antt =====
-- src/coordinator/intent.py: what the user asks for, checked on construction.
pub mod Checked
use omni_trade.Prelude.{
  ℤ, exceeds, is_one, ℕ, ltb, eqb, String, Bool, true, false, not, ◌&&◌, ◌||◌, ◌==◌, Option, none,
  some, or_else, List, [], ◌∷◌, upper, if◌then◌else◌,
}
use omni_trade.Exec.{Outcome, returned, raised, value_error, and_then}
use omni_trade.Float.{Float, F, nought}

abbrev pub is_product : String → Bool
is_product s = "spot" == s || "perp" == s

abbrev pub is_side : String → Bool
is_side s = "buy" == s || "sell" == s

abbrev pub is_time_in_force : String → Bool
is_time_in_force s = "GTC" == s || "IOC" == s || "FOK" == s

-- `if not c: raise ValueError(…)`
abbrev pub require : Bool → Outcome (Unit {0})
require true = returned tt
require false = raised value_error

-- Overrides for one leg; `none` leaves the intent's value.
pub record LegConfig : Type 0 where
  pub product : Option String
  pub side : Option String
  pub leverage : Option ℤ

abbrev pub holds {ℓ} : {A : Type ℓ} → (A → Bool) → Option A → Bool
holds p none = true
holds p (some a) = p a

-- `LegConfig.__post_init__`
unfoldable pub new_leg_config : LegConfig → Outcome LegConfig
new_leg_config c = and_then (require (holds is_product c.product)) λ _.
    and_then (require (holds is_side c.side))
      λ _. and_then (require (holds (exceeds 0) c.leverage)) λ _. returned c

abbrev pub resolve_product : LegConfig → String → String
resolve_product c default = or_else c.product default

abbrev pub resolve_side : LegConfig → String → String
resolve_side c default = or_else c.side default

abbrev pub resolve_leverage : LegConfig → ℤ → ℤ
resolve_leverage c default = or_else c.leverage default

abbrev pub empty_leg_config : LegConfig
empty_leg_config = record { product = none; side = none; leverage = none }

-- `split` and `leg_configs` are dictionaries: their entries in insertion order, each key once.
module _ ⦃fl : Float⦄ where
  pub record Intent : Type 0 where
    pub intent_id : String
    pub base : String
    pub quote_preference : List String
    pub product : String
    pub side : String
    pub order_type : String
    pub total_notional_usd : F
    pub split : List (String × F)
    pub leverage : ℤ
    pub limit_price : Option F
    pub max_slippage_pct : Option F
    pub max_fee_usd : Option F
    pub max_funding_rate_pct : Option F
    pub execute_timeout_seconds : ℤ
    pub time_in_force : Option String
    pub created_at : String
    pub leg_configs : List (String × LegConfig)

  unfoldable pub sum_ratios : F → List (String × F) → F
  sum_ratios acc [] = acc
  sum_ratios acc ((venue, ratio) ∷ rest) = sum_ratios (fl.add acc ratio) rest

  unfoldable pub normalize : Option String → Outcome (Option String)
  normalize none = returned none
  normalize (some t) =
      and_then (require (is_time_in_force (upper t))) λ _. returned (some (upper t))

  abbrev pub spot_unlevered : String → ℤ → Bool
  spot_unlevered product leverage = not (product == "spot" && not (is_one leverage))

  -- `for venue, lc in self.leg_configs.items()`
  unfoldable pub check_legs : Intent → List (String × LegConfig) → Outcome (Unit {0})
  check_legs i [] = returned tt
  check_legs i ((venue, c) ∷ rest) =
      and_then
        (require (spot_unlevered (resolve_product c i.product) (resolve_leverage c i.leverage)))
        λ _. check_legs i rest

  abbrev pub has_limit_price : Intent → Bool
  has_limit_price i = elim i.limit_price [ none ↦ not (i.order_type == "limit") | some p ↦ true ]

  -- `Intent.__post_init__`, in its order.
  unfoldable pub new_intent : Intent → Outcome Intent
  unfolding sum_ratios normalize check_legs
  new_intent i =
      let total = sum_ratios nought i.split in
      and_then (require (fl.le (fl.literal 999 3) total && fl.le total (fl.literal 1001 3))) λ _.
        and_then (require (is_product i.product)) λ _. and_then (require (is_side i.side)) λ _.
          and_then (normalize i.time_in_force) λ tif. and_then (require (has_limit_price i)) λ _.
            and_then (require (spot_unlevered i.product i.leverage)) λ _.
              and_then (check_legs i i.leg_configs) λ _. returned (record i { time_in_force = tif })

  unfoldable pub find_config : String → List (String × LegConfig) → LegConfig
  find_config venue [] = empty_leg_config
  find_config venue ((v, c) ∷ rest) = if v == venue then c else find_config venue rest

  unfoldable pub get_leg_config : Intent → String → LegConfig
  unfolding find_config
  get_leg_config i venue = find_config venue i.leg_configs
