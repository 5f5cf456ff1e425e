-- ===== src/Coordinator/Plan.antt =====
-- src/coordinator/plan.py
use omni_trade.Prelude.{ℤ, String, Bool, Option, List}
use omni_trade.Float.{Float, F}
use omni_trade.Market.Instrument.{Instrument}
use omni_trade.Market.Quote.{EstimatedFill}
use omni_trade.Coordinator.Intent.{Intent}

module _ ⦃fl : Float⦄ where
  pub record SelectionLog : Type 0 where
    pub quote_preference : List String
    pub selected : String
    pub mid_price : F

  pub record PlannedLeg : Type 0 where
    pub venue : String
    pub instrument : Instrument
    pub quote_matched : String
    pub planned_notional_usd : F
    pub planned_qty_base : F
    pub estimated_fill : EstimatedFill
    pub estimated_fee_usd : F
    pub side : String
    pub leverage : ℤ
    pub funding_rate : Option F
    pub next_funding_time : Option F
    pub selection_log : List SelectionLog

  -- Why a venue was left out; the source formats a text from these values.
  pub data Violation : Type 0 where
    slippage fee funding : F → F → Violation

  pub data Reason : Type 0 where
    no_instrument no_orderbook empty_orderbook : Reason
    below_min_notional too_small : F → Reason
    insufficient_depth : F → Reason
    violates : List Violation → Reason
    no_legs : Reason

  pub record Plan : Type 0 where
    pub intent : Intent
    pub legs : List PlannedLeg
    pub rejected_venues : List (String × Reason)
    pub aggregate_estimated_avg_price : F
    pub aggregate_estimated_fee_usd : F
    pub is_acceptable : Bool
    pub rejection_reasons : List (Option String × Reason)
