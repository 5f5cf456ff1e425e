-- ===== src/Strategies/SpreadArbitrage.antt =====
-- src/strategies/spread_arbitrage.py: which symbols can be bought on one exchange and sold on another.
pub mod Tradable
use omni_trade.Prelude.{
  String, Bool, true, false, ◌==◌, Option, none, some, List, [], ◌∷◌, ◌++◌, map, sort,
  if◌then◌else◌,
}
use omni_trade.Exec.{Exec, Outcome, returned, raised, zero_division}
use omni_trade.Float.{Float, F, nought}
use omni_trade.Market.Instrument.{float_min, of_int}

module _ ⦃fl : Float⦄ where
  pub record ArbitrageOpportunity : Type 0 where
    pub symbol : String
    pub buy_exchange : String
    pub sell_exchange : String
    pub buy_price : F
    pub sell_price : F
    pub spread : F
    pub spread_percentage : F
    pub timestamp : F
    pub volume : F

  -- The levels of a book, a price and an amount each. A missing key is an empty list.
  pub record Book : Type 0 where
    pub bids : List (F × F)
    pub asks : List (F × F)

  -- The books by exchange and symbol, in the order of the dictionary.
  abbrev pub Orderbooks : Type 0
  Orderbooks = List (String × (String → Option Book))

  -- The attributes that the analysis reads, and the clock by symbol and exchanges.
  pub record Limits : Type 0 where
    pub min_spread : F
    pub max_position_size : F
    pub clock : String → String → String → F

  abbrev pub opportunity : Limits → String → String → String → F × F → F × F → ArbitrageOpportunity
  opportunity limits symbol buy_exchange sell_exchange (buy_price, buy_volume)
        (sell_price, sell_volume) =
      let spread = fl.sub sell_price buy_price in
      record {
        symbol = symbol;
        buy_exchange = buy_exchange;
        sell_exchange = sell_exchange;
        buy_price = buy_price;
        sell_price = sell_price;
        spread = spread;
        spread_percentage = fl.mul (fl.div spread buy_price) (of_int 100);
        timestamp = limits.clock symbol buy_exchange sell_exchange;
        volume = float_min (float_min buy_volume sell_volume) limits.max_position_size;
      }

  abbrev pub if_wide : Limits → ArbitrageOpportunity → Option ArbitrageOpportunity
  if_wide limits o = if fl.le limits.min_spread o.spread_percentage then some o else none

  -- With the first ask of one book and the first bid of the other. The division raises where the
  -- price is 0.
  abbrev pub calculate_at :
      Limits → String → String → String → F × F → F × F → Outcome (Option ArbitrageOpportunity)
  calculate_at limits symbol buy_exchange sell_exchange ask bid =
      if fl.eq ask.0 nought
      then raised zero_division
      else returned (if_wide limits (opportunity limits symbol buy_exchange sell_exchange ask bid))

  unfoldable pub calculate_directional_opportunity :
      Limits → String → String → String → Book → Book → Outcome (Option ArbitrageOpportunity)
  calculate_directional_opportunity limits symbol x y bought sold = elim bought.asks [
    | [] ↦ returned none
    | ask ∷ _ ↦ elim sold.bids [
      | [] ↦ returned none
      | bid ∷ _ ↦ calculate_at limits symbol x y ask bid
    ]
  ]

  -- `if opp: opportunities.append(opp)`
  abbrev pub listed : Outcome (Option ArbitrageOpportunity) → Outcome (List ArbitrageOpportunity)
  listed (returned none) = returned []
  listed (returned (some o)) = returned (o ∷ [])
  listed (raised e) = raised e

  -- `opportunities.extend`: one after the other, unless one raises.
  abbrev pub joined :
      Outcome (List ArbitrageOpportunity)
      → Outcome (List ArbitrageOpportunity)
      → Outcome (List ArbitrageOpportunity)
  joined (returned os) (returned more) = returned (os ++ more)
  joined (returned os) (raised e) = raised e
  joined (raised e) _ = raised e

  -- Both directions between two exchanges.
  abbrev pub between :
      Limits
      → String
      → String
      → String
      → Option Book
      → Option Book
      → Outcome (List ArbitrageOpportunity)
  between limits symbol x y (some a) (some b) =
      joined (listed (calculate_directional_opportunity limits symbol x y a b))
        (listed (calculate_directional_opportunity limits symbol y x b a))
  between limits symbol x y (some a) none = returned []
  between limits symbol x y none b = returned []

  -- `for exchange_b in exchanges[i + 1:]`
  unfoldable pub with_others :
      Limits
      → String
      → String
      → (String → Option Book)
      → Orderbooks
      → Outcome (List ArbitrageOpportunity)
  unfolding calculate_directional_opportunity
  with_others limits symbol x books [] = returned []
  with_others limits symbol x books ((y, other_books) ∷ rest) =
      joined (between limits symbol x y (books symbol) (other_books symbol))
        (with_others limits symbol x books rest)

  unfoldable pub analyze_symbol_opportunities :
      Limits → String → Orderbooks → Outcome (List ArbitrageOpportunity)
  unfolding with_others
  analyze_symbol_opportunities limits symbol [] = returned []
  analyze_symbol_opportunities limits symbol ((x, books) ∷ rest) =
      joined (with_others limits symbol x books rest)
        (analyze_symbol_opportunities limits symbol rest)

  unfoldable pub analyze_symbols :
      Limits → Orderbooks → List String → Outcome (List ArbitrageOpportunity)
  unfolding analyze_symbol_opportunities
  analyze_symbols limits books [] = returned []
  analyze_symbols limits books (symbol ∷ symbols) =
      joined (analyze_symbol_opportunities limits symbol books)
        (analyze_symbols limits books symbols)

  -- `key=lambda x: x.spread_percentage, reverse=True`
  abbrev pub is_wider : ArbitrageOpportunity → ArbitrageOpportunity → Bool
  is_wider o p = fl.lt p.spread_percentage o.spread_percentage

  -- The state is the attribute `opportunities`.
  abbrev pub remember :
      Outcome (List ArbitrageOpportunity)
      → Exec (List ArbitrageOpportunity) (List ArbitrageOpportunity)
  remember (returned os) before = (returned (sort is_wider os), sort is_wider os)
  remember (raised e) before = (raised e, before)

  unfoldable pub analyze_opportunities :
      Limits
      → Orderbooks
      → List String
      → Exec (List ArbitrageOpportunity) (List ArbitrageOpportunity)
  unfolding analyze_symbols
  analyze_opportunities limits books symbols before =
      remember (analyze_symbols limits books symbols) before

  unfoldable pub calculate_position_size : Limits → ArbitrageOpportunity → F → F → Outcome F
  calculate_position_size limits o total_capital risk_per_trade =
      if fl.eq o.buy_price nought
      then raised zero_division
      else returned (
          float_min (float_min o.volume (fl.div (fl.mul total_capital risk_per_trade) o.buy_price))
            limits.max_position_size)
