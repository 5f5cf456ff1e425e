-- ===== src/Samples/Strategies.antt =====
-- The theorems about the older strategies at concrete inputs.
use omni_trade.Prelude.{ℕ, ◌≡◌, refl, String, none, some, List, [], ◌∷◌, ◌==◌, if◌then◌else◌}
use mathlib.Core.List.{Memᴰ}
use omni_trade.Exec.{Outcome, returned, raised, value_error}
use omni_trade.Float.{F}
use omni_trade.Float.Fixed.{fixed}
use omni_trade.Market.Instrument.{of_int}
use omni_trade.Strategies.HedgeVolume.{
  VolumeTarget, Chance, Strategy, Config, new_strategy, offered, select_next_symbol,
}
use omni_trade.Strategies.HedgeVolume.Chosen.{
  Selection, targets_for, targets_on, select_next_symbol-Selection,
}
use omni_trade.Strategies.SpreadArbitrage.{Book, Orderbooks, Limits, analyze_opportunities}
use omni_trade.Strategies.SpreadArbitrage.Tradable.{Analysis, analyze_opportunities-Analysis}

abbrev first_of : List String → String
first_of [] = ""
first_of (s ∷ ss) = s

abbrev first_or_error : List String → Outcome String
first_or_error [] = raised value_error
first_or_error (s ∷ ss) = returned s

abbrev first_chance : Chance
first_chance = record {
  choice = λ n. first_of;
  choices = λ n ss ws. first_or_error ss;
  uniform = λ n low high. low;
  random = λ n. of_int 0;
  round_to = λ x digits. x;
}

abbrev target : String → ℕ → VolumeTarget
target symbol done = record {
  symbol = symbol;
  daily_target_volume = of_int 10;
  current_volume = of_int done;
  priority = 1;
}

abbrev no_config : Config
no_config = record {
  default_size = none;
  max_spread_cost = none;
  min_position_lifetime = none;
  max_position_lifetime = none;
  risk_per_trade = none;
}

abbrev strategy : Strategy
strategy = new_strategy (target "BTC" 10 ∷ target "ETH" 4 ∷ []) no_config 1

first_chance-mem :
    (n : ℕ) (s : String) (ss : List String) → Memᴰ (first_chance.choice n (s ∷ ss)) (s ∷ ss)
first_chance-mem n s ss = Memᴰ.head refl

first_or_error-member :
    (n : ℕ) (ss : List String) (ws : List F) (s : String)
    → first_chance.choices n ss ws ≡ returned s
    → Memᴰ s ss
first_or_error-member n [] ws s e = absurd (cc e)
first_or_error-member n (x ∷ ss) ws s e = Memᴰ.head (cc e)

select_next_symbol-Selection_example :
    Selection first_chance
      (offered (some ("BTC" ∷ "ETH" ∷ [])))
      (targets_for (offered (some ("BTC" ∷ "ETH" ∷ []))) (targets_on 1 strategy))
      (select_next_symbol first_chance (some ("BTC" ∷ "ETH" ∷ [])) 1 strategy).0
select_next_symbol-Selection_example =
    select_next_symbol-Selection first_chance first_chance-mem first_or_error-member
      (some ("BTC" ∷ "ETH" ∷ [])) 1 strategy

abbrev sample_book : ℕ → ℕ → Book
sample_book bid ask = record {
  bids = (of_int bid, of_int 2) ∷ [];
  asks = (of_int ask, of_int 3) ∷ [];
}

abbrev books : Orderbooks
books =
    ("x", λ s. if s == "BTC" then some (sample_book 99 100) else none)
    ∷ ("y", λ s. if s == "BTC" then some (sample_book 102 103) else none)
    ∷ []

abbrev limits : Limits
limits = record {
  min_spread = of_int 1;
  max_position_size = of_int 1;
  clock = λ symbol x y. of_int 0;
}

analyze_opportunities-Analysis_example :
    Analysis limits books
      ("BTC" ∷ "ETH" ∷ [])
      []
      (analyze_opportunities limits books ("BTC" ∷ "ETH" ∷ []) []).0
      (analyze_opportunities limits books ("BTC" ∷ "ETH" ∷ []) []).1
analyze_opportunities-Analysis_example =
    analyze_opportunities-Analysis limits books ("BTC" ∷ "ETH" ∷ []) []
