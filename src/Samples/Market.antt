-- ===== src/Samples/Market.antt =====
-- The theorems about the market data at concrete inputs.
use omni_trade.Prelude.{[], ◌∷◌}
use omni_trade.Float.Fixed.{fixed}
use omni_trade.Market.Registry.{find_one}
use omni_trade.Market.Registry.Lookup.{Found, matches, find_one-Found}
use omni_trade.Samples.{orchestrator}

find_one-Found_example :
    Found
      (matches "BTC" "hyperliquid" "spot")
      orchestrator.registry.instruments
      ("USDC" ∷ "USDT" ∷ [])
      (find_one orchestrator.registry "BTC" "hyperliquid" "spot" ("USDC" ∷ "USDT" ∷ []))
find_one-Found_example =
    find_one-Found orchestrator.registry "BTC" "hyperliquid" "spot" ("USDC" ∷ "USDT" ∷ [])
