-- ===== src/Funding/RateCache/Refreshed.antt =====
-- What a refresh of one venue does to the cache of src/market/funding_rate_cache.py.
use omni_trade.Prelude.{◌≡◌, String, ◌==◌, Option, none, some, List, not, select, All}
use mathlib.Core.List.{Memᴰ}
use omni_trade.Exec.{Outcome, returned, raised, attribute_error}
use omni_trade.Float.{Float, F}
use omni_trade.World.{FundingInfo, RateEntry, World}
use omni_trade.Funding.RateCache.{find_entry, info_of, new_entry, Fetched}

module _ ⦃fl : Float⦄ where
  -- The entries of the other venues.
  abbrev pub elsewhere : String → List RateEntry → List RateEntry
  elsewhere venue es = select (λ e. not (e.venue == venue)) es

  module _ (now : F) (venue : String) (fetched : Fetched) where
    -- The symbol's entry is that of the answer.
    abbrev pub Told : String → List RateEntry → Type 0
    Told s es =
        (info : FundingInfo) × (info_of s fetched ≡ some info)
        × (find_entry venue s es ≡ some (new_entry now venue s info))

    -- What became of the symbols: all are told, or one has an entry without a `get`.
    abbrev pub Stored : List String → Outcome (Unit {0}) → List RateEntry → Type 0
    Stored ss (returned u) es = All (λ s. Told s es) ss
    Stored ss (raised e) es =
        (e ≡ attribute_error) × ((s : String) × Memᴰ s ss × (info_of s fetched ≡ none))

    -- All of it for what a run of the loop has left.
    abbrev Left : List String → List RateEntry → Outcome (Unit {0}) × List RateEntry → Type 0
    Left ss es (o, after) = Stored ss o after × (elsewhere venue after ≡ elsewhere venue es)

  -- The outcome and the new entries, against the answer of the venue and the old entries.
  abbrev pub Refreshed :
      F
      → String
      → List String
      → Outcome (Option Fetched)
      → List RateEntry
      → Outcome (Unit {0})
      → List RateEntry
      → Type 0
  Refreshed now venue symbols (raised e) before o after = (o ≡ returned tt) × (after ≡ before)
  Refreshed now venue symbols (returned none) before o after = (o ≡ returned tt) × (after ≡ before)
  Refreshed now venue symbols (returned (some fetched)) before o after =
      Stored now venue fetched symbols o after × (elsewhere venue after ≡ elsewhere venue before)
