-- ===== src/Strategies/SpreadArbitrage/Tradable.antt =====
-- What the opportunities of an analysis have in common.
use omni_trade.Prelude.{
  ◌≡◌, refl, ◌⊎◌, inl, inr, String, true, false, Option, none, some, List, [], ◌∷◌, All, All-append,
  sort-All, Before, Bool-cases,
}
use mathlib.Core.List.{Memᴰ}
use omni_trade.Exec.{Outcome, returned, raised, zero_division}
use omni_trade.Float.{Float, F, nought}
use omni_trade.Market.Instrument.{float_min, of_int}
use omni_trade.Strategies.SpreadArbitrage.{
  ArbitrageOpportunity, Book, Orderbooks, Limits, opportunity, calculate_at,
  calculate_directional_opportunity, listed, joined, between, with_others,
  analyze_symbol_opportunities, analyze_symbols, is_wider, remember, analyze_opportunities,
}

module _ {A : Type 0} where
  -- The value has the property, or a division by 0 was raised.
  abbrev pub Holds : (A → Type 0) → Outcome A → Type 0
  Holds Q (returned a) = Q a
  Holds Q (raised e) = e ≡ zero_division

module _ ⦃fl : Float⦄ where
  -- The opportunity is in the first levels of the books of two different entries, its price differs
  -- from 0, and its spread in percent is not below the minimum.
  pub record Tradable (limits : Limits) (books : Orderbooks) (symbols : List String)
      (o : ArbitrageOpportunity) : Type 0 where
    pub wanted : Memᴰ o.symbol symbols
    pub bought : String → Option Book
    pub sold : String → Option Book
    pub apart :
        Before (o.buy_exchange, bought) (o.sell_exchange, sold) books
        ⊎ Before (o.sell_exchange, sold) (o.buy_exchange, bought) books
    pub buy_book : Book
    pub sell_book : Book
    pub books_known : (bought o.symbol ≡ some buy_book) × (sold o.symbol ≡ some sell_book)
    pub ask : F × F
    pub bid : F × F
    pub more_asks : List (F × F)
    pub more_bids : List (F × F)
    pub first_levels : (buy_book.asks ≡ ask ∷ more_asks) × (sell_book.bids ≡ bid ∷ more_bids)
    pub prices : (o.buy_price ≡ ask.0) × (o.sell_price ≡ bid.0)
    pub divides : fl.eq o.buy_price nought ≡ false
    pub spreads :
        (o.spread ≡ fl.sub o.sell_price o.buy_price)
        × (o.spread_percentage ≡ fl.mul (fl.div o.spread o.buy_price) (of_int 100))
    pub wide : fl.le limits.min_spread o.spread_percentage ≡ true
    pub sized : o.volume ≡ float_min (float_min ask.1 bid.1) limits.max_position_size

  abbrev pub AllTradable : Limits → Orderbooks → List String → List ArbitrageOpportunity → Type 0
  AllTradable limits books symbols = All (Tradable limits books symbols)

  joined-Holds :
      (P : ArbitrageOpportunity → Type 0) (m n : Outcome (List ArbitrageOpportunity))
      → Holds (All P) m
      → Holds (All P) n
      → Holds (All P) (joined m n)
  joined-Holds P (returned os) (returned more) h k = All-append P os more h k
  joined-Holds P (returned os) (raised e) h k = k
  joined-Holds P (raised e) n h k = h

  module _ (limits : Limits) (books : Orderbooks) (symbols : List String) (symbol : String)
      (known : Memᴰ symbol symbols) where
    at-Holds :
        (x y : String) (bought sold : String → Option Book) (a b : Book) (ask bid : F × F)
        (asks bids : List (F × F))
        → Before (x, bought) (y, sold) books ⊎ Before (y, sold) (x, bought) books
        → (bought symbol ≡ some a) × (sold symbol ≡ some b)
        → (a.asks ≡ ask ∷ asks) × (b.bids ≡ bid ∷ bids)
        → Holds (AllTradable limits books symbols) (listed (calculate_at limits symbol x y ask bid))
    at-Holds x y bought sold a b ask bid asks bids apart found levels =
        let o = opportunity limits symbol x y ask bid in
        elim (Bool-cases (fl.eq ask.0 nought)) [
          | inl e ↦ rw e refl
          | inr e ↦ rw e (elim (Bool-cases (fl.le limits.min_spread o.spread_percentage)) [
            | inr narrow ↦ rw narrow tt
            | inl w ↦ rw w (
              record {
                wanted = known;
                bought = bought;
                sold = sold;
                apart = apart;
                buy_book = a;
                sell_book = b;
                books_known = found;
                ask = ask;
                bid = bid;
                more_asks = asks;
                more_bids = bids;
                first_levels = levels;
                prices = (refl, refl);
                divides = e;
                spreads = (refl, refl);
                wide = w;
                sized = refl;
              },
              tt,
            )
          ])
        ]

    directional-Holds :
        (x y : String) (bought sold : String → Option Book) (a b : Book) (asks bids : List (F × F))
        → Before (x, bought) (y, sold) books ⊎ Before (y, sold) (x, bought) books
        → (bought symbol ≡ some a) × (sold symbol ≡ some b)
        → a.asks ≡ asks
        → b.bids ≡ bids
        → Holds
            (AllTradable limits books symbols)
            (listed (calculate_directional_opportunity limits symbol x y a b))
    unfolding calculate_directional_opportunity
    directional-Holds x y bought sold a b [] bids apart found e f = rw e tt
    directional-Holds x y bought sold a b (ask ∷ asks) [] apart found e f = rw (e, f) tt
    directional-Holds x y bought sold a b (ask ∷ asks) (bid ∷ bids) apart found e f =
        rw (e, f) (at-Holds x y bought sold a b ask bid asks bids apart found (e, f))

    between-Holds :
        (x y : String) (bs cs : String → Option Book) (a b : Option Book)
        → Before (x, bs) (y, cs) books
        → bs symbol ≡ a
        → cs symbol ≡ b
        → Holds (AllTradable limits books symbols) (between limits symbol x y a b)
    between-Holds x y bs cs (some a) (some b) before e f =
        joined-Holds _ (listed (calculate_directional_opportunity limits symbol x y a b))
          (listed (calculate_directional_opportunity limits symbol y x b a))
          (directional-Holds x y bs cs a b _ _ (inl before) (e, f) refl refl)
          (directional-Holds y x cs bs b a _ _ (inr before) (f, e) refl refl)
    between-Holds x y bs cs (some a) none before e f = tt
    between-Holds x y bs cs none b before e f = tt

    others-Holds :
        (x : String) (bs : String → Option Book) (rest : Orderbooks)
        → ((y : String) (cs : String → Option Book)
            → Memᴰ (y, cs) rest
            → Before (x, bs) (y, cs) books)
        → Holds (AllTradable limits books symbols) (with_others limits symbol x bs rest)
    unfolding with_others
    others-Holds x bs [] h = tt
    others-Holds x bs ((y, cs) ∷ rest) h =
        joined-Holds _ (between limits symbol x y (bs symbol) (cs symbol))
          (with_others limits symbol x bs rest)
          (between-Holds x y bs cs _ _ (h y cs (Memᴰ.head refl)) refl refl)
          (others-Holds x bs rest λ z ds m. h z ds (Memᴰ.tail m))

    symbol-Holds :
        (rest : Orderbooks)
        → ((x y : String) (bs cs : String → Option Book)
            → Before (x, bs) (y, cs) rest
            → Before (x, bs) (y, cs) books)
        → Holds (AllTradable limits books symbols) (analyze_symbol_opportunities limits symbol rest)
    unfolding analyze_symbol_opportunities
    symbol-Holds [] h = tt
    symbol-Holds ((x, bs) ∷ rest) h =
        joined-Holds _ (with_others limits symbol x bs rest)
          (analyze_symbol_opportunities limits symbol rest)
          (others-Holds x bs rest λ y cs m. h x y bs cs (Before.here refl m))
          (symbol-Holds rest λ z y ds cs b. h z y ds cs (Before.later b))

  module _ (limits : Limits) (books : Orderbooks) (symbols : List String) where
    symbols-Holds :
        (rest : List String)
        → ((s : String) → Memᴰ s rest → Memᴰ s symbols)
        → Holds (AllTradable limits books symbols) (analyze_symbols limits books rest)
    unfolding analyze_symbols
    symbols-Holds [] h = tt
    symbols-Holds (s ∷ rest) h =
        joined-Holds _ (analyze_symbol_opportunities limits s books)
          (analyze_symbols limits books rest)
          (symbol-Holds limits books symbols s (h s (Memᴰ.head refl)) books λ x y bs cs b. b)
          (symbols-Holds rest λ t m. h t (Memᴰ.tail m))

  -- What an analysis leaves behind: its result, or after a division by 0 what was there before.
  abbrev pub Analysis :
      Limits
      → Orderbooks
      → List String
      → List ArbitrageOpportunity
      → Outcome (List ArbitrageOpportunity)
      → List ArbitrageOpportunity
      → Type 0
  Analysis limits books symbols before (returned os) after =
      (after ≡ os) × AllTradable limits books symbols os
  Analysis limits books symbols before (raised e) after = (after ≡ before) × (e ≡ zero_division)

  remember-Analysis :
      (limits : Limits) (books : Orderbooks) (symbols : List String)
      (before : List ArbitrageOpportunity) (o : Outcome (List ArbitrageOpportunity))
      → Holds (AllTradable limits books symbols) o
      → Analysis limits books symbols before (remember o before).0 (remember o before).1
  remember-Analysis limits books symbols before (returned os) h = (refl, sort-All _ is_wider os h)
  remember-Analysis limits books symbols before (raised e) h = (refl, h)

  -- Every opportunity that an analysis returns is for one of the symbols, buys at the first ask of
  -- the book of one entry and sells at the first bid of the book of another, with a buying price
  -- other than 0, a spread in percent not below the minimum, and the least of the two amounts and the
  -- maximal position as volume; the attribute `opportunities` is then the result. The analysis raises
  -- by a division by 0 alone, and the attribute then stays.
  pub analyze_opportunities-Analysis :
      (limits : Limits) (books : Orderbooks) (symbols : List String)
      (before : List ArbitrageOpportunity)
      → Analysis limits books symbols before
          (analyze_opportunities limits books symbols before).0
          (analyze_opportunities limits books symbols before).1
  unfolding analyze_opportunities
  analyze_opportunities-Analysis limits books symbols before =
      remember-Analysis limits books symbols before _
        (symbols-Holds limits books symbols symbols λ s m. m)
