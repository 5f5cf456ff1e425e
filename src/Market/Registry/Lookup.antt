-- ===== src/Market/Registry/Lookup.antt =====
-- The search of src/market/registry.py for the instrument of a leg.
use omni_trade.Prelude.{
  String, Bool, true, false, not, ◌&&◌, ◌==◌, ◌≡◌, refl, inl, inr, Option, none, some, List, [],
  ◌∷◌, select, all, any, arith, Bool-cases,
}
use omni_trade.Float.{Float}
use omni_trade.Market.Instrument.{Instrument}
use omni_trade.Market.Registry.{Registry, list_instruments, first_quoted, or_next, pick, find_one}

module _ ⦃fl : Float⦄ where
  abbrev pub matches : String → String → String → Instrument → Bool
  matches base venue market_type i =
      i.base.symbol == base && i.market_type == market_type && i.venue == venue

  abbrev pub quoted : String → Instrument → Bool
  quoted q i = i.quote.symbol == q

  -- `i` is the first of `xs` with the test `p`.
  pub data First (p : Instrument → Bool) : Instrument → List Instrument → Type 0 where
    here : {i : Instrument} {xs : List Instrument} → p i ≡ true → First p i (i ∷ xs)
    there :
        {i x : Instrument} {xs : List Instrument} → p x ≡ false → First p i xs → First p i (x ∷ xs)

  -- The quote of the answer, with all preferred quotes before it.
  pub data Preferred (p : Instrument → Bool) (xs : List Instrument)
      : Instrument → List String → Type 0 where
    now :
        {i : Instrument} {q : String} {qs : List String}
        → First (λ x. p x && quoted q x) i xs
        → Preferred p xs i (q ∷ qs)
    later :
        {i : Instrument} {q : String} {qs : List String}
        → any (λ x. p x && quoted q x) xs ≡ false
        → Preferred p xs i qs
        → Preferred p xs i (q ∷ qs)

  -- What the search says: the preferred instrument, or none for any quote.
  abbrev pub Found :
      (Instrument → Bool) → List Instrument → List String → Option Instrument → Type 0
  Found p xs qs none = all (λ q. not (any (λ x. p x && quoted q x) xs)) qs ≡ true
  Found p xs qs (some i) = Preferred p xs i qs

  abbrev Scan : (Instrument → Bool) → List Instrument → Option Instrument → Type 0
  Scan p xs none = any p xs ≡ false
  Scan p xs (some i) = First p i xs

  skip :
      (p : Instrument → Bool) (q : String) (x : Instrument) (xs : List Instrument)
      (o : Option Instrument)
      → (p x && quoted q x) ≡ false
      → Scan (λ x. p x && quoted q x) xs o
      → Scan (λ x. p x && quoted q x) (x ∷ xs) o
  skip p q x xs none e h = ground (arith, e, h)
  skip p q x xs (some i) e h = there e h

  choose :
      (p : Instrument → Bool) (xs : List Instrument) (q : String) (qs : List String)
      (first rest : Option Instrument)
      → Scan (λ x. p x && quoted q x) xs first
      → Found p xs qs rest
      → Found p xs (q ∷ qs) (or_next first rest)
  choose p xs q qs (some i) rest h k = now h
  choose p xs q qs none (some i) h k = later h k
  choose p xs q qs none none h k = ground (arith, h, k)

  Scan-first :
      (p : Instrument → Bool) (q : String) (xs : List Instrument)
      → Scan (λ x. p x && quoted q x) xs (first_quoted q (select p xs))
  unfolding first_quoted
  Scan-first p q [] = refl
  Scan-first p q (x ∷ xs) = elim (Bool-cases (p x)) [
    | inl is_match ↦ elim (Bool-cases (quoted q x)) [
      | inl same ↦ rw (is_match, same) (here (ground (arith, is_match, same)))
      | inr other ↦
          rw (is_match, other) (skip p q x xs _ (ground (arith, other)) (Scan-first p q xs))
    ]
    | inr no_match ↦ rw no_match (skip p q x xs _ (ground (arith, no_match)) (Scan-first p q xs))
  ]

  Found-pick :
      (p : Instrument → Bool) (xs : List Instrument) (qs : List String)
      → Found p xs qs (pick qs (select p xs))
  unfolding pick
  Found-pick p xs [] = refl
  Found-pick p xs (q ∷ qs) = choose p xs q qs _ _ (Scan-first p q xs) (Found-pick p xs qs)

  -- `find_one` returns the first instrument of the venue, base and market type with the first quote
  -- of the preference list that any of them has, and none only if none of them has such a quote.
  pub find_one-Found :
      (r : Registry) (base venue market_type : String) (qs : List String)
      → Found
          (matches base venue market_type)
          r.instruments
          qs
          (find_one r base venue market_type qs)
  unfolding find_one list_instruments
  find_one-Found r base venue market_type qs =
      Found-pick (matches base venue market_type) r.instruments qs
