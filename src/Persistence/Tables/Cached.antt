-- ===== src/Persistence/Tables/Cached.antt =====
-- What the cache of instruments in src/persistence/store.py gives back.
use omni_trade.Prelude.{
  ℕ, ◌≡◌, refl, ap, Bool, true, not, none, List, [], ◌∷◌, ◌++◌, map, all, keep_mem, inl, inr,
  sort-mem, arith,
}
use mathlib.Core.List.{Memᴰ}
use mathlib.Core.List.Memᴰ
use omni_trade.Exec.{Outcome, returned, raised, pure, gets, ◌>>=◌}
use omni_trade.Float.{Float}
use omni_trade.Market.Instrument.{Instrument, instrument_key}
use omni_trade.Market.Registry.{same_key}
use omni_trade.World.{InstrumentRow, Db, Env, World}
use omni_trade.Persistence.Store.{connection}
use omni_trade.Persistence.Store.Rows.{opened}
use omni_trade.Persistence.Tables.{
  new_instrument_row, replace_instruments, save_instruments, instrument_less, rebuilt,
  load_instruments,
}

module _ ⦃fl : Float⦄ where
  -- What the table keeps of an instrument: not the kinds of its assets and not its leverage limit.
  abbrev pub stripped : Instrument → Instrument
  stripped i = record i {
    base = record { symbol = i.base.symbol; kind = "crypto" };
    quote = record { symbol = i.quote.symbol; kind = "crypto" };
    max_leverage = none;
  }

  abbrev pub differs_from : Instrument → Instrument → Bool
  differs_from i j = not (same_key (instrument_key i) (instrument_key j))

  abbrev pub Includes : Instrument → Outcome (List Instrument) → Type 0
  Includes i (returned is) = Memᴰ i is
  Includes i (raised e) = ⊥

  later_replace :
      (now : ℕ) (i : Instrument) (ys : List Instrument) (rows : List InstrumentRow)
      → all (differs_from i) ys ≡ true
      → Memᴰ (new_instrument_row now i) rows
      → Memᴰ (new_instrument_row now i) (replace_instruments now ys rows)
  unfolding replace_instruments instrument_key
  later_replace now i [] rows h m = m
  later_replace now i (y ∷ ys) rows h m =
      later_replace now i ys _ (ground (arith, h))
        (Memᴰ.append_left _ (keep_mem _ _ rows (ground (arith, h)) m))

  replaced :
      (now : ℕ) (i : Instrument) (xs ys : List Instrument) (rows : List InstrumentRow)
      → all (differs_from i) ys ≡ true
      → Memᴰ (new_instrument_row now i) (replace_instruments now (xs ++ i ∷ ys) rows)
  unfolding replace_instruments
  replaced now i [] ys rows h = later_replace now i ys _ h (Memᴰ.append_right _ (Memᴰ.head refl))
  replaced now i (x ∷ xs) ys rows h = replaced now i xs ys _ h

  mem-map :
      (r : InstrumentRow) (rows : List InstrumentRow)
      → Memᴰ r rows
      → Memᴰ (rebuilt r) (map rebuilt rows)
  mem-map r [] m = absurd (Memᴰ.not-nil m)
  mem-map r (x ∷ rows) m = elim (Memᴰ.cases_cons m) [
    | inl same ↦ Memᴰ.head (ap rebuilt same)
    | inr rest ↦ Memᴰ.tail (mem-map r rows rest)
  ]

module _ ⦃fl : Float⦄ ⦃env : Env⦄ where
  -- An instrument that is saved, with no other of its key behind it, is among those that the next
  -- load returns, without the kinds of its assets and without its leverage limit.
  pub save-load_instruments :
      (xs ys : List Instrument) (i : Instrument) (d : Db) (w : World)
      → all (differs_from i) ys ≡ true
      → Includes (stripped i) (load_instruments (save_instruments (xs ++ i ∷ ys) (opened d w)).1).0
  unfolding save_instruments load_instruments connection gets pure ◌>>=◌
  save-load_instruments xs ys i d w h =
      mem-map (new_instrument_row (env.now w.journal) i) _
        (sort-mem instrument_less _ _ (replaced (env.now w.journal) i xs ys w.tables.instruments h))
