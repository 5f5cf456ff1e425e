-- ===== src/Funding/Positions/Lifecycle.antt =====
-- A hedged position from its opening to its end.
use omni_trade.Prelude.{
  ℕ, ◌≡◌, refl, ap, subst, String, true, false, ◌==◌, Option, List, [], ◌∷◌, map, any, select,
  sort-mem, sort-All, keep_mem, All, All-of, ◌⊎◌, Bool-cases, inl, inr,
}
use mathlib.Core.List.{Memᴰ}
use mathlib.Core.List.Memᴰ
use omni_trade.Exec.{Outcome, returned, raised, pure, gets, ◌>>=◌}
use omni_trade.Float.{Float, F}
use omni_trade.Market.Pairs.{CrossVenuePair}
use omni_trade.World.{HedgedRow, Db, Env, World}
use omni_trade.Persistence.Store.Rows.{opened}
use omni_trade.Funding.Positions.{
  new_row, close_row, HedgedPosition, position_of, open_rows, get_open_hedged_positions,
  get_open_positions, create_hedged_position, record_open, close_hedged_position, record_close,
}

module _ ⦃fl : Float⦄ where
  abbrev pub Lists : (List HedgedPosition → Type 0) → Outcome (List HedgedPosition) → Type 0
  Lists P (returned ps) = P ps
  Lists P (raised e) = ⊥

  map-mem :
      (r : HedgedRow) (rows : List HedgedRow)
      → Memᴰ r rows
      → Memᴰ (position_of r) (map position_of rows)
  map-mem r [] m = absurd (Memᴰ.not-nil m)
  map-mem r (x ∷ rows) m = elim (Memᴰ.cases_cons m) [
    | inl same ↦ Memᴰ.head (ap position_of same)
    | inr rest ↦ Memᴰ.tail (map-mem r rows rest)
  ]

  open-mem :
      (r : HedgedRow) (rows : List HedgedRow)
      → r.is_open ≡ true
      → Memᴰ r rows
      → Memᴰ (position_of r) (map position_of (open_rows rows))
  unfolding open_rows
  open-mem r rows h m = map-mem r _ (sort-mem _ r _ (keep_mem _ r rows h m))

  -- The position is not the one with the id.
  abbrev pub IsOther : String → HedgedPosition → Type 0
  IsOther id p = (p.position_id == id) ≡ false

  select-IsOther :
      (id closer : String) (now : ℕ) (rows : List HedgedRow)
      → All
          (λ r. IsOther id (position_of r))
          (select (λ r. r.is_open) (close_row id closer now rows))
  unfolding close_row
  select-IsOther id closer now [] = tt
  select-IsOther id closer now (r ∷ rows) = elim (Bool-cases (r.position_id == id)) [
    | inl same ↦ rw same (select-IsOther id closer now rows)
    | inr other ↦ elim (Bool-cases r.is_open) [
      | inl up ↦ rw (other, up) (other, select-IsOther id closer now rows)
      | inr down ↦ rw (other, down) (select-IsOther id closer now rows)
    ]
  ]

  map-All :
      (id : String) (rows : List HedgedRow)
      → All (λ r. IsOther id (position_of r)) rows
      → All (IsOther id) (map position_of rows)
  map-All id [] h = tt
  map-All id (r ∷ rows) h = (h.0, map-All id rows h.1)

  close_row-mem :
      (id closer : String) (now : ℕ) (r : HedgedRow) (rows : List HedgedRow)
      → (r.position_id == id) ≡ false
      → Memᴰ r rows
      → Memᴰ r (close_row id closer now rows)
  unfolding close_row
  close_row-mem id closer now r [] h m = absurd (Memᴰ.not-nil m)
  close_row-mem id closer now r (x ∷ rows) h m = elim (Memᴰ.cases_cons m) [
    | inl same ↦
        let other : (x.position_id == id) ≡ false =
          subst (λ y. (y.position_id == id) ≡ false) same h in
        rw other (Memᴰ.head same)
    | inr rest ↦ Memᴰ.tail (close_row-mem id closer now r rows h rest)
  ]

  -- The row has the id, or is closed, or is one of the positions.
  abbrev pub Kept : String → HedgedRow → List HedgedPosition → Type 0
  Kept id r ps = ((r.position_id == id) ≡ true) ⊎ ((r.is_open ≡ false) ⊎ Memᴰ (position_of r) ps)

  Kept-mem :
      (id closer : String) (now : ℕ) (r : HedgedRow) (rows : List HedgedRow)
      → Memᴰ r rows
      → Kept id r (map position_of (open_rows (close_row id closer now rows)))
  Kept-mem id closer now r rows m = elim (Bool-cases (r.position_id == id)) [
    | inl same ↦ inl same
    | inr other ↦ elim (Bool-cases r.is_open) [
      | inr down ↦ inr (inl down)
      | inl up ↦ inr (
          inr (
            open-mem r (close_row id closer now rows) up
              (close_row-mem id closer now r rows other m)))
    ]
  ]

module _ ⦃fl : Float⦄ ⦃env : Env⦄ where
  -- A position that is recorded under an id that no row has is among the open positions that are
  -- read next, with the venues of its pair in their order, its notional, its intent, its legs and
  -- both rates.
  pub record_open-get :
      (pair : CrossVenuePair) (notional : F) (intent long short : String) (ra rb : Option F)
      (d : Db) (w : World)
      → any (λ r. r.position_id == env.new_position_id w.journal) w.tables.hedged_positions ≡ false
      → Lists
          (Memᴰ (record {
            position_id = env.new_position_id w.journal;
            base = pair.base;
            venue_a = pair.venue_a;
            venue_b = pair.venue_b;
            intent_open = intent;
            leg_long_id = long;
            leg_short_id = short;
            notional_per_leg = notional;
            rate_at_open_a = ra;
            rate_at_open_b = rb;
          }))
          (get_open_positions (record_open pair notional intent long short ra rb (opened d w)).1).0
  unfolding record_open create_hedged_position get_open_positions get_open_hedged_positions gets
      pure ◌>>=◌
  record_open-get pair notional intent long short ra rb d w h = rw h (
      open-mem
        (new_row (env.datetime_now w.journal) (env.new_position_id w.journal) pair notional intent
          long short ra rb)
        _ refl (Memᴰ.append_right w.tables.hedged_positions (Memᴰ.head refl)))

  -- After a position is closed, no open position has its id, and each row that was there before has
  -- that id, or was closed already, or is among the open positions.
  pub record_close-get :
      (id closer : String) (d : Db) (w : World)
      → Lists
          (λ ps. All (IsOther id) ps × All (λ r. Kept id r ps) w.tables.hedged_positions)
          (get_open_positions (record_close id closer (opened d w)).1).0
  unfolding record_close close_hedged_position get_open_positions get_open_hedged_positions
      open_rows gets pure ◌>>=◌
  record_close-get id closer d w =
      let rows = w.tables.hedged_positions in
      let now = env.datetime_now w.journal in
      (
        map-All id _ (sort-All _ _ _ (select-IsOther id closer now rows)),
        All-of _ rows λ r m. Kept-mem id closer now r rows m,
      )
