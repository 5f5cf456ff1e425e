-- ===== src/Funding/Positions.antt =====
-- src/strategy/funding_arb/position_manager.py over the hedged positions of
-- src/persistence/store.py.
pub mod Lifecycle
pub mod Counts
use omni_trade.Prelude.{
  ℕ, ltb, String, Bool, true, false, not, ◌==◌, Option, none, some, List, [], ◌∷◌, ◌++◌, map, any,
  select, sort, if◌then◌else◌,
}
use omni_trade.Exec.{Exec, returned, pure, raise, gets, integrity_error, ◌>>=◌, ◌>>◌}
use omni_trade.Float.{Float, F}
use omni_trade.Market.Pairs.{CrossVenuePair}
use omni_trade.World.{HedgedRow, Tables, Env, World}
use omni_trade.Persistence.Store.{guard}
use omni_trade.Persistence.Tables.{set_tables, read_tables, if_open}

module _ ⦃fl : Float⦄ where
  -- The arguments of `create_hedged_position`, and the columns that get their defaults.
  abbrev pub new_row :
      ℕ → String → CrossVenuePair → F → String → String → String → Option F → Option F → HedgedRow
  new_row now position_id pair notional_usd intent_open leg_long_id leg_short_id rate_a rate_b =
      record {
        position_id = position_id;
        base = pair.base;
        venue_long = pair.venue_a;
        venue_short = pair.venue_b;
        notional_usd = notional_usd;
        intent_open = intent_open;
        leg_long_id = leg_long_id;
        leg_short_id = leg_short_id;
        rate_at_open_a = rate_a;
        rate_at_open_b = rate_b;
        opened_at = now;
        intent_close = none;
        closed_at = none;
        is_open = true;
      }

  -- `UPDATE hedged_positions SET … WHERE position_id = ?`
  unfoldable pub close_row : String → String → ℕ → List HedgedRow → List HedgedRow
  close_row position_id intent_close now [] = []
  close_row position_id intent_close now (r ∷ rs) =
      (if r.position_id == position_id
        then record r { is_open = false; intent_close = some intent_close; closed_at = some now }
        else r)
      ∷ close_row position_id intent_close now rs

  -- Of the pair, its base and its venues: the instruments that are rebuilt with it are placeholders
  -- that nothing reads.
  pub record HedgedPosition : Type 0 where
    pub position_id : String
    pub base : String
    pub venue_a : String
    pub venue_b : String
    pub intent_open : String
    pub leg_long_id : String
    pub leg_short_id : String
    pub notional_per_leg : F
    pub rate_at_open_a : Option F
    pub rate_at_open_b : Option F

  abbrev pub position_of : HedgedRow → HedgedPosition
  position_of r = record {
    position_id = r.position_id;
    base = r.base;
    venue_a = r.venue_long;
    venue_b = r.venue_short;
    intent_open = r.intent_open;
    leg_long_id = r.leg_long_id;
    leg_short_id = r.leg_short_id;
    notional_per_leg = r.notional_usd;
    rate_at_open_a = r.rate_at_open_a;
    rate_at_open_b = r.rate_at_open_b;
  }

  -- `WHERE status = 'OPEN' ORDER BY opened_at DESC`
  unfoldable pub open_rows : List HedgedRow → List HedgedRow
  open_rows rows = sort (λ r s. ltb s.opened_at r.opened_at) (select (λ r. r.is_open) rows)

  unfoldable pub get_open_hedged_positions : Exec World (List HedgedRow)
  unfolding open_rows
  get_open_hedged_positions = if_open [] do t ← read_tables; pure (open_rows t.hedged_positions)

  unfoldable pub get_open_positions : Exec World (List HedgedPosition)
  unfolding get_open_hedged_positions
  get_open_positions = do rows ← get_open_hedged_positions; pure (map position_of rows)

module _ ⦃fl : Float⦄ ⦃env : Env⦄ where
  -- `position_id` is unique in the table.
  unfoldable pub create_hedged_position : HedgedRow → Exec World (Unit {0})
  create_hedged_position row = if_open tt do
    t ← read_tables
    guard (any (λ r. r.position_id == row.position_id) t.hedged_positions) (raise integrity_error)
    set_tables (record t { hedged_positions = t.hedged_positions ++ row ∷ [] })

  unfoldable pub record_open :
      CrossVenuePair → F → String → String → String → Option F → Option F → Exec World String
  unfolding create_hedged_position
  record_open pair notional intent_id leg_long_id leg_short_id rate_a rate_b = do
    id ← gets (λ w. env.new_position_id w.journal)
    now ← gets (λ w. env.datetime_now w.journal)
    create_hedged_position
        (new_row now id pair notional intent_id leg_long_id leg_short_id rate_a rate_b)
    pure id

  unfoldable pub close_hedged_position : String → String → Exec World (Unit {0})
  unfolding close_row
  close_hedged_position position_id intent_close = if_open tt do
    now ← gets (λ w. env.datetime_now w.journal)
    t ← read_tables
    set_tables
        (record t { hedged_positions = close_row position_id intent_close now t.hedged_positions })

  unfoldable pub record_close : String → String → Exec World (Unit {0})
  unfolding close_hedged_position
  record_close position_id intent_close_id = close_hedged_position position_id intent_close_id
