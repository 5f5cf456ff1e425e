-- ===== src/Persistence/Listing.antt =====
-- src/persistence/store.py: the list of recent intents.
pub mod Newest
use omni_trade.Prelude.{
  ℕ, limited, ltb, String, Bool, true, Option, none, some, List, ◌==◌, select, sort,
}
use omni_trade.Exec.{Exec, pure, ◌>>=◌}
use omni_trade.Float.{Float}
use omni_trade.Coordinator.StateMachine.{name}
use omni_trade.World.{Env, IntentRow, World}
use omni_trade.Persistence.Store.{connection}

module _ ⦃fl : Float⦄ where
  -- `WHERE status = ?`, or all rows.
  abbrev pub wants_status : Option String → IntentRow → Bool
  wants_status none r = true
  wants_status (some s) r = name r.status == s

  -- `ORDER BY created_at DESC`, with the order of insertion between equal times.
  abbrev pub newer : IntentRow → IntentRow → Bool
  newer r s = ltb s.created_at r.created_at

  unfoldable pub recent : Option String → ℕ → List IntentRow → List IntentRow
  recent status limit rows = limited limit (sort newer (select (wants_status status) rows))

module _ ⦃fl : Float⦄ ⦃env : Env⦄ where
  unfoldable pub list_intents : Option String → ℕ → Exec World (List IntentRow)
  unfolding connection recent
  list_intents status limit = do d ← connection; pure (recent status limit d.intents)
