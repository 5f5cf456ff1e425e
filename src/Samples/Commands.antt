-- ===== src/Samples/Commands.antt =====
-- The theorems about the operator's commands at concrete inputs.
use omni_trade.Prelude.{◌≡◌, refl, ◌⊎◌, true, false, none, some, List, [], ◌∷◌, any}
use omni_trade.Exec.{returned}
use omni_trade.Float.Fixed.{fixed}
use omni_trade.Coordinator.Orchestrator.Orders.{actions}
use omni_trade.Coordinator.StateMachine.{
  executing, rejected, name, is_terminal, is_valid_transition,
}
use omni_trade.World.{IntentRow, Db}
use omni_trade.Persistence.Store.{find_intent, get_intent, is_blocking, is_blocked_by_needs_manual}
use omni_trade.Persistence.Store.Rows.{opened}
use omni_trade.Persistence.Listing.{list_intents}
use omni_trade.Persistence.Listing.Newest.{Newest, of_status, list_intents-Newest}
use omni_trade.Commands.{cancel, ack, is_unsent}
use omni_trade.Commands.Acknowledged.{Answered, others, ack-answers, ack-unblocks}
use omni_trade.Commands.Cancelled.{cancel-rejects}
use omni_trade.Samples.{env, world, failed_db, failed_row}

abbrev running_row : IntentRow
running_row = record failed_row { intent_id = "new"; status = executing }

abbrev both : Db
both = record failed_db { intents = failed_row ∷ running_row ∷ [] }

ack-answers_example : Answered "old" both world
ack-answers_example = ack-answers "old" both world

ack-unblocks_example :
    (is_blocked_by_needs_manual (ack "old" (opened both world)).1).0
    ≡ returned (any (λ r. is_blocking r.status) (others "old" both.intents))
unfolding find_intent
ack-unblocks_example = ack-unblocks "old" both world refl

cancel-rejects_example :
    ((is_terminal executing ≡ true)
      × (cancel "new" (opened both world) ≡ (returned 0, opened both world)))
    ⊎ ((is_terminal executing ≡ false)
        × ((cancel "new" (opened both world)).0 ≡ returned 0)
        × ((get_intent "new" (cancel "new" (opened both world)).1).0
            ≡ returned (
                some
                  (record running_row { status = rejected; updated_at = env.now world.journal })))
        × (actions (cancel "new" (opened both world)).1.journal ≡ actions world.journal)
        × (is_valid_transition (name executing) (name rejected) ≡ returned (is_unsent executing)))
unfolding find_intent
cancel-rejects_example = cancel-rejects "new" both world running_row refl

list_intents-Newest_example :
    (rows : List IntentRow) × (list_intents none 1 (opened both world)
      ≡ (returned rows, opened both world))
    × Newest (of_status none both.intents) rows 1
list_intents-Newest_example = list_intents-Newest none 1 both world
