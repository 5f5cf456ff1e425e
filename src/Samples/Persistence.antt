-- ===== src/Samples/Persistence.antt =====
-- The theorems about the store at concrete inputs.
use omni_trade.Prelude.{◌≡◌, refl, ◌⊎◌, true, false, some, is_some}
use omni_trade.Exec.{returned, raised, value_error}
use omni_trade.Float.Fixed.{fixed}
use omni_trade.Coordinator.StateMachine.{pending, resolved_manual}
use omni_trade.Persistence.Store.{find_intent, create_intent, get_intent, update_intent_status}
use omni_trade.Persistence.Store.Rows.{
  opened, create-get_intent, update-get_intent, update-get_other,
}
use omni_trade.Samples.{env, intent, world, failed_db, failed_row}

create-get_intent_example :
    (is_some (find_intent "i1" failed_db.intents) ≡ true)
      × (create_intent intent pending (opened failed_db world)
          ≡ (raised value_error, opened failed_db world))
    ⊎ ((is_some (find_intent "i1" failed_db.intents) ≡ false)
        × ((create_intent intent pending (opened failed_db world)).0 ≡ returned tt)
        × ((get_intent "i1" (create_intent intent pending (opened failed_db world)).1).0
            ≡ returned (
                some (record {
                  intent_id = "i1";
                  status = pending;
                  raw_intent_json = "{}";
                  created_at = 0;
                  updated_at = 0;
                }))))
create-get_intent_example = create-get_intent intent pending failed_db world

update-get_intent_example :
    (get_intent "old" (update_intent_status "old" resolved_manual (opened failed_db world)).1).0
    ≡ returned (some (record failed_row { status = resolved_manual; updated_at = 0 }))
unfolding find_intent
update-get_intent_example = update-get_intent "old" resolved_manual failed_db world failed_row refl

update-get_other_example :
    (get_intent "i1" (update_intent_status "old" resolved_manual (opened failed_db world)).1).0
    ≡ (get_intent "i1" (opened failed_db world)).0
update-get_other_example = update-get_other "old" "i1" resolved_manual failed_db world refl
