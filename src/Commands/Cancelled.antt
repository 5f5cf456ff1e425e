-- ===== src/Commands/Cancelled.antt =====
-- What `cancel` does to an intent, and what the transition table says of it.
use omni_trade.Prelude.{◌≡◌, refl, ap, ◌⊎◌, inl, inr, String, true, false, some, Bool-cases}
use omni_trade.Exec.{returned, pure, gets, catch, ◌>>=◌}
use omni_trade.Float.{Float}
use omni_trade.Coordinator.StateMachine.{
  IntentStatus, pending, validated, executing, all_filled, partial_filled, execute_timeout,
  rolling_back, rolled_back, rolled_back_failed, resolved_manual, rejected, name, is_terminal,
  is_valid_transition,
}
use omni_trade.Coordinator.Orchestrator.Orders.{actions, actions-log}
use omni_trade.World.{IntentRow, Db, Env, World}
use omni_trade.Persistence.Store.{
  connection, set_db, append_event, find_intent, get_intent, get_legs_for_intent,
  update_intent_status,
}
use omni_trade.Persistence.Store.Rows.{opened, find-set_status}
use omni_trade.Commands.{is_unsent, reject_unsent, reject_sent, run_cancel, cancel}

module _ ⦃fl : Float⦄ where
  -- The table allows the step to REJECTED from the two states before the orders, and from no other.
  reject-is_unsent :
      (s : IntentStatus) → is_valid_transition (name s) (name rejected) ≡ returned (is_unsent s)
  unfolding is_valid_transition
  reject-is_unsent pending = refl
  reject-is_unsent validated = refl
  reject-is_unsent executing = refl
  reject-is_unsent all_filled = refl
  reject-is_unsent partial_filled = refl
  reject-is_unsent execute_timeout = refl
  reject-is_unsent rolling_back = refl
  reject-is_unsent rolled_back = refl
  reject-is_unsent rolled_back_failed = refl
  reject-is_unsent resolved_manual = refl
  reject-is_unsent rejected = refl

module _ ⦃fl : Float⦄ ⦃env : Env⦄ where
  -- Cancelling a stored intent exits with 0. If the intent is in a terminal state, nothing changes.
  -- Otherwise the next read finds it REJECTED, the orders at the venues and their leverages are left
  -- alone, and the transition table allows the step exactly if the intent was PENDING or VALIDATED.
  pub cancel-rejects :
      (id : String) (d : Db) (w : World) (r : IntentRow)
      → find_intent id d.intents ≡ some r
      → ((is_terminal r.status ≡ true) × (cancel id (opened d w) ≡ (returned 0, opened d w)))
        ⊎ ((is_terminal r.status ≡ false)
            × ((cancel id (opened d w)).0 ≡ returned 0)
            × ((get_intent id (cancel id (opened d w)).1).0
                ≡ returned (some (record r { status = rejected; updated_at = env.now w.journal })))
            × (actions (cancel id (opened d w)).1.journal ≡ actions w.journal)
            × (is_valid_transition (name r.status) (name rejected) ≡ returned (is_unsent r.status)))
  unfolding cancel run_cancel reject_unsent reject_sent get_intent get_legs_for_intent
      update_intent_status connection gets pure catch ◌>>=◌ set_db append_event
  cancel-rejects id d w r h = elim (Bool-cases (is_terminal r.status)) [
    | inl done ↦ inl (done, rw (h, done) refl)
    | inr live ↦ elim (Bool-cases (is_unsent r.status)) [
      | inl unsent ↦ inr (
        live,
        rw (h, live, unsent) refl,
        rw (h, live, unsent) (ap returned (find-set_status id _ _ d.intents r h)),
        rw (h, live, unsent) (actions-log _ w refl),
        reject-is_unsent r.status,
      )
      | inr sent ↦ inr (
        live,
        rw (h, live, sent) refl,
        rw (h, live, sent) (ap returned (find-set_status id _ _ d.intents r h)),
        rw (h, live, sent) (actions-log _ w refl),
        reject-is_unsent r.status,
      )
    ]
  ]
