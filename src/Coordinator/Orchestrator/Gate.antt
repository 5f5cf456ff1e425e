-- ===== src/Coordinator/Orchestrator/Gate.antt =====
-- An unresolved failure blocks every further submission.
use omni_trade.Prelude.{
  ◌≡◌, refl, ap, String, Bool, true, ◌==◌, some, List, [], ◌∷◌, any, arith, Bool-cases, if-true,
  if-false, inl, inr,
}
use omni_trade.Exec.{returned, pure, ◌>>=◌}
use omni_trade.Float.{Float}
use omni_trade.Coordinator.StateMachine.{rolled_back_failed}
use omni_trade.Coordinator.Intent.{Intent}
use omni_trade.Coordinator.Orchestrator.{Orchestrator, blocked, submit}
use omni_trade.World.{IntentRow, Db, Env, World}
use omni_trade.Persistence.Store.{connection, find_intent, is_blocking, is_blocked_by_needs_manual}
use omni_trade.Persistence.Store.Rows.{opened}

module _ ⦃fl : Float⦄ ⦃env : Env⦄ where
  found-blocks :
      (id : String) (rs : List IntentRow) (r : IntentRow)
      → find_intent id rs ≡ some r
      → r.status ≡ rolled_back_failed
      → any (λ x. is_blocking x.status) rs ≡ true
  unfolding find_intent
  found-blocks id [] r h s = absurd (cc h)
  found-blocks id (x ∷ rs) r h s = elim (Bool-cases (x.intent_id == id)) [
    | inl same ↦
        let x_is_r : x ≡ r = cc (if-true _ (some x) _ (some r) same h) in
        rw (ap {A = IntentRow} (λ y. y.status) x_is_r, s) refl
    | inr other ↦
        let later = found-blocks id rs r (if-false _ (some x) _ (some r) other h) s in
        ground (arith, later)
  ]

  -- While the database holds an intent whose recovery failed, a submission is reported as blocked
  -- and changes nothing: no row, no audit event, no request to a venue.
  pub submit-blocked :
      (o : Orchestrator) (i : Intent) (dry : Bool) (d : Db) (w : World) (id : String)
      (r : IntentRow)
      → find_intent id d.intents ≡ some r
      → r.status ≡ rolled_back_failed
      → submit o i dry (opened d w) ≡ (returned blocked, opened d w)
  unfolding submit is_blocked_by_needs_manual connection pure ◌>>=◌
  submit-blocked o i dry d w id r h s = rw (found-blocks id d.intents r h s) refl
