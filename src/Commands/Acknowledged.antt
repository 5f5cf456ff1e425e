-- ===== src/Commands/Acknowledged.antt =====
-- What `ack` resolves, and what still blocks the coordinator after it.
use omni_trade.Prelude.{
  ℕ, ◌≡◌, refl, ap, ◌⊎◌, inl, inr, String, Bool, true, false, not, ◌||◌, ◌==◌, Option, none, some,
  List, [], ◌∷◌, any, select, Bool-cases,
}
use omni_trade.Exec.{returned, pure, gets, catch, ◌>>=◌}
use omni_trade.Float.{Float}
use omni_trade.Coordinator.StateMachine.{resolved_manual}
use omni_trade.World.{IntentRow, Db, Env, World}
use omni_trade.Persistence.Store.{
  connection, set_db, append_event, find_intent, get_intent, set_status, update_intent_status,
  is_blocking, is_blocked_by_needs_manual,
}
use omni_trade.Persistence.Store.Rows.{opened, find-set_status}
use omni_trade.Commands.{resolve_manually, run_ack, ack}

module _ ⦃fl : Float⦄ ⦃env : Env⦄ where
  -- The row is there, and its recovery failed.
  abbrev pub has_failed : Option IntentRow → Bool
  has_failed none = false
  has_failed (some r) = is_blocking r.status

  abbrev pub others : String → List IntentRow → List IntentRow
  others id = select (λ r. not (r.intent_id == id))

  blocking-set_status :
      (id : String) (now : ℕ) (rs : List IntentRow)
      → any (λ r. is_blocking r.status) (set_status id resolved_manual now rs)
        ≡ any (λ r. is_blocking r.status) (others id rs)
  unfolding set_status
  blocking-set_status id now [] = refl
  blocking-set_status id now (r ∷ rs) = elim (Bool-cases (r.intent_id == id)) [
    | inl same ↦ rw same (blocking-set_status id now rs)
    | inr other ↦ rw other (ap (λ b. is_blocking r.status || b) (blocking-set_status id now rs))
  ]

  -- The exit code is 1 and nothing has changed; or the code is 0 and the next read finds the intent
  -- RESOLVED_MANUAL.
  abbrev pub Answered : String → Db → World → Type 0
  Answered id d w =
      ((has_failed (find_intent id d.intents) ≡ false)
        × (ack id (opened d w) ≡ (returned 1, opened d w)))
      ⊎ ((r : IntentRow) × (find_intent id d.intents ≡ some r)
          × (is_blocking r.status ≡ true)
          × ((ack id (opened d w)).0 ≡ returned 0)
          × ((get_intent id (ack id (opened d w)).1).0
              ≡ returned
                  (some (record r { status = resolved_manual; updated_at = env.now w.journal }))))

  answered :
      (id : String) (d : Db) (w : World) (found : Option IntentRow)
      → find_intent id d.intents ≡ found
      → Answered id d w
  unfolding ack run_ack resolve_manually get_intent update_intent_status connection gets pure catch
      ◌>>=◌ set_db append_event
  answered id d w none h = inl (rw h (refl, refl))
  answered id d w (some r) h = elim (Bool-cases (is_blocking r.status)) [
    | inr fine ↦ inl (rw (h, fine) (refl, refl))
    | inl failed ↦ inr (
      r,
      h,
      failed,
      rw (h, failed) refl,
      rw (h, failed) (ap returned (find-set_status id _ _ d.intents r h)),
    )
  ]

  -- An acknowledgement of an intent that is not stored, or whose recovery did not fail, exits with 1
  -- and changes nothing. Any other one exits with 0, and the next read of the intent finds it
  -- RESOLVED_MANUAL, with the time of the write.
  pub ack-answers : (id : String) (d : Db) (w : World) → Answered id d w
  ack-answers id d w = answered id d w _ refl

  -- After the acknowledgement of an intent whose recovery failed, the coordinator is blocked exactly
  -- if the recovery of an intent with another id failed.
  pub ack-unblocks :
      (id : String) (d : Db) (w : World)
      → has_failed (find_intent id d.intents) ≡ true
      → (is_blocked_by_needs_manual (ack id (opened d w)).1).0
        ≡ returned (any (λ r. is_blocking r.status) (others id d.intents))
  unfolding ack run_ack resolve_manually get_intent update_intent_status connection gets pure catch
      ◌>>=◌ set_db append_event is_blocked_by_needs_manual
  ack-unblocks id d w h = elim (ack-answers id d w) [
    | inl (fine, _) ↦ absurd (cc (h, fine))
    | inr (r, found, failed, _, _) ↦
        rw (found, failed) (ap returned (blocking-set_status id _ d.intents))
  ]
