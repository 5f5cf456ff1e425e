-- ===== src/Persistence/Store/Rows.antt =====
-- What the writes of src/persistence/store.py do to what its reads return.
use omni_trade.Prelude.{
  ℕ, ◌≡◌, refl, sym, ap, subst, ◌⊎◌, inl, inr, String, true, false, ◌==◌, eq_refl, eq_iff, Option,
  none, some, is_some, List, [], ◌∷◌, ◌++◌, Bool-cases, if-true, if-false,
}
use omni_trade.Exec.{returned, raised, pure, raise, gets, value_error, ◌>>=◌}
use omni_trade.Float.{Float}
use omni_trade.Coordinator.StateMachine.{IntentStatus}
use omni_trade.Coordinator.Intent.{Intent}
use omni_trade.World.{status, IntentRow, Db, Env, World}
use omni_trade.Persistence.Store.{
  connection, set_db, append_event, find_intent, create_intent, get_intent, set_status,
  update_intent_status,
}

module _ ⦃fl : Float⦄ ⦃env : Env⦄ where
  -- The state with an open database.
  abbrev pub opened : Db → World → World
  opened d w = record w { db = some d }

  find_intent-snoc :
      (id : String) (r : IntentRow) (rs : List IntentRow)
      → find_intent id rs ≡ none
      → r.intent_id ≡ id
      → find_intent id (rs ++ r ∷ []) ≡ some r
  unfolding find_intent
  find_intent-snoc id r [] h e = rw e (rw (eq_refl id) refl)
  find_intent-snoc id r (x ∷ rs) h e = elim (Bool-cases (x.intent_id == id)) [
    | inl same ↦ absurd (cc (if-true _ (some x) _ none same h))
    | inr other ↦ rw other (find_intent-snoc id r rs (if-false _ (some x) _ none other h) e)
  ]

  is_none : (o : Option IntentRow) → is_some o ≡ false → o ≡ none
  is_none none h = refl
  is_none (some r) h = absurd (cc h)

  -- A new intent whose id is free is stored, and the next read has its status and both time stamps.
  -- An intent whose id is taken is refused with ValueError and nothing is written.
  pub create-get_intent :
      (i : Intent) (s : IntentStatus) (d : Db) (w : World)
      → (is_some (find_intent i.intent_id d.intents) ≡ true)
          × (create_intent i s (opened d w) ≡ (raised value_error, opened d w))
        ⊎ ((is_some (find_intent i.intent_id d.intents) ≡ false)
            × ((create_intent i s (opened d w)).0 ≡ returned tt)
            × ((get_intent i.intent_id (create_intent i s (opened d w)).1).0
                ≡ returned (
                    some (record {
                      intent_id = i.intent_id;
                      status = s;
                      raw_intent_json = env.dumps i;
                      created_at = env.now w.journal;
                      updated_at = env.now w.journal;
                    }))))
  unfolding create_intent get_intent connection gets pure raise ◌>>=◌ set_db append_event
  create-get_intent i s d w = elim (Bool-cases (is_some (find_intent i.intent_id d.intents))) [
    | inl taken ↦ inl (taken, rw taken refl)
    | inr free ↦ inr (
      free,
      rw free refl,
      rw free (ap returned (find_intent-snoc i.intent_id _ d.intents (is_none _ free) refl)),
    )
  ]

  pub find-set_status :
      (id : String) (s : IntentStatus) (now : ℕ) (rs : List IntentRow) (r : IntentRow)
      → find_intent id rs ≡ some r
      → find_intent id (set_status id s now rs) ≡ some (record r { status = s; updated_at = now })
  unfolding find_intent set_status
  find-set_status id s now [] r h = absurd (cc h)
  find-set_status id s now (x ∷ rs) r h = elim (Bool-cases (x.intent_id == id)) [
    | inl same ↦
        let x_is_r : x ≡ r = cc (if-true _ (some x) _ (some r) same h) in
        rw (same, same)
          (ap {A = IntentRow} (λ y. some (record y { status = s; updated_at = now })) x_is_r)
    | inr other ↦
        rw (other, other) (find-set_status id s now rs r (if-false _ (some x) _ (some r) other h))
  ]

  -- Another intent's row is not touched.
  find-set_status_other :
      (id other : String) (s : IntentStatus) (now : ℕ) (rs : List IntentRow)
      → (id == other) ≡ false
      → find_intent other (set_status id s now rs) ≡ find_intent other rs
  unfolding find_intent set_status
  find-set_status_other id other s now [] h = refl
  find-set_status_other id other s now (x ∷ rs) h = elim (Bool-cases (x.intent_id == id)) [
    | inl same ↦
        let differs : (x.intent_id == other) ≡ false =
          subst (λ y. (y == other) ≡ false) (sym ((eq_iff _ _).0 same)) h in
        rw (same, differs) (find-set_status_other id other s now rs h)
    | inr not_it ↦ rw (not_it, find-set_status_other id other s now rs h) refl
  ]

  -- A status write is seen by the next read of the intent, with the time of the write.
  pub update-get_intent :
      (id : String) (s : IntentStatus) (d : Db) (w : World) (r : IntentRow)
      → find_intent id d.intents ≡ some r
      → (get_intent id (update_intent_status id s (opened d w)).1).0
        ≡ returned (some (record r { status = s; updated_at = env.now w.journal }))
  unfolding update_intent_status get_intent connection gets pure ◌>>=◌ set_db append_event
  update-get_intent id s d w r h = ap returned (find-set_status id s _ d.intents r h)

  -- A status write is seen by no read of another intent.
  pub update-get_other :
      (id other : String) (s : IntentStatus) (d : Db) (w : World)
      → (id == other) ≡ false
      → (get_intent other (update_intent_status id s (opened d w)).1).0
        ≡ (get_intent other (opened d w)).0
  unfolding update_intent_status get_intent connection gets pure ◌>>=◌ set_db append_event
  update-get_other id other s d w differs =
      ap returned (find-set_status_other id other s _ d.intents differs)
