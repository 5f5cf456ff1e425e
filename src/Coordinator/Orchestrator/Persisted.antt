-- ===== src/Coordinator/Orchestrator/Persisted.antt =====
-- Persist before send: an order goes out only for a leg that the store already knows.
use omni_trade.Prelude.{
  ◌≡◌, refl, ◌∙◌, ◌⊎◌, inl, inr, String, Bool, true, false, ◌==◌, eq_refl, some, List, [], ◌∷◌,
  ◌++◌, any, any-append, arith, subst,
}
use omni_trade.Exec.{Error, Exec, raise}
use omni_trade.Exec.Preserves.{Preserves, Preserves-raise, Preserves-gets}
use omni_trade.Exec.Ensures.{
  Ensures, Ensures-bind, Ensures-pure, Ensures-weaken, Preserves-Ensures, Met,
}
use omni_trade.Float.{Float}
use omni_trade.Coordinator.StateMachine.{IntentStatus, executing}
use omni_trade.Coordinator.Intent.{Intent}
use omni_trade.Coordinator.Plan.{PlannedLeg, Plan}
use omni_trade.Coordinator.Leg.{LegExecution, ExecutionResult, row_of}
use omni_trade.Coordinator.Executor.{persist_legs, dispatch, settle, execute}
use omni_trade.Coordinator.Executor.Steps.{Permits, AllKnown, dispatch-AllInv, close_open-AllKnown}
use omni_trade.World.{
  Field, Payload, leg_created, intent_created, intent_status_updated, leg_updated, AuditEvent, Call,
  create_order, fetch_order, cancel_order, set_leverage, fetch_balance, fetch_free_margin, market,
  Entry, audit, call, History, LegRow, Db, Env, World, log,
}
use omni_trade.Persistence.Store.{
  connection, guard, append_event, create_leg, update_leg, update_intent_status,
}
use omni_trade.Persistence.Steps

module _ ⦃fl : Float⦄ where
  abbrev names_leg : String → Payload → Bool
  names_leg id (leg_created leg_id s) = leg_id == id
  names_leg id (intent_created s) = false
  names_leg id (intent_status_updated s) = false
  names_leg id (leg_updated leg_id fs) = false

  abbrev pub creates : String → Entry → Bool
  creates id (audit e) = names_leg id e.payload
  creates id (call c) = false

  -- The journal shows the creation of the leg's row.
  abbrev pub Created : String → History → Type 0
  Created id h = any (creates id) h ≡ true

  -- Every order of the journal is for a leg that was created earlier in it.
  pub data Backed : History → Type 0 where
    empty : Backed []
    after_audit : (h : History) (e : AuditEvent) → Backed h → Backed (h ++ audit e ∷ [])
    after_call :
        (h : History) (c : Call)
        → Backed h
        → Permits (λ id. Created id h) c
        → Backed (h ++ call c ∷ [])

  abbrev pub IsBacked : World → Type 0
  IsBacked w = Backed w.journal

  Created-later : (id : String) (h : History) (e : Entry) → Created id h → Created id (h ++ e ∷ [])
  Created-later id h e c = any-append (creates id) h (e ∷ []) ∙ rw c refl

  Created-now :
      (id : String) (h : History) (e : Entry) → creates id e ≡ true → Created id (h ++ e ∷ [])
  Created-now id h e c = any-append (creates id) h (e ∷ []) ∙ ground (arith, c)

  Permits-map :
      (K L : String → Type 0) (c : Call) → ((id : String) → K id → L id) → Permits K c → Permits L c
  Permits-map K L (create_order venue leg_id request) f k = f leg_id k
  Permits-map K L (fetch_order venue oid symbol params) f k = tt
  Permits-map K L (cancel_order venue oid symbol params) f k = tt
  Permits-map K L (set_leverage venue n symbol params) f k = tt
  Permits-map K L (fetch_balance venue params) f k = tt
  Permits-map K L (fetch_free_margin venue params) f k = tt
  Permits-map K L (market venue request) f k = tt

  AllKnown-map :
      (K L : String → Type 0) (legs : List LegExecution)
      → ((id : String) → K id → L id)
      → AllKnown K legs
      → AllKnown L legs
  AllKnown-map K L [] f k = tt
  AllKnown-map K L (x ∷ xs) f k = (f x.leg_id k.0, AllKnown-map K L xs f k.1)

  -- The journal is backed, and it shows the creation of the legs with `K`.
  pub record Keeps (K : String → Type 0) (w : World) : Type 0 where
    pub backed : Backed w.journal
    pub created : (id : String) → K id → Created id w.journal

  abbrev pub InJournal : World → String → Type 0
  InJournal w id = Created id w.journal

  pub Keeps-self : (w : World) → IsBacked w → Keeps (InJournal w) w
  Keeps-self w b = record { backed = b; created = λ id c. c }

module _ ⦃fl : Float⦄ ⦃env : Env⦄ (K : String → Type 0) where
  pub on_db : (d : Db) (w : World) → Keeps K w → Keeps K (record w { db = some d })
  on_db d w k = record { backed = k.backed; created = k.created }

  pub on_audit : (e : AuditEvent) (w : World) → Keeps K w → Keeps K (log (audit e) w)
  on_audit e w k = record {
    backed = after_audit w.journal e k.backed;
    created = λ id c. Created-later id w.journal (audit e) (k.created id c);
  }

  pub on_call : (c : Call) (w : World) → Permits K c → Keeps K w → Keeps K (log (call c) w)
  on_call c w p k = record {
    backed = after_call w.journal c k.backed (Permits-map K (InJournal w) c k.created p);
    created = λ id i. Created-later id w.journal (call c) (k.created id i);
  }

  pub on_update : (id : String) (fs : List Field) → Preserves (Keeps K) (update_leg id fs)
  on_update id fs = Steps.update_leg-Preserves (Keeps K) on_db on_audit id fs

  backs :
      {A : Type 0} (m : Exec World A)
      → Preserves (Keeps K) m
      → Ensures (Keeps K) m (λ _. Keeps K) IsBacked
  backs m h = Preserves-Ensures m h λ w k. k.backed

  pub write_status :
      (id : String) (s : IntentStatus)
      → Ensures (Keeps K) (update_intent_status id s) (λ _. Keeps K) IsBacked
  write_status id s = backs _ (Steps.update_intent_status-Preserves (Keeps K) on_db on_audit id s)

  -- One more known leg.
  abbrev With : String → String → Type 0
  With new id = K id ⊎ (new ≡ id)

  connected : Ensures (Keeps K) connection (λ _. Keeps K) IsBacked
  connected = backs _ (Steps.connection-Preserves (Keeps K) on_db on_audit)

  guarded : (b : Bool) (e : Error) → Ensures (Keeps K) (guard b (raise e)) (λ _. Keeps K) IsBacked
  guarded b e = backs _ (Steps.guard-Preserves (Keeps K) on_db on_audit b _ (Preserves-raise e))

  created_now :
      (new : String) (e : AuditEvent) (w : World)
      → creates new (audit e) ≡ true
      → Keeps K w
      → Keeps (With new) (log (audit e) w)
  created_now new e w c k = record {
    backed = after_audit w.journal e k.backed;
    created = λ id i. elim i [
      | inl old ↦ Created-later id w.journal (audit e) (k.created id old)
      | inr same ↦ subst (InJournal (log (audit e) w)) same (Created-now new w.journal (audit e) c)
    ];
  }

  create_leg-Keeps :
      (r : LegRow) → Ensures (Keeps K) (create_leg r) (λ _. Keeps (With r.leg_id)) IsBacked
  unfolding create_leg append_event
  create_leg-Keeps r = Ensures-bind _ _ connected λ d. Ensures-bind _ _ (guarded _ _) λ _.
      Ensures-bind _ _ (guarded _ _) λ _.
        Ensures-bind _ _ (backs _ (Steps.set_db-Preserves (Keeps K) on_db on_audit _)) λ _.
          Ensures-bind _ _ connected
            λ _. record { run = λ w k. created_now r.leg_id _ w (eq_refl r.leg_id) k }

module _ ⦃fl : Float⦄ ⦃env : Env⦄ where
  -- The rows of the legs come first.
  persist_legs-Keeps :
      (K : String → Type 0) (i : Intent) (ls : List PlannedLeg)
      → Ensures
          (Keeps K)
          (persist_legs i ls)
          (λ legs w. Keeps K w × AllKnown (InJournal w) legs)
          IsBacked
  unfolding persist_legs
  persist_legs-Keeps K i [] = Ensures-pure _ λ w k. (k, tt)
  persist_legs-Keeps K i (l ∷ ls) = Ensures-bind _ _ (backs K _ (Preserves-gets _)) λ id.
      Ensures-bind _ _ (create_leg-Keeps K (row_of i l id)) λ _.
        Ensures-bind _ _ (persist_legs-Keeps (With K id) i ls) λ rest. Ensures-pure _ λ w k. (
          record { backed = k.0.backed; created = λ s c. k.0.created s (inl c) },
          (k.0.created id (inr refl), k.1),
        )

  abbrev pub Ready : ExecutionResult → World → Type 0
  Ready r w = IsBacked w × AllKnown (InJournal w) r.legs

  settle-Ready :
      (K : String → Type 0) (id : String) (legs : List LegExecution)
      → AllKnown K legs
      → Ensures (Keeps K) (settle id legs) Ready IsBacked
  settle-Ready K id legs k =
      Ensures-bind _ _
        (Ensures-weaken (close_open-AllKnown (Keeps K) K (on_update K) (on_call K) _ legs k)
          λ w h. h.backed)
        λ closed. record {
          run = λ w h.
              (Ensures-bind _ _ (write_status K id _) λ _.
                  Ensures-pure _
                    λ w' g. (g.backed, AllKnown-map K (InJournal w') closed g.created h.1)).run
                w h.0;
        }

  send_all-Ready :
      (p : Plan) (id : String) (legs : List LegExecution) (w : World)
      → IsBacked w
      → AllKnown (InJournal w) legs
      → let (legs', w') = dispatch p legs w in
        Met Ready IsBacked (settle id legs' w').0 (settle id legs' w').1
  send_all-Ready p id legs w b k =
      let K = InJournal w in
      let sent =
        dispatch-AllInv (Keeps K) K (on_update K) (on_call K) p legs w (Keeps-self w b) k in
      (settle-Ready K id (dispatch p legs w).0 sent.1).run (dispatch p legs w).1 sent.0

  -- The executor's legs are in the journal, and its orders are for them.
  pub execute-Ready : (p : Plan) → Ensures IsBacked (execute p) Ready IsBacked
  unfolding execute
  execute-Ready p = record {
    run = λ w b.
        (Ensures-bind _ _ (write_status (InJournal w) p.intent.intent_id executing) λ _.
            Ensures-bind _ _ (persist_legs-Keeps (InJournal w) p.intent p.legs) λ legs. record {
              run = λ w' k. send_all-Ready p p.intent.intent_id legs w' k.0.backed k.1;
            }).run
          w (Keeps-self w b);
  }
