-- ===== src/Persistence/Steps.antt =====
-- What holds after every change of the tables and every audit event holds after each method of
-- src/persistence/store.py.
use omni_trade.Prelude.{ℕ, Bool, true, false, String, Option, none, some, List}
use omni_trade.Exec.{Exec}
use omni_trade.Exec.Preserves.{
  Preserves, Preserves-pure, Preserves-raise, Preserves-gets, Preserves-if, Preserves-bind,
}
use omni_trade.Float.{Float}
use omni_trade.Coordinator.StateMachine.{IntentStatus}
use omni_trade.Coordinator.Intent.{Intent}
use omni_trade.World.{Field, Payload, AuditEvent, audit, LegRow, Db, Env, World, log}
use omni_trade.Persistence.Store.{
  connection, require_db, set_db, append_event, guard, create_intent, update_intent_status,
  create_leg, get_leg, write_leg, update_found, update_leg, is_blocked_by_needs_manual,
}

module _ ⦃fl : Float⦄ ⦃env : Env⦄ (P : World → Type 0)
    (on_db : (d : Db) (w : World) → P w → P (record w { db = some d }))
    (on_audit : (e : AuditEvent) (w : World) → P w → P (log (audit e) w)) where
  require_db-Preserves : (d : Option Db) → Preserves P (require_db d)
  require_db-Preserves none = Preserves-raise _
  require_db-Preserves (some d) = Preserves-pure d

  pub connection-Preserves : Preserves P connection
  unfolding connection
  connection-Preserves = record { run = λ w h. (require_db-Preserves w.db).run w h }

  pub set_db-Preserves : (d : Db) → Preserves P (set_db d)
  unfolding set_db
  set_db-Preserves d = record { run = λ w h. on_db d w h }

  append_event-Preserves : (id : String) (p : Payload) → Preserves P (append_event id p)
  unfolding append_event
  append_event-Preserves id p =
      Preserves-bind _ _ connection-Preserves λ _. record { run = λ w h. on_audit _ w h }

  pub guard-Preserves :
      (b : Bool) (m : Exec World (Unit {0})) → Preserves P m → Preserves P (guard b m)
  guard-Preserves true m h = h
  guard-Preserves false m h = Preserves-pure tt

  pub create_intent-Preserves : (i : Intent) (s : IntentStatus) → Preserves P (create_intent i s)
  unfolding create_intent
  create_intent-Preserves i s = Preserves-bind _ _ connection-Preserves λ d.
      Preserves-bind _ _ (Preserves-gets _) λ now.
        Preserves-bind _ _ (guard-Preserves _ _ (Preserves-raise _))
          λ _. Preserves-bind _ _ (set_db-Preserves _) λ _. append_event-Preserves _ _

  pub update_intent_status-Preserves :
      (id : String) (s : IntentStatus) → Preserves P (update_intent_status id s)
  unfolding update_intent_status
  update_intent_status-Preserves id s = Preserves-bind _ _ connection-Preserves λ d.
      Preserves-bind _ _ (Preserves-gets _)
        λ now. Preserves-bind _ _ (set_db-Preserves _) λ _. append_event-Preserves _ _

  pub create_leg-Preserves : (r : LegRow) → Preserves P (create_leg r)
  unfolding create_leg
  create_leg-Preserves r = Preserves-bind _ _ connection-Preserves λ d.
      Preserves-bind _ _ (guard-Preserves _ _ (Preserves-raise _)) λ _.
        Preserves-bind _ _ (guard-Preserves _ _ (Preserves-raise _))
          λ _. Preserves-bind _ _ (set_db-Preserves _) λ _. append_event-Preserves _ _

  get_leg-Preserves : (id : String) → Preserves P (get_leg id)
  unfolding get_leg
  get_leg-Preserves id = Preserves-bind _ _ connection-Preserves λ d. Preserves-pure _

  write_leg-Preserves :
      (r : LegRow) (fs extra : List Field) (now : ℕ) → Preserves P (write_leg r fs extra now)
  unfolding write_leg
  write_leg-Preserves r fs extra now =
      Preserves-bind _ _ connection-Preserves
        λ d. Preserves-bind _ _ (set_db-Preserves _) λ _. append_event-Preserves _ _

  update_found-Preserves :
      (fs : List Field) (now : ℕ) (r : Option LegRow) → Preserves P (update_found fs now r)
  update_found-Preserves fs now none = Preserves-raise _
  update_found-Preserves fs now (some r) =
      Preserves-if _ _ _ (Preserves-pure tt) (write_leg-Preserves r fs _ now)

  pub update_leg-Preserves : (id : String) (fs : List Field) → Preserves P (update_leg id fs)
  unfolding update_leg
  update_leg-Preserves id fs =
      Preserves-bind _ _ (get_leg-Preserves id)
        λ r. Preserves-bind _ _ (Preserves-gets _) λ now. update_found-Preserves fs now r

  pub is_blocked-Preserves : Preserves P is_blocked_by_needs_manual
  unfolding is_blocked_by_needs_manual
  is_blocked-Preserves = Preserves-bind _ _ connection-Preserves λ d. Preserves-pure _
