-- ===== src/Persistence/Store.antt =====
-- src/persistence/store.py: intents, legs, the audit trail and the risk queries.
pub mod Rows
use omni_trade.Prelude.{
  ℕ, leb, ltb, String, Bool, true, false, not, ◌&&◌, ◌||◌, ◌==◌, Option, none, some, is_some, List,
  [], ◌∷◌, ◌++◌, any, is_empty, select, if◌then◌else◌,
}
use omni_trade.Exec.{
  Exec, Outcome, returned, raised, pure, raise, gets, value_error, runtime_error, integrity_error,
  ◌>>=◌, ◌>>◌,
}
use omni_trade.Float.{Float, F, nought}
use omni_trade.Market.Instrument.{float_min}
use omni_trade.Coordinator.AccountType.{or_number}
use omni_trade.Coordinator.StateMachine.{
  IntentStatus, LegStatus, blocking_state, rolled_back_failed,
}
use omni_trade.Coordinator.Intent.{Intent}
use omni_trade.World.{
  Field, Payload, AuditEvent, Entry, audit, intent_created, intent_status_updated, leg_created,
  leg_updated, IntentJson, Env, IntentRow, LegRow, Db, World, log,
}

module _ ⦃fl : Float⦄ ⦃env : Env⦄ where
  -- `if self._db is None: raise RuntimeError`
  abbrev pub require_db : Option Db → Exec World Db
  require_db none = raise runtime_error
  require_db (some d) = pure d

  unfoldable pub connection : Exec World Db
  connection w = require_db w.db w

  unfoldable pub set_db : Db → Exec World (Unit {0})
  set_db d w = (returned tt, record w { db = some d })

  unfoldable pub append_event : String → Payload → Exec World (Unit {0})
  unfolding connection
  append_event intent_id payload = do
    connection
    λ w. (
      returned tt,
      log
          (audit
            (record { intent_id = intent_id; timestamp = env.now w.journal; payload = payload }))
          w,
    )

  -- Intents

  unfoldable pub find_intent : String → List IntentRow → Option IntentRow
  find_intent id [] = none
  find_intent id (r ∷ rs) = if r.intent_id == id then some r else find_intent id rs

  abbrev pub guard : Bool → Exec World (Unit {0}) → Exec World (Unit {0})
  guard true m = m
  guard false m = pure tt

  unfoldable pub create_intent : Intent → IntentStatus → Exec World (Unit {0})
  unfolding connection find_intent append_event
  create_intent i st = do
    d ← connection
    now ← gets (λ w. env.now w.journal)
    guard (is_some (find_intent i.intent_id d.intents)) (raise value_error)
    set_db (record d {
      intents =
          d.intents
          ++ record {
            intent_id = i.intent_id;
            status = st;
            raw_intent_json = env.dumps i;
            created_at = now;
            updated_at = now;
          }
            ∷ [];
    })
    append_event i.intent_id (intent_created st)

  unfoldable pub get_intent : String → Exec World (Option IntentRow)
  unfolding connection find_intent
  get_intent id = do d ← connection; pure (find_intent id d.intents)

  -- `UPDATE intents SET status = ?, updated_at = ? WHERE intent_id = ?`
  unfoldable pub set_status : String → IntentStatus → ℕ → List IntentRow → List IntentRow
  set_status id st now [] = []
  set_status id st now (r ∷ rs) =
      (if r.intent_id == id then record r { status = st; updated_at = now } else r)
      ∷ set_status id st now rs

  unfoldable pub update_intent_status : String → IntentStatus → Exec World (Unit {0})
  unfolding connection set_status append_event
  update_intent_status id st = do
    d ← connection
    now ← gets (λ w. env.now w.journal)
    set_db (record d { intents = set_status id st now d.intents })
    append_event id (intent_status_updated st)

  -- Legs

  unfoldable pub find_leg : String → List LegRow → Option LegRow
  find_leg id [] = none
  find_leg id (r ∷ rs) = if r.leg_id == id then some r else find_leg id rs

  -- The primary key of `legs` and its foreign key into `intents`.
  unfoldable pub create_leg : LegRow → Exec World (Unit {0})
  unfolding connection find_leg find_intent append_event
  create_leg row = do
    d ← connection
    guard (is_some (find_leg row.leg_id d.legs)) (raise integrity_error)
    guard (not (is_some (find_intent row.intent_id d.intents))) (raise integrity_error)
    set_db (record d { legs = d.legs ++ record row { status = LegStatus.pending_send } ∷ [] })
    append_event row.intent_id (leg_created row.leg_id LegStatus.pending_send)

  unfoldable pub get_leg : String → Exec World (Option LegRow)
  unfolding connection find_leg
  get_leg id = do d ← connection; pure (find_leg id d.legs)

  unfoldable pub get_legs_for_intent : String → Exec World (List LegRow)
  unfolding connection
  get_legs_for_intent id = do d ← connection; pure (select (λ r. r.intent_id == id) d.legs)

  abbrev pub assign : Field → LegRow → LegRow
  assign (Field.status s) r = record r { status = s }
  assign (Field.error_msg m) r = record r { error_msg = some m }
  assign (Field.order_id o) r = record r { order_id = o }
  assign (Field.sent_at t) r = record r { sent_at = t }
  assign (Field.filled_amount x) r = record r { filled_amount = x }
  assign (Field.avg_price x) r = record r { avg_price = x }
  assign (Field.fee_usd x) r = record r { fee_usd = x }
  assign (Field.compensation_order_id o) r = record r { compensation_order_id = o }
  assign (Field.compensation_filled_amount x) r = record r { compensation_filled_amount = x }
  assign (Field.compensation_avg_price x) r = record r { compensation_avg_price = x }
  assign (Field.compensation_fee_usd x) r = record r { compensation_fee_usd = x }
  assign (Field.filled_at t) r = record r { filled_at = some t }
  assign (Field.compensated_at t) r = record r { compensated_at = some t }

  unfoldable pub assign_all : List Field → LegRow → LegRow
  assign_all [] r = r
  assign_all (f ∷ fs) r = assign_all fs (assign f r)

  -- `UPDATE legs SET … WHERE leg_id = ?`
  unfoldable pub set_fields : String → List Field → List LegRow → List LegRow
  unfolding assign_all
  set_fields id fs [] = []
  set_fields id fs (r ∷ rs) = (if r.leg_id == id then assign_all fs r else r) ∷ set_fields id fs rs

  -- `UPDATE intents SET updated_at = ? WHERE intent_id = ?`
  unfoldable pub touch : String → ℕ → List IntentRow → List IntentRow
  touch id now [] = []
  touch id now (r ∷ rs) =
      (if r.intent_id == id then record r { updated_at = now } else r) ∷ touch id now rs

  abbrev pub is_filled : LegStatus → Bool
  is_filled LegStatus.filled = true
  is_filled _ = false

  abbrev pub is_compensated : LegStatus → Bool
  is_compensated LegStatus.compensated = true
  is_compensated _ = false

  -- `fields.get("status") == …`
  unfoldable pub sets_status : (LegStatus → Bool) → List Field → Bool
  sets_status p [] = false
  sets_status p (Field.status s ∷ fs) = p s
  sets_status p (_ ∷ fs) = sets_status p fs

  -- The time stamps that an update adds: each is written once.
  unfoldable pub stamps : LegRow → List Field → ℕ → List Field
  unfolding sets_status
  stamps r fs now =
      (if sets_status is_filled fs && not (is_some r.filled_at)
        then Field.filled_at now ∷ []
        else [])
      ++ (if sets_status is_compensated fs && not (is_some r.compensated_at)
          then Field.compensated_at now ∷ []
          else [])

  unfoldable pub write_leg : LegRow → List Field → List Field → ℕ → Exec World (Unit {0})
  unfolding set_fields touch append_event connection
  write_leg r fs extra now = do
    d ← connection
    set_db (record d {
      intents = if is_empty extra then d.intents else touch r.intent_id now d.intents;
      legs = set_fields r.leg_id (fs ++ extra) d.legs;
    })
    append_event r.intent_id (leg_updated r.leg_id (fs ++ extra))

  abbrev pub update_found : List Field → ℕ → Option LegRow → Exec World (Unit {0})
  update_found fs now none = raise value_error
  update_found fs now (some r) =
      if is_empty fs then pure tt else write_leg r fs (stamps r fs now) now

  unfoldable pub update_leg : String → List Field → Exec World (Unit {0})
  unfolding get_leg stamps write_leg
  update_leg id fs = do
    existing ← get_leg id
    now ← gets (λ w. env.now w.journal)
    update_found fs now existing

  -- Risk queries

  abbrev pub is_blocking : IntentStatus → Bool
  is_blocking rolled_back_failed = true
  is_blocking _ = false

  -- `SELECT COUNT(*) … WHERE status = ?` with `> 0`
  unfoldable pub is_blocked_by_needs_manual : Exec World Bool
  unfolding connection
  is_blocked_by_needs_manual = do d ← connection; pure (any (λ r. is_blocking r.status) d.intents)

  unfoldable pub sum_notional : String → List LegRow → Option F → Option F
  sum_notional venue [] acc = acc
  sum_notional venue (r ∷ rs) acc = sum_notional venue rs (
      if r.venue == venue && is_filled r.status
      then some
          (elim acc [ none ↦ r.planned_notional_usd | some a ↦ fl.add a r.planned_notional_usd ])
      else acc)

  unfoldable pub get_venue_exposure : String → Exec World (Option F)
  unfolding connection sum_notional
  get_venue_exposure venue = do d ← connection; pure (sum_notional venue d.legs none)
