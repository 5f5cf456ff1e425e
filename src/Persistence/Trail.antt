-- ===== src/Persistence/Trail.antt =====
-- The audit trail of an intent: the statuses that the journal records for it, in order.
use omni_trade.Prelude.{
  ℕ, String, Bool, true, false, Option, none, some, List, [], ◌∷◌, ◌++◌, ◌≡◌, refl, ◌∙◌, ◌⊎◌, inl,
  append_assoc, append-nil, ◌==◌, eq_refl, if◌then◌else◌,
}
use omni_trade.Exec.{Exec}
use omni_trade.Exec.Preserves.{
  Preserves, Preserves-pure, Preserves-raise, Preserves-gets, Preserves-if, Preserves-bind,
}
use omni_trade.Exec.Ensures.{Ensures, Ensures-bind, Preserves-Ensures}
use omni_trade.Float.{Float}
use omni_trade.Coordinator.StateMachine.{IntentStatus, pending}
use omni_trade.Coordinator.StateMachine.Graph.{Allows, Chain, stop, step}
use omni_trade.Coordinator.Intent.{Intent}
use omni_trade.World.{
  Field, Payload, intent_created, intent_status_updated, leg_created, leg_updated, Entry, audit,
  call, Call, History, LegRow, Db, Env, World, log,
}
use omni_trade.Persistence.Store.{
  connection, require_db, set_db, append_event, guard, create_intent, update_intent_status,
  create_leg, get_leg, write_leg, update_found, update_leg,
}

module _ ⦃fl : Float⦄ where
  abbrev pub payload_status : Payload → List IntentStatus
  payload_status (intent_created s) = s ∷ []
  payload_status (intent_status_updated s) = s ∷ []
  payload_status (leg_created id s) = []
  payload_status (leg_updated id fs) = []

  abbrev pub entry_status : String → Entry → List IntentStatus
  entry_status id (audit e) = if e.intent_id == id then payload_status e.payload else []
  entry_status id (call c) = []

  unfoldable pub trail : String → History → List IntentStatus
  trail id [] = []
  trail id (e ∷ es) = entry_status id e ++ trail id es

  pub trail-append :
      (id : String) (xs ys : History) → trail id (xs ++ ys) ≡ trail id xs ++ trail id ys
  unfolding trail
  trail-append id [] ys = refl
  trail-append id (e ∷ xs) ys = simp (trail-append id xs ys, append_assoc)

  pub trail-log :
      (id : String) (e : Entry) (w : World)
      → trail id (log e w).journal ≡ trail id w.journal ++ entry_status id e
  unfolding trail
  trail-log id e w = simp (trail-append, append-nil)

  -- An entry that says nothing of the status of `id`.
  pub trail-log_quiet :
      (id : String) (e : Entry) (w : World)
      → entry_status id e ≡ []
      → trail id (log e w).journal ≡ trail id w.journal
  trail-log_quiet id e w q = simp (trail-log, q, append-nil)

  abbrev pub HasTrail : String → List IntentStatus → World → Type 0
  HasTrail id t w = trail id w.journal ≡ t

module _ ⦃fl : Float⦄ ⦃env : Env⦄ (id : String) (t : List IntentStatus) where
  pub call-HasTrail : (c : Call) (w : World) → HasTrail id t w → HasTrail id t (log (call c) w)
  call-HasTrail c w h = trail-log_quiet id (call c) w refl ∙ h

  quiet : (b : Bool) (s : List IntentStatus) → s ≡ [] → (if b then s else []) ≡ []
  quiet true s q = q
  quiet false s q = refl

  require_db-HasTrail : (d : Option Db) → Preserves (HasTrail id t) (require_db d)
  require_db-HasTrail none = Preserves-raise _
  require_db-HasTrail (some d) = Preserves-pure d

  pub connection-HasTrail : Preserves (HasTrail id t) connection
  unfolding connection
  connection-HasTrail = record { run = λ w h. (require_db-HasTrail w.db).run w h }

  set_db-HasTrail : (d : Db) → Preserves (HasTrail id t) (set_db d)
  unfolding set_db
  set_db-HasTrail d = record { run = λ w h. h }

  append_event-HasTrail :
      (i : String) (p : Payload)
      → payload_status p ≡ []
      → Preserves (HasTrail id t) (append_event i p)
  unfolding append_event
  append_event-HasTrail i p q =
      Preserves-bind _ _ connection-HasTrail
        λ _. record { run = λ w h. trail-log_quiet id _ w (quiet (i == id) _ q) ∙ h }

  get_leg-HasTrail : (l : String) → Preserves (HasTrail id t) (get_leg l)
  unfolding get_leg
  get_leg-HasTrail l = Preserves-bind _ _ connection-HasTrail λ d. Preserves-pure _

  write_leg-HasTrail :
      (r : LegRow) (fs extra : List Field) (now : ℕ)
      → Preserves (HasTrail id t) (write_leg r fs extra now)
  unfolding write_leg
  write_leg-HasTrail r fs extra now =
      Preserves-bind _ _ connection-HasTrail
        λ d. Preserves-bind _ _ (set_db-HasTrail _) λ _. append_event-HasTrail _ _ refl

  update_found-HasTrail :
      (fs : List Field) (now : ℕ) (r : Option LegRow)
      → Preserves (HasTrail id t) (update_found fs now r)
  update_found-HasTrail fs now none = Preserves-raise _
  update_found-HasTrail fs now (some r) =
      Preserves-if _ _ _ (Preserves-pure tt) (write_leg-HasTrail r fs _ now)

  -- The writes of legs leave the trail of every intent alone.
  pub update_leg-HasTrail :
      (l : String) (fs : List Field) → Preserves (HasTrail id t) (update_leg l fs)
  unfolding update_leg
  update_leg-HasTrail l fs =
      Preserves-bind _ _ (get_leg-HasTrail l)
        λ r. Preserves-bind _ _ (Preserves-gets _) λ now. update_found-HasTrail fs now r

  guard-HasTrail :
      (b : Bool) (m : Exec World (Unit {0}))
      → Preserves (HasTrail id t) m
      → Preserves (HasTrail id t) (guard b m)
  guard-HasTrail true m h = h
  guard-HasTrail false m h = Preserves-pure tt

  pub create_leg-HasTrail : (r : LegRow) → Preserves (HasTrail id t) (create_leg r)
  unfolding create_leg
  create_leg-HasTrail r = Preserves-bind _ _ connection-HasTrail λ d.
      Preserves-bind _ _ (guard-HasTrail _ _ (Preserves-raise _)) λ _.
        Preserves-bind _ _ (guard-HasTrail _ _ (Preserves-raise _))
          λ _. Preserves-bind _ _ (set_db-HasTrail _) λ _. append_event-HasTrail _ _ refl

pub Chain-snoc :
    {s t : IntentStatus} {ts : List IntentStatus} (u : IntentStatus)
    → Chain s ts t
    → Allows t u
    → Chain s (ts ++ u ∷ []) u
Chain-snoc u stop a = step a stop
Chain-snoc u (step b c) a = step b (Chain-snoc u c a)

module _ ⦃fl : Float⦄ where
  -- The trail of `id` begins with PENDING, takes allowed steps only, and is now at `s`.
  pub record At (id : String) (s : IntentStatus) (w : World) : Type 0 where
    pub later : List IntentStatus
    pub recorded : trail id w.journal ≡ pending ∷ later
    pub chain : Chain pending later s

  -- An unknown intent, or one somewhere on its way.
  pub record Somewhere (id : String) (w : World) : Type 0 where
    pub state : IntentStatus
    pub at : At id state w

  pub At-Somewhere : (id : String) (s : IntentStatus) (w : World) → At id s w → Somewhere id w
  At-Somewhere id s w h = record { state = s; at = h }

module _ ⦃fl : Float⦄ ⦃env : Env⦄ (id : String) (s : IntentStatus) where
  -- What keeps every trail keeps the place on it.
  pub Preserves-At :
      {A : Type 0} (m : Exec World A)
      → ((t : List IntentStatus) → Preserves (HasTrail id t) m)
      → Preserves (At id s) m
  Preserves-At m h = record {
    run = λ w a. record {
      later = a.later;
      recorded = (h (pending ∷ a.later)).run w a.recorded;
      chain = a.chain;
    };
  }

  pub call-At : (c : Call) (w : World) → At id s w → At id s (log (call c) w)
  call-At c w a = record {
    later = a.later;
    recorded = call-HasTrail id (pending ∷ a.later) c w a.recorded;
    chain = a.chain;
  }

  status_written :
      (u : IntentStatus) (now : ℕ) (w : World)
      → At id s w
      → Allows s u
      → At id u (
          log
            (audit (record { intent_id = id; timestamp = now; payload = intent_status_updated u }))
            w)
  status_written u now w a ok = record {
    later = a.later ++ u ∷ [];
    recorded = rw trail-log (rw (a.recorded, eq_refl id));
    chain = Chain-snoc u a.chain ok;
  }

  pub stay :
      {A : Type 0} (m : Exec World A)
      → ((t : List IntentStatus) → Preserves (HasTrail id t) m)
      → Ensures (At id s) m (λ _. At id s) (Somewhere id)
  stay m h = Preserves-Ensures m (Preserves-At m h) (At-Somewhere id s)

  append_status-At :
      (u : IntentStatus)
      → Allows s u
      → Ensures (At id s) (append_event id (intent_status_updated u)) (λ _. At id u) (Somewhere id)
  unfolding append_event
  append_status-At u ok =
      Ensures-bind _ _ (stay connection (connection-HasTrail id))
        λ _. record { run = λ w a. status_written u (env.now w.journal) w a ok }

  -- A status write moves the intent along the table.
  pub update_intent_status-At :
      (u : IntentStatus)
      → Allows s u
      → Ensures (At id s) (update_intent_status id u) (λ _. At id u) (Somewhere id)
  unfolding update_intent_status
  update_intent_status-At u ok = Ensures-bind _ _ (stay connection (connection-HasTrail id)) λ d.
      Ensures-bind _ _ (stay _ (λ t. Preserves-gets _))
        λ now. Ensures-bind _ _ (stay _ (λ t. set_db-HasTrail id t _)) λ _. append_status-At u ok

module _ ⦃fl : Float⦄ ⦃env : Env⦄ where
  abbrev pub Unseen : String → World → Type 0
  Unseen id = HasTrail id []

  -- An intent that no audit event names, or one on its way.
  abbrev pub Anywhere : String → World → Type 0
  Anywhere id w = Unseen id w ⊎ Somewhere id w

  first_written :
      (id : String) (now : ℕ) (w : World)
      → Unseen id w
      → At id pending (
          log
            (audit (record { intent_id = id; timestamp = now; payload = intent_created pending }))
            w)
  first_written id now w h = record {
    later = [];
    recorded = rw trail-log (rw (h, eq_refl id));
    chain = stop;
  }

  pub remain :
      {A : Type 0} (id : String) (m : Exec World A)
      → ((t : List IntentStatus) → Preserves (HasTrail id t) m)
      → Ensures (Unseen id) m (λ _. Unseen id) (Anywhere id)
  remain id m h = Preserves-Ensures m (h []) (λ w. inl)

  append_created-At :
      (id : String)
      → Ensures
          (Unseen id)
          (append_event id (intent_created pending))
          (λ _. At id pending)
          (Anywhere id)
  unfolding append_event
  append_created-At id =
      Ensures-bind _ _ (remain id connection (connection-HasTrail id))
        λ _. record { run = λ w h. first_written id (env.now w.journal) w h }

  -- Storing a new intent begins its trail.
  pub create_intent-At :
      (i : Intent)
      → Ensures
          (Unseen i.intent_id)
          (create_intent i pending)
          (λ _. At i.intent_id pending)
          (Anywhere i.intent_id)
  unfolding create_intent
  create_intent-At i = Ensures-bind _ _ (remain _ _ (connection-HasTrail _)) λ d.
      Ensures-bind _ _ (remain _ _ (λ t. Preserves-gets _)) λ now.
        Ensures-bind _ _ (remain _ _ (λ t. guard-HasTrail _ t _ _ (Preserves-raise _))) λ _.
          Ensures-bind _ _ (remain _ _ (λ t. set_db-HasTrail _ t _))
            λ _. append_created-At i.intent_id
