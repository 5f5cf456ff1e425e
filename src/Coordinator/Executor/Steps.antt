-- ===== src/Coordinator/Executor/Steps.antt =====
-- What holds after every update of a leg and every request to a venue holds after each task of the
-- executor and of the reconciler.
use omni_trade.Prelude.{
  ℕ, zero, suc, String, Bool, true, false, not, ◌&&◌, Option, none, some, List, [], ◌∷◌, All, any,
  if◌then◌else◌, Bool-cases, inl, inr,
}
use omni_trade.Exec.{Exec, Error, not_implemented, Outcome, gets, ◌>>=◌}
use omni_trade.Exec.Preserves.{
  Preserves, Preserves-pure, Preserves-raise, Preserves-bind, Preserves-gets, Preserves-catch,
  preserves_rules,
}
use omni_trade.Exec.Ensures.{Ensures, Ensures-pure, Ensures-if, Ensures-bind, Preserves-Ensures}
use omni_trade.Float.{Float, F}
use omni_trade.Coordinator.StateMachine.{LegStatus}
use omni_trade.Coordinator.AccountType.{Order}
use omni_trade.Coordinator.Intent.{Intent}
use omni_trade.Coordinator.Plan.{PlannedLeg, Plan}
use omni_trade.World.{
  Cause, Field, Call, create_order, fetch_order, cancel_order, set_leverage, fetch_balance,
  fetch_free_margin, market, call, History, Exchange, Delivery, Env, World, log, ask,
}
use omni_trade.Persistence.Store.{update_leg}
use omni_trade.Coordinator.Leg.{
  LegExecution, is_open, is_early_terminate, Running, Task, on_world, edit, run_task, gather,
  read_id, required,
}
use omni_trade.Coordinator.Executor.{
  reject, mark_filled, ignore_not_implemented, raise_leverage, record_sent, place, send_to,
  send_order, apply_order, poll_at, poll_leg, poll_loop, poll_fills_http, on_order, on_last,
  deliver, watch, confirm_fills, dispatch, close_leg, close_open,
}

module _ ⦃fl : Float⦄ where
  -- An order may be sent only for a leg that is known.
  abbrev pub Permits : (String → Type 0) → Call → Type 0
  Permits Known (create_order venue leg_id request) = Known leg_id
  Permits Known (fetch_order venue oid symbol params) = Unit
  Permits Known (cancel_order venue oid symbol params) = Unit
  Permits Known (set_leverage venue n symbol params) = Unit
  Permits Known (fetch_balance venue params) = Unit
  Permits Known (fetch_free_margin venue params) = Unit
  Permits Known (market venue request) = Unit

  abbrev pub AllKnown : (String → Type 0) → List LegExecution → Type 0
  AllKnown Known = All λ x. Known x.leg_id

module _ ⦃fl : Float⦄ ⦃env : Env⦄ (P : World → Type 0) (Known : String → Type 0)
    (on_update : (id : String) (fs : List Field) → Preserves P (update_leg id fs))
    (on_call : (c : Call) (w : World) → Permits Known c → P w → P (log (call c) w)) where
  pub ask-Preserves :
      {A : Type 0} (c : Call) (answer : History → Outcome A)
      → Permits Known c
      → Preserves P (ask c answer)
  unfolding ask
  ask-Preserves c answer k = record { run = λ w h. on_call c w k h }

  -- The invariant of a running task.
  abbrev pub Inv : Running → Type 0
  Inv r = P r.world × Known r.lex.leg_id

  pub on_world-Inv : {A : Type 0} (m : Exec World A) → Preserves P m → Preserves Inv (on_world m)
  unfolding on_world
  on_world-Inv m h = record { run = λ r i. (h.run r.world i.0, i.1) }

  reject-Inv : (c : Cause) → Preserves Inv (reject c)
  unfolding reject edit gets on_world ◌>>=◌
  reject-Inv c = record { run = λ r i. ((on_update _ _).run r.world i.0, i.1) }

  mark_filled-Inv :
      (o : Order) (fee : F) (oid : Option String) (at : Option F)
      → Preserves Inv (mark_filled o fee oid at)
  unfolding mark_filled edit gets on_world ◌>>=◌
  mark_filled-Inv o fee oid at = record { run = λ r i. ((on_update _ _).run r.world i.0, i.1) }

  ignore-Inv : (e : Error) → Preserves Inv (ignore_not_implemented e)
  ignore-Inv not_implemented = Preserves-pure tt
  ignore-Inv e = Preserves-raise e

  raise_leverage-Inv : (x : Exchange) (l : PlannedLeg) → Preserves Inv (raise_leverage x l)
  unfolding raise_leverage
  raise_leverage-Inv x l = search (preserves_rules, ignore-Inv, on_world-Inv, ask-Preserves, tt)

  pub update-Inv : (id : String) (fs : List Field) → Preserves Inv (on_world (update_leg id fs))
  update-Inv id fs = on_world-Inv _ (on_update id fs)

  set_status-Inv : (s : LegStatus) → Preserves Inv (edit λ y. record y { status = s })
  unfolding edit
  set_status-Inv s = record { run = λ r i. i }

  set_order-Inv :
      (id : Option String) (fee : F)
      → Preserves Inv (edit λ y. record y { order_id = id; fee = fee })
  unfolding edit
  set_order-Inv id fee = record { run = λ r i. i }

  record_sent-Inv :
      (o : Order) (leg_id : String) (id : Option String) (at : F)
      → Preserves Inv (record_sent o leg_id id at)
  unfolding record_sent
  record_sent-Inv o leg_id id at =
      search (preserves_rules, mark_filled-Inv, update-Inv, set_status-Inv)

  read_some-Inv : (b : Bool) (oid : Option String) → Preserves Inv (required b oid)
  read_some-Inv false oid = Preserves-raise _
  read_some-Inv true oid = Preserves-pure oid

  read_id-Inv : (o : Order) → Preserves Inv (read_id o)
  read_id-Inv o = read_some-Inv o.has_id o.id

  place-Inv :
      (ex : Exchange) (i : Intent) (x : LegExecution)
      → Known x.leg_id
      → Preserves Inv (place ex i x)
  unfolding place
  place-Inv ex i x k =
      Preserves-bind _ _ (on_world-Inv _ (ask-Preserves (create_order _ x.leg_id _) _ k)) λ o.
        Preserves-bind _ _ (read_id-Inv o) λ id.
          Preserves-bind _ _ (set_order-Inv id _)
            λ _. Preserves-bind _ _ (Preserves-gets _) λ at. record_sent-Inv o x.leg_id id at

  send_to-Inv :
      (i : Intent) (x : LegExecution) (ex : Option Exchange)
      → Known x.leg_id
      → Preserves Inv (send_to i x ex)
  send_to-Inv i x none k = reject-Inv _
  send_to-Inv i x (some ex) k =
      Preserves-bind _ _ (raise_leverage-Inv ex x.leg)
        λ _. Preserves-catch _ _ (place-Inv ex i x k) λ e. reject-Inv _

  pub send_order-Inv : (p : Plan) → Preserves Inv (send_order p)
  unfolding send_order
  send_order-Inv p = record { run = λ r h. (send_to-Inv p.intent r.lex _ h.1).run r h }

  pub apply_order-Inv : (o : Order) → Preserves Inv (apply_order o)
  unfolding apply_order
  apply_order-Inv o = search (preserves_rules, mark_filled-Inv, reject-Inv)

  poll_at-Inv :
      (x : LegExecution) (ex : Option Exchange) (oid : Option String)
      → Preserves Inv (poll_at x ex oid)
  poll_at-Inv x none oid = Preserves-pure tt
  poll_at-Inv x (some ex) none = Preserves-pure tt
  poll_at-Inv x (some ex) (some oid) =
      search (preserves_rules, on_world-Inv, ask-Preserves, apply_order-Inv, tt)

  pub poll_leg-Inv : Preserves Inv poll_leg
  unfolding poll_leg
  poll_leg-Inv = record { run = λ r h. (poll_at-Inv r.lex _ _).run r h }

  -- The invariant of a list of legs and the world.
  abbrev pub AllInv : List LegExecution × World → Type 0
  AllInv (legs, w) = P w × AllKnown Known legs

  AllInv-if :
      (b : Bool) (a c : List LegExecution × World)
      → AllInv a
      → AllInv c
      → AllInv (if b then a else c)
  AllInv-if true a c ha hc = ha
  AllInv-if false a c ha hc = hc

  pub gather-AllInv :
      (p : LegExecution → Bool) (task : Task) (legs : List LegExecution) (w : World)
      → Preserves Inv task
      → P w
      → AllKnown Known legs
      → AllInv (gather p task legs w)
  unfolding gather run_task
  gather-AllInv p task [] w t h k = (h, tt)
  gather-AllInv p task (x ∷ xs) w t h k = elim (Bool-cases (p x)) [
    | inl yes_p ↦
        let done = t.run (record { lex = x; world = w }) (h, k.0) in
        let rest =
          gather-AllInv p task xs (task (record { lex = x; world = w })).1.world t done.0 k.1 in
        rw yes_p (rest.0, (done.1, rest.1))
    | inr no_p ↦ let rest = gather-AllInv p task xs w t h k.1 in rw no_p (rest.0, (k.0, rest.1))
  ]

  poll_loop-AllInv :
      (n : ℕ) (legs : List LegExecution) (w : World)
      → P w
      → AllKnown Known legs
      → AllInv (poll_loop n legs w)
  unfolding poll_loop
  poll_loop-AllInv zero legs w h k = (h, k)
  poll_loop-AllInv (suc n) legs w h k =
      let polled = gather-AllInv is_open poll_leg legs w poll_leg-Inv h k in
      let rest = poll_loop-AllInv n _ _ polled.0 polled.1 in
      AllInv-if (not (any is_open legs)) _ _ (h, k)
        (AllInv-if (is_early_terminate (gather is_open poll_leg legs w).0) _ _ polled rest)

  poll_fills_http-AllInv :
      (n : ℕ) (legs : List LegExecution) (w : World)
      → P w
      → AllKnown Known legs
      → AllInv (poll_fills_http n legs w)
  unfolding poll_fills_http
  poll_fills_http-AllInv zero legs w h k = (h, k)
  poll_fills_http-AllInv (suc n) legs w h k =
      let polled = gather-AllInv is_open poll_leg legs w poll_leg-Inv h k in
      poll_loop-AllInv n _ _ polled.0 polled.1

  on_last-AllInv :
      (p : LegExecution → Bool) (task : Task) (legs : List LegExecution) (w : World)
      → Preserves Inv task
      → P w
      → AllKnown Known legs
      → AllInv (on_last p task legs w)
  unfolding on_last run_task
  on_last-AllInv p task [] w t h k = (h, tt)
  on_last-AllInv p task (x ∷ xs) w t h k =
      let later = on_last-AllInv p task xs w t h k.1 in
      let done = t.run (record { lex = x; world = w }) (h, k.0) in
      AllInv-if (any p xs) _ _ (later.0, (k.0, later.1))
        (AllInv-if (p x) _ _ (done.0, (done.1, k.1)) (h, k))

  on_order-AllInv :
      (o : Order) (oid : Option String) (legs : List LegExecution) (w : World)
      → P w
      → AllKnown Known legs
      → AllInv (on_order o oid legs w)
  on_order-AllInv o none legs w h k = (h, k)
  on_order-AllInv o (some oid) legs w h k = on_last-AllInv _ _ legs w (apply_order-Inv o) h k

  deliver-AllInv :
      (d : Delivery) (legs : List LegExecution) (w : World)
      → P w
      → AllKnown Known legs
      → AllInv (deliver d legs w)
  deliver-AllInv d legs w h k =
      AllInv-if (any _ legs) _ _ (on_order-AllInv _ d.order.id legs w h k) (h, k)

  watch-AllInv :
      (ds : List Delivery) (legs : List LegExecution) (w : World)
      → P w
      → AllKnown Known legs
      → AllInv (watch ds legs w)
  unfolding watch
  watch-AllInv [] legs w h k = (h, k)
  watch-AllInv (d ∷ ds) legs w h k =
      let now = deliver-AllInv d legs w h k in watch-AllInv ds _ _ now.0 now.1

  confirm_fills-AllInv :
      (legs : List LegExecution) (w : World)
      → P w
      → AllKnown Known legs
      → AllInv (confirm_fills legs w)
  unfolding confirm_fills
  confirm_fills-AllInv legs w h k =
      let ds = if env.use_websocket then env.deliveries w.journal else [] in
      let watched = watch-AllInv ds legs w h k in
      let (legs', w') = watch ds legs w in
      poll_fills_http-AllInv (env.polls w'.journal) legs' w' watched.0 watched.1

  -- Sending and confirming keeps the invariant.
  pub dispatch-AllInv :
      (p : Plan) (legs : List LegExecution) (w : World)
      → P w
      → AllKnown Known legs
      → AllInv (dispatch p legs w)
  unfolding dispatch
  dispatch-AllInv p legs w h k =
      let sent = gather-AllInv (λ _. true) (send_order p) legs w (send_order-Inv p) h k in
      let (legs', w') = gather (λ _. true) (send_order p) legs w in
      AllInv-if (any is_open legs') (confirm_fills legs' w') (legs', w')
        (confirm_fills-AllInv legs' w' sent.0 sent.1) sent

  close_leg-Preserves : (early : Bool) (x : LegExecution) → Preserves P (close_leg early x)
  unfolding close_leg
  close_leg-Preserves early x = search (preserves_rules, on_update)

  -- So does the closing of what is still open.
  pub close_open-Preserves :
      (early : Bool) (legs : List LegExecution) → Preserves P (close_open early legs)
  unfolding close_open
  close_open-Preserves early [] = Preserves-pure []
  close_open-Preserves early (x ∷ xs) =
      Preserves-bind _ _ (close_leg-Preserves early x)
        λ y. Preserves-bind _ _ (close_open-Preserves early xs) λ ys. Preserves-pure _

  close_leg-Known :
      (early : Bool) (x : LegExecution)
      → Known x.leg_id
      → Ensures P (close_leg early x) (λ y w. P w × Known y.leg_id) P
  unfolding close_leg
  close_leg-Known early x k =
      Ensures-if (is_open x && not early) _ _
        (λ _.
          Ensures-bind _ _ (Preserves-Ensures _ (on_update _ _) λ w h. h)
            λ _. Ensures-pure _ λ w h. (h, k))
        λ _. Ensures-pure _ λ w h. (h, k)

  -- The closing returns legs that are still known.
  pub close_open-AllKnown :
      (early : Bool) (legs : List LegExecution)
      → AllKnown Known legs
      → Ensures P (close_open early legs) (λ closed w. P w × AllKnown Known closed) P
  unfolding close_open
  close_open-AllKnown early [] k = Ensures-pure _ λ w h. (h, tt)
  close_open-AllKnown early (x ∷ xs) k = Ensures-bind _ _ (close_leg-Known early x k.0) λ y.
      record {
        run = λ w h.
            (Ensures-bind _ _ (close_open-AllKnown early xs k.1)
                λ ys. Ensures-pure _ λ w' g. (g.0, (h.1, g.1))).run
              w h.0;
      }
