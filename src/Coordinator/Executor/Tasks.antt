-- ===== src/Coordinator/Executor/Tasks.antt =====
-- What a result of the executor says of the plan.
use omni_trade.Prelude.{
  ◌≡◌, refl, ap, ◌∙◌, ◌↔◌, ◌⊎◌, String, Bool, true, false, not, ◌&&◌, ◌||◌, List, [], ◌∷◌, map, All,
  all, any, if-false, Bool-cases, inl, inr, arith,
}
use mathlib.Core.List.{Memᴰ}
use omni_trade.Exec.{returned}
use omni_trade.Exec.Ensures.{
  Ensures, Ensures-bind, Ensures-if, Ensures-pure, Met-returned, Ensures-any,
}
use omni_trade.Float.{Float}
use omni_trade.Coordinator.StateMachine.{
  LegStatus, pending_send, sent, rejected, cancelled, all_filled,
}
use omni_trade.Coordinator.Intent.{Intent}
use omni_trade.Coordinator.Plan.{PlannedLeg, Plan}
use omni_trade.Coordinator.Leg.{
  LegExecution, ExecutionResult, is_open, is_status_filled, is_failed, is_early_terminate, overall,
}
use omni_trade.Coordinator.Executor.{persist_legs, close_leg, close_open, dispatch, settle, execute}
use omni_trade.Coordinator.Executor.Kept.{tasks_of, task_of, dispatch-kept}
use omni_trade.World.{Env, World}

module _ ⦃fl : Float⦄ where
  -- The tasks of the plan: its legs with their sides.
  abbrev pub planned_tasks : List PlannedLeg → List (PlannedLeg × String)
  planned_tasks = map λ l. (l, l.side)

  -- A leg of the result has one of the statuses.
  abbrev pub Some : (LegStatus → Type 0) → List LegExecution → Type 0
  Some P legs = (x : LegExecution) × Memᴰ x legs × P x.status

  abbrev pub IsFilled : LegStatus → Type 0
  IsFilled s = s ≡ LegStatus.filled

  abbrev pub HasFailed : LegStatus → Type 0
  HasFailed s = (s ≡ rejected) ⊎ (s ≡ cancelled)

  abbrev pub IsOpen : LegStatus → Type 0
  IsOpen s = (s ≡ pending_send) ⊎ (s ≡ sent)

  -- The legs with the status one by one: no leg is open, or one is filled and one has failed.
  abbrev pub Finished : List LegExecution → Type 0
  Finished legs = All (λ x. IsOpen x.status → ⊥) legs ⊎ (Some IsFilled legs × Some HasFailed legs)

  -- A leg that is left open is left to the reconciler: only when one leg is filled and another failed.
  abbrev open_only_early : List LegExecution → Bool
  open_only_early legs = is_early_terminate legs || not (any is_open legs)

  Some-any :
      (P : LegStatus → Type 0) (p : LegExecution → Bool)
      → ((x : LegExecution) → p x ≡ true → P x.status)
      → (legs : List LegExecution) → any p legs ≡ true
      → Some P legs
  Some-any P p h [] k = absurd (cc k)
  Some-any P p h (x ∷ xs) k = elim (Bool-cases (p x)) [
    | inl e ↦ (x, Memᴰ.head refl, h x e)
    | inr e ↦
        let rest = Some-any P p h xs (ground (arith, k, e)) in (rest.0, Memᴰ.tail rest.1, rest.2)
  ]

  All-any :
      (P : LegExecution → Type 0) (p : LegExecution → Bool)
      → ((x : LegExecution) → p x ≡ false → P x)
      → (legs : List LegExecution) → any p legs ≡ false
      → All P legs
  All-any P p h [] k = tt
  All-any P p h (x ∷ xs) k = (h x (ground (arith, k)), All-any P p h xs (ground (arith, k)))

  IsFilled-lem : (x : LegExecution) → (is_status_filled x ≡ true) ↔ IsFilled x.status
  IsFilled-lem x = ground arith

  failed-lem : (x : LegExecution) → is_failed x ≡ true → HasFailed x.status
  failed-lem x h = ground (arith, h)

  open-lem : (x : LegExecution) → is_open x ≡ false → IsOpen x.status → ⊥
  open-lem x h k = ground (arith, h, k)

  all-IsFilled :
      (legs : List LegExecution)
      → (all is_status_filled legs ≡ true) ↔ All (λ x. IsFilled x.status) legs
  all-IsFilled [] = ((λ _. tt), λ _. refl)
  all-IsFilled (x ∷ xs) =
      let first = IsFilled-lem x in
      let rest = all-IsFilled xs in
      (
        (λ h. (first.0 (ground (arith, h)), rest.0 (ground (arith, h)))),
        λ h. rw (first.1 h.0) (rest.1 h.1),
      )

  Finished-open_only_early :
      (legs : List LegExecution) → open_only_early legs ≡ true → Finished legs
  unfolding is_early_terminate
  Finished-open_only_early legs h = elim (Bool-cases (any is_open legs)) [
    | inr none_open ↦ inl (All-any _ is_open open-lem legs none_open)
    | inl some_open ↦ inr (
      Some-any IsFilled is_status_filled (λ x. (IsFilled-lem x).0) legs
          (ground (arith, h, some_open)),
      Some-any HasFailed is_failed failed-lem legs (ground (arith, h, some_open)),
    )
  ]

  abbrev pub Closed : Bool → List LegExecution → List LegExecution → Type 0
  Closed early legs closed =
      (tasks_of closed ≡ tasks_of legs)
      × (early ≡ true → closed ≡ legs)
      × (early ≡ false → any is_open closed ≡ false)

  Closed-nil : (early : Bool) → Closed early [] []
  Closed-nil early = (refl, (λ _. refl), λ _. refl)

  abbrev ClosedLeg : Bool → LegExecution → LegExecution → Type 0
  ClosedLeg early x y =
      (task_of y ≡ task_of x) × (early ≡ true → y ≡ x) × (early ≡ false → is_open y ≡ false)

  Closed-cons :
      (early : Bool) (x y : LegExecution) (xs ys : List LegExecution)
      → ClosedLeg early x y
      → Closed early xs ys
      → Closed early (x ∷ xs) (y ∷ ys)
  Closed-cons early x y xs ys h k =
      (rw (h.0, k.0) refl, (λ e. rw (h.1 e, k.1 e) refl), λ e. rw (h.2 e) (k.2 e))

  or_true : (b : Bool) → (b || true) ≡ true
  or_true true = refl
  or_true false = refl

  open_only_early-Closed :
      (legs closed : List LegExecution)
      → Closed (is_early_terminate legs) legs closed
      → open_only_early closed ≡ true
  open_only_early-Closed legs closed h = elim (Bool-cases (is_early_terminate legs)) [
    | inl early ↦ rw (h.1 early, early) refl
    | inr late ↦ rw (h.2 late) (or_true _)
  ]

  overall-all_filled :
      (legs : List LegExecution) → (overall legs ≡ all_filled) ↔ (all is_status_filled legs ≡ true)
  overall-all_filled legs = elim (Bool-cases (all is_status_filled legs)) [
    | inl every ↦ ((λ _. every), λ _. rw every refl)
    | inr some_open ↦ (
      (λ e. absurd (cc (if-false _ all_filled _ _ some_open e))),
      λ e. absurd (cc (e, some_open)),
    )
  ]

module _ ⦃fl : Float⦄ ⦃env : Env⦄ where
  abbrev Anything : World → Type 0
  Anything w = Unit

  close_leg-Closed :
      (early : Bool) (x : LegExecution)
      → Ensures Anything (close_leg early x) (λ y _. ClosedLeg early x y) Anything
  unfolding close_leg
  close_leg-Closed early x =
      Ensures-if (is_open x && not early) _ _
        (λ h.
          Ensures-bind _ _ (Ensures-any _)
            λ _. Ensures-pure _ λ w _. (refl, (λ e. absurd (ground (arith, h, e))), λ _. refl))
        λ h. Ensures-pure _ λ w _. (refl, (λ _. refl), λ e. ground (arith, h, e))

  close_open-Closed :
      (early : Bool) (legs : List LegExecution)
      → Ensures Anything (close_open early legs) (λ closed _. Closed early legs closed) Anything
  unfolding close_open
  close_open-Closed early [] = Ensures-pure _ λ w _. Closed-nil early
  close_open-Closed early (x ∷ xs) = Ensures-bind _ _ (close_leg-Closed early x) λ y. record {
    run = λ w h.
        (Ensures-bind _ _ (close_open-Closed early xs)
            λ ys. Ensures-pure _ λ w' k. Closed-cons early x y xs ys h k).run
          w tt;
  }

  persist_legs-tasks :
      (i : Intent) (ls : List PlannedLeg)
      → Ensures Anything (persist_legs i ls) (λ legs _. tasks_of legs ≡ planned_tasks ls) Anything
  unfolding persist_legs
  persist_legs-tasks i [] = Ensures-pure _ λ w _. refl
  persist_legs-tasks i (l ∷ ls) = Ensures-bind _ _ (Ensures-any _) λ id.
      Ensures-bind _ _ (Ensures-any _) λ _.
        Ensures-bind _ _ (persist_legs-tasks i ls)
          λ rest. Ensures-pure _ λ w h. ap (λ ts. (l, l.side) ∷ ts) h

  abbrev Settles : List (PlannedLeg × String) → ExecutionResult → World → Type 0
  Settles ts r w =
      (tasks_of r.legs ≡ ts)
      × ((r.status ≡ all_filled) ↔ (all is_status_filled r.legs ≡ true))
      × (open_only_early r.legs ≡ true)

  settle-Settles :
      (id : String) (legs : List LegExecution) (ts : List (PlannedLeg × String))
      → tasks_of legs ≡ ts
      → Ensures Anything (settle id legs) (Settles ts) Anything
  settle-Settles id legs ts h =
      Ensures-bind _ _ (close_open-Closed (is_early_terminate legs) legs) λ closed. record {
        run = λ w k.
            (Ensures-bind {Pre = Anything} _ _ (Ensures-any _) λ _. Ensures-pure _ λ w' _.
                (k.0 ∙ h, overall-all_filled closed, open_only_early-Closed legs closed k)).run
              w tt;
      }

  execute-Settles :
      (p : Plan) → Ensures Anything (execute p) (Settles (planned_tasks p.legs)) Anything
  unfolding execute
  execute-Settles p = Ensures-bind _ _ (Ensures-any _) λ _.
      Ensures-bind _ _ (persist_legs-tasks p.intent p.legs) λ legs. record {
        run = λ w h.
            let (legs', w') = dispatch p legs w in
            (settle-Settles p.intent.intent_id legs' (planned_tasks p.legs)
                (dispatch-kept p legs w ∙ h)).run
              w' tt;
      }

  -- A result of the executor has one leg for each leg of the plan, in order and with its side. It is
  -- ALL_FILLED exactly if the status of every leg is FILLED. No leg is SENT or PENDING_SEND any more,
  -- unless some leg is FILLED and some leg REJECTED or CANCELLED.
  pub execute-tasks :
      (p : Plan) (w : World) (r : ExecutionResult)
      → (execute p w).0 ≡ returned r
      → (tasks_of r.legs ≡ planned_tasks p.legs)
        × ((r.status ≡ all_filled) ↔ All (λ x. IsFilled x.status) r.legs)
        × Finished r.legs
  execute-tasks p w r h =
      let settled =
        Met-returned (Settles (planned_tasks p.legs)) Anything r _ _ h
          ((execute-Settles p).run w tt) in
      let all = all-IsFilled r.legs in
      (
        settled.0,
        ((λ e. all.0 (settled.1.0 e)), λ e. settled.1.1 (all.1 e)),
        Finished-open_only_early r.legs settled.2,
      )
