-- ===== src/Coordinator/Validator/Steps.antt =====
-- What holds after every request for a balance holds after the validation.
use omni_trade.Prelude.{◌≡◌, refl, String, Bool, true, false, Option, none, some, List, [], ◌∷◌}
use omni_trade.Exec.{Outcome, returned, raised}
use omni_trade.Exec.Preserves.{Preserves, Preserves-pure, Preserves-if, Preserves-bind}
use omni_trade.Float.{Float, F}
use omni_trade.Coordinator.AccountType.{Params}
use omni_trade.Coordinator.Plan.{PlannedLeg, Plan}
use omni_trade.World.{Call, fetch_balance, fetch_free_margin, call, Exchange, Env, World, log, ask}
use omni_trade.Coordinator.Validator.{
  Free, Prefetched, ask_balance, ask_margin, available_funds, check_balance, check_account,
  validate_leg, collect, validate,
}

module _ ⦃fl : Float⦄ where
  abbrev pub is_balance_call : Call → Bool
  is_balance_call (fetch_balance venue params) = true
  is_balance_call (fetch_free_margin venue params) = true
  is_balance_call _ = false

module _ ⦃fl : Float⦄ ⦃env : Env⦄ (P : World → Type 0)
    (on_call : (c : Call) (w : World) → is_balance_call c ≡ true → P w → P (log (call c) w)) where
  ask_balance-Preserves :
      (x : Exchange) (venue : String) (params : Params) (known : Option (Outcome Free))
      → Preserves P (ask_balance x venue params known)
  unfolding ask
  ask_balance-Preserves x venue params none = record { run = λ w h. on_call _ w refl h }
  ask_balance-Preserves x venue params (some r) = record { run = λ w h. h }

  ask_margin-Preserves :
      (x : Exchange) (l : PlannedLeg) (available : F) → Preserves P (ask_margin x l available)
  unfolding ask
  ask_margin-Preserves x l available = record { run = λ w h. on_call _ w refl h }

  funds-Preserves :
      (x : Exchange) (l : PlannedLeg) (available : F) → Preserves P (available_funds x l available)
  funds-Preserves x l available =
      Preserves-if _ _ _ (ask_margin-Preserves x l available) (Preserves-pure _)

  check_balance-Preserves :
      (x : Exchange) (l : PlannedLeg) (r : Outcome Free) → Preserves P (check_balance x l r)
  check_balance-Preserves x l (raised e) = Preserves-pure _
  check_balance-Preserves x l (returned free) =
      Preserves-bind _ _ (funds-Preserves x l _) λ funds. Preserves-pure _

  check_account-Preserves :
      (l : PlannedLeg) (known : Prefetched) (x : Option Exchange)
      → Preserves P (check_account l known x)
  check_account-Preserves l known none = Preserves-pure _
  check_account-Preserves l known (some x) =
      Preserves-bind _ _ (ask_balance-Preserves x _ _ _)
        λ r. Preserves-bind _ _ (check_balance-Preserves x l r) λ found. Preserves-pure _

  validate_leg-Preserves :
      (known : Prefetched) (l : PlannedLeg) → Preserves P (validate_leg known l)
  unfolding validate_leg
  validate_leg-Preserves known l =
      Preserves-bind _ _ (check_account-Preserves l known _) λ found. Preserves-pure _

  collect_keeps :
      (known : Prefetched) (ls : List PlannedLeg) (w : World) → P w → P (collect known ls w).1
  unfolding collect
  collect_keeps known [] w h = h
  collect_keeps known (l ∷ ls) w h =
      collect_keeps known ls (validate_leg known l w).1 ((validate_leg-Preserves known l).run w h)

  pub validate-Preserves : (known : Prefetched) (p : Plan) → Preserves P (validate known p)
  unfolding validate
  validate-Preserves known p = record { run = λ w h. collect_keeps known p.legs w h }
