-- ===== src/Persistence/Pnl.antt =====
-- `get_daily_pnl` of src/persistence/store.py.
use omni_trade.Prelude.{
  ℕ, leb, String, Bool, true, false, not, ◌&&◌, ◌||◌, ◌==◌, Option, none, some, or_else, List, [],
  ◌∷◌, if◌then◌else◌,
}
use omni_trade.Exec.{Exec, pure, gets, ◌>>=◌}
use omni_trade.Float.{Float, F, nought}
use omni_trade.Market.Instrument.{float_min}
use omni_trade.Coordinator.AccountType.{or_number}
use omni_trade.World.{IntentJson, Env, LegRow, IntentRow, World}
use omni_trade.Persistence.Store.{connection, find_intent, is_filled, is_compensated}

module _ ⦃fl : Float⦄ ⦃env : Env⦄ where
  abbrev pub is_today : ℕ → Option ℕ → Bool
  is_today today none = false
  is_today today (some t) = leb today t

  abbrev pub is_positive : Option F → Bool
  is_positive none = false
  is_positive (some x) = fl.lt nought x

  -- The WHERE clause.
  unfoldable pub counts : ℕ → LegRow → Bool
  counts today r =
      (is_filled r.status || is_compensated r.status)
      && is_positive r.filled_amount
      && (is_today today r.filled_at || is_today today r.compensated_at)

  -- A number that counts as true.
  abbrev pub is_nonzero : Option F → Bool
  is_nonzero none = false
  is_nonzero (some x) = not (fl.eq x nought)

  unfoldable pub side_from_intent_json : Option IntentJson → String → String
  side_from_intent_json none venue = "buy"
  side_from_intent_json (some j) venue =
      let side = or_else (j.leg_side venue) (or_else j.side "buy") in
      if "buy" == side || "sell" == side then side else "buy"

  -- `pnl` and `has_realized_component`.
  pub record Tally : Type 0 where
    pub pnl : F
    pub has_realized_component : Bool

  abbrev pub charge : Option F → Tally → Tally
  charge fee t =
      let cost = or_number fee nought in
      if fl.eq cost nought
      then t
      else record { pnl = fl.sub t.pnl cost; has_realized_component = true }

  unfoldable pub realized : String → F → F → F → F
  realized side avg comp qty =
      if side == "sell" then fl.mul (fl.sub avg comp) qty else fl.mul (fl.sub comp avg) qty

  abbrev pub round_trip : String → LegRow → Tally → Tally
  round_trip side r t =
      let qty =
        float_min (or_else r.filled_amount nought) (or_else r.compensation_filled_amount nought) in
      if is_nonzero r.filled_amount
        && is_nonzero r.avg_price
        && is_nonzero r.compensation_filled_amount
        && is_nonzero r.compensation_avg_price
      then record {
        pnl = fl.add t.pnl (
            realized side (or_else r.avg_price nought) (or_else r.compensation_avg_price nought)
              qty);
        has_realized_component = true;
      }
      else t

  -- One round of the loop over the rows.
  unfoldable pub tally_row : ℕ → String → LegRow → Tally → Tally
  unfolding realized
  tally_row today side r t =
      let t' = if is_today today r.filled_at then charge r.fee_usd t else t in
      if is_today today r.compensated_at
      then round_trip side r (charge r.compensation_fee_usd t')
      else t'

  -- The side that the intent of a row gives; the JOIN drops a row without an intent.
  abbrev pub row_side : LegRow → Option IntentRow → Option String
  row_side r none = none
  row_side r (some i) = some (side_from_intent_json (env.loads i.raw_intent_json) r.venue)

  abbrev pub tally_joined : ℕ → LegRow → Option String → Tally → Tally
  tally_joined today r none t = t
  tally_joined today r (some side) t = tally_row today side r t

  unfoldable pub tally : ℕ → List IntentRow → List LegRow → Tally → Tally
  unfolding counts tally_row find_intent side_from_intent_json
  tally today intents [] t = t
  tally today intents (r ∷ rs) t = tally today intents rs (
      if counts today r
      then tally_joined today r (row_side r (find_intent r.intent_id intents)) t
      else t)

  unfoldable pub get_daily_pnl : Exec World (Option F)
  unfolding tally connection
  get_daily_pnl = do
    d ← connection
    today ← gets (λ w. env.today w.journal)
    let t = tally today d.intents d.legs (record { pnl = nought; has_realized_component = false })
    pure (if t.has_realized_component then some t.pnl else none)
