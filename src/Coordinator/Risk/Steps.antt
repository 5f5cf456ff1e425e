-- ===== src/Coordinator/Risk/Steps.antt =====
-- The risk check changes the time stamps of its window and nothing else.
use omni_trade.Prelude.{ℕ, Option, none, some, List}
use omni_trade.Exec.Preserves.{
  Preserves, Preserves-pure, Preserves-raise, Preserves-bind, Preserves-gets,
}
use omni_trade.Float.{Float, F}
use omni_trade.Coordinator.Intent.{Intent}
use omni_trade.Coordinator.Plan.{Plan}
use omni_trade.World.{Db, Env, World}
use omni_trade.Persistence.Store.{connection, require_db}
use omni_trade.Persistence.Pnl.{get_daily_pnl}
use omni_trade.Coordinator.Risk.{RiskConfig, check_daily, check_rate, check}

module _ ⦃fl : Float⦄ ⦃env : Env⦄ (P : World → Type 0)
    (on_stamps : (ts : List F) (w : World) → P w → P (record w { order_timestamps = ts })) where
  require_db-Preserves : (d : Option Db) → Preserves P (require_db d)
  require_db-Preserves none = Preserves-raise _
  require_db-Preserves (some d) = Preserves-pure d

  connection-Preserves : Preserves P connection
  unfolding connection
  connection-Preserves = record { run = λ w h. (require_db-Preserves w.db).run w h }

  get_daily_pnl-Preserves : Preserves P get_daily_pnl
  unfolding get_daily_pnl
  get_daily_pnl-Preserves =
      Preserves-bind _ _ connection-Preserves
        λ d. Preserves-bind _ _ (Preserves-gets _) λ today. Preserves-pure _

  check_daily-Preserves : (limit : Option F) → Preserves P (check_daily limit)
  unfolding check_daily
  check_daily-Preserves none = Preserves-pure _
  check_daily-Preserves (some limit) =
      Preserves-bind _ _ get_daily_pnl-Preserves λ pnl. Preserves-pure _

  check_rate-Preserves : (cfg : RiskConfig) (n : Option ℕ) → Preserves P (check_rate cfg n)
  unfolding check_rate
  check_rate-Preserves cfg none = record { run = λ w h. h }
  check_rate-Preserves cfg (some n) = record { run = λ w h. on_stamps _ w h }

  pub check-Preserves : (cfg : RiskConfig) (i : Intent) (p : Plan) → Preserves P (check cfg i p)
  unfolding check
  check-Preserves cfg i p = Preserves-bind _ _ (check_daily-Preserves cfg.daily_loss_limit) λ daily.
      record {
        run = λ w h.
            (Preserves-bind _ _ (check_rate-Preserves cfg cfg.rate_max_orders)
                λ limited. Preserves-pure _).run
              w h;
      }
