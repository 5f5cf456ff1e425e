-- ===== src/Coordinator/Risk.antt =====
-- src/coordinator/risk.py: guardrails before execution. It writes only its own time stamps.
pub mod Steps
pub mod Window
use omni_trade.Prelude.{
  ℕ, leb, String, Bool, true, false, ◌&&◌, Option, none, some, List, [], ◌∷◌, ◌++◌, length,
  is_empty, if◌then◌else◌,
}
use omni_trade.Exec.{Exec, Error, Outcome, returned, raised, pure, ◌>>=◌}
use omni_trade.Float.{Float, F, nought}
use omni_trade.Coordinator.Intent.{Intent}
use omni_trade.Coordinator.Plan.{PlannedLeg, Plan}
use omni_trade.World.{Env, World}
use omni_trade.Persistence.Store.{get_venue_exposure}
use omni_trade.Persistence.Pnl.{get_daily_pnl}

module _ ⦃fl : Float⦄ where
  pub data RiskFailure : Type 0 where
    notional_exceeds : F → F → RiskFailure
    daily_loss : F → F → RiskFailure
    exposure_unknown : String → Error → RiskFailure
    exposure_exceeds : String → F → F → RiskFailure
    rate_limited : ℕ → F → RiskFailure

  pub record RiskResult : Type 0 where
    pub is_allowed : Bool
    pub failures : List RiskFailure

  -- The limits of the configuration; `none` switches a check off.
  pub record RiskConfig : Type 0 where
    pub max_notional : Option F
    pub daily_loss_limit : Option F
    pub max_venue_exposure : Option F
    pub rate_max_orders : Option ℕ
    pub rate_window : F

  unfoldable pub check_notional : Option F → F → List RiskFailure
  check_notional none total = []
  check_notional (some limit) total =
      if fl.lt limit total then notional_exceeds total limit ∷ [] else []

  unfoldable pub check_pnl : F → Option F → List RiskFailure
  check_pnl limit none = []
  check_pnl limit (some pnl) =
      if fl.lt pnl (fl.sub nought limit) then daily_loss pnl limit ∷ [] else []

  unfoldable pub check_exposure : F → String → Outcome (Option F) → List RiskFailure
  check_exposure limit venue (raised e) = exposure_unknown venue e ∷ []
  check_exposure limit venue (returned none) = []
  check_exposure limit venue (returned (some x)) =
      if fl.lt limit x then exposure_exceeds venue x limit ∷ [] else []

  -- `while deque and deque[0] < cutoff: deque.popleft()`
  unfoldable pub drop_expired : F → List F → List F
  drop_expired cutoff [] = []
  drop_expired cutoff (t ∷ ts) =
      let rest = drop_expired cutoff ts in if fl.lt t cutoff then rest else t ∷ ts

  -- The sliding window: the failures and the deque that is left.
  unfoldable pub admit : ℕ → F → F → List F → List RiskFailure × List F
  unfolding drop_expired
  admit max_orders window now stamps =
      let kept = drop_expired (fl.sub now window) stamps in
      if leb max_orders (length kept)
      then (rate_limited max_orders window ∷ [], kept)
      else ([], kept ++ now ∷ [])

module _ ⦃fl : Float⦄ ⦃env : Env⦄ where
  unfoldable pub check_daily : Option F → Exec World (List RiskFailure)
  unfolding check_pnl
  check_daily none = pure []
  check_daily (some limit) = do pnl ← get_daily_pnl; pure (check_pnl limit pnl)

  -- The source asks for the exposure of each venue once; the queries change nothing.
  unfoldable pub check_venues : Option F → List PlannedLeg → World → List RiskFailure
  unfolding check_exposure
  check_venues none ls w = []
  check_venues (some limit) [] w = []
  check_venues (some limit) (l ∷ ls) w =
      check_exposure limit l.venue (get_venue_exposure l.venue w).0
      ++ check_venues (some limit) ls w

  unfoldable pub check_rate : RiskConfig → Option ℕ → Exec World (List RiskFailure)
  unfolding admit
  check_rate cfg none w = (returned [], w)
  check_rate cfg (some max_orders) w =
      let (failures, kept) =
        admit max_orders cfg.rate_window (env.time w.journal) w.order_timestamps in
      (returned failures, record w { order_timestamps = kept })

  unfoldable pub check : RiskConfig → Intent → Plan → Exec World RiskResult
  unfolding check_notional check_daily check_venues check_rate
  check cfg i p = do
    daily ← check_daily cfg.daily_loss_limit
    λ w.
        let exposed = check_venues cfg.max_venue_exposure p.legs w in
        (do
          limited ← check_rate cfg cfg.rate_max_orders
          let failures =
              check_notional cfg.max_notional i.total_notional_usd
              ++ (daily ++ (exposed ++ limited))
          pure (record { is_allowed = is_empty failures; failures = failures }))
          w
