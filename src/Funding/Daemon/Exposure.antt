-- ===== src/Funding/Daemon/Exposure.antt =====
-- The positions that the daemon holds when it submits through the coordinator.
use omni_trade.Prelude.{refl, String, false, Option, List}
use omni_trade.Exec.Preserves.{Preserves, Preserves-pure, Preserves-bind}
use omni_trade.Float.{Float}
use omni_trade.Coordinator.Intent.{Intent}
use omni_trade.Coordinator.Orchestrator.{Orchestrator}
use omni_trade.Coordinator.Orchestrator.Steps.{submit-Preserves}
use omni_trade.World.{HedgedRow, Env, World}
use omni_trade.Funding.Monitor.{Monitor}
use omni_trade.Funding.Runner.{ArbConfig, tick}
use omni_trade.Funding.Runner.Bounded.{On, Limited, tick-Limited}
use omni_trade.Funding.Daemon.{submit_through}

module _ ⦃fl : Float⦄ ⦃env : Env⦄ where
  submit_through-Preserves :
      (o : Orchestrator) (Q : List HedgedRow → Type 0) (i : Intent)
      → Preserves (On Q) (submit_through o i)
  unfolding submit_through
  submit_through-Preserves o Q i =
      Preserves-bind _ _
        (submit-Preserves (On Q) (λ d w h. (refl, h.1)) (λ e w h. h) (λ c w h. h) (λ ts w h. h) o i
          false)
        λ r. Preserves-pure _

  -- A tick of the daemon that starts with an open store, at most `max_positions` open hedged
  -- positions and no two of them on one base, ends so, whether it returns or raises.
  pub daemon-Limited :
      (o : Orchestrator) (m : Monitor) (cfg : ArbConfig) (base_filter : Option (List String))
      (w : World)
      → On (Limited cfg.max_positions) w
      → On (Limited cfg.max_positions) (tick (submit_through o) m cfg base_filter w).1
  daemon-Limited o m cfg base_filter w h =
      tick-Limited (submit_through o) (submit_through-Preserves o) m cfg base_filter w h
