-- ===== src/Funding/Daemon.antt =====
-- The daemon of the command `arb`: src/cli/main.py gives the runner the coordinator's `submit`.
pub mod Exposure
pub mod Stuck
use omni_trade.Prelude.{String, false, List, [], map}
use omni_trade.Exec.{Exec, pure, ◌>>=◌}
use omni_trade.Float.{Float}
use omni_trade.Coordinator.Intent.{Intent}
use omni_trade.Coordinator.Leg.{LegExecution}
use omni_trade.Coordinator.Orchestrator.{
  Orchestrator, Report, filled, reconciled, report_status, submit,
}
use omni_trade.World.{Env, World}
use omni_trade.Funding.Runner.{Answer}

module _ ⦃fl : Float⦄ where
  -- The key `legs`; a dry run has it inside its key `plan`.
  abbrev pub report_legs : Report → List LegExecution
  report_legs (filled legs) = legs
  report_legs (reconciled r legs) = legs
  report_legs _ = []

  abbrev pub answer_of : String → Report → Answer
  answer_of id r = record {
    status = report_status r;
    intent_id = id;
    leg_ids = map (λ l. l.leg_id) (report_legs r);
  }

module _ ⦃fl : Float⦄ ⦃env : Env⦄ where
  -- `_submit`
  unfoldable pub submit_through : Orchestrator → Intent → Exec World Answer
  unfolding submit
  submit_through o i = do r ← submit o i false; pure (answer_of i.intent_id r)
