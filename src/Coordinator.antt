-- ===== src/Coordinator.antt =====
-- src/coordinator: the pipeline from an intent to a coordinated final state.
pub mod StateMachine
pub mod AccountType
pub mod Intent
pub mod Plan
pub mod Planner
pub mod Validator
pub mod Risk
pub mod Leg
pub mod Executor
pub mod Reconciler
pub mod Orchestrator
