-- ===== src/Coordinator/StateMachine.antt =====
-- src/coordinator/state_machine.py: the states of intents and legs, and the transition table.
pub mod Graph
use omni_trade.Prelude.{String, Bool, true, false, ◌==◌, List, [], ◌∷◌, any, if◌then◌else◌}
use omni_trade.Exec.{Outcome, returned, raised, value_error}

-- The states of an intent. `EXECUTE_TIMEOUT` occurs in the transition table alone.
pub data IntentStatus : Type 0 where
  pending validated executing all_filled partial_filled execute_timeout rolling_back : IntentStatus
  rolled_back rolled_back_failed resolved_manual rejected : IntentStatus

pub data LegStatus : Type 0 where
  pending_send sent filled partial_filled rejected timeout cancelled : LegStatus
  compensating compensated compensation_failed : LegStatus

-- The text that the table and the database hold for a state.
abbrev pub name : IntentStatus → String
name pending = "PENDING"
name validated = "VALIDATED"
name executing = "EXECUTING"
name all_filled = "ALL_FILLED"
name partial_filled = "PARTIAL_FILLED"
name execute_timeout = "EXECUTE_TIMEOUT"
name rolling_back = "ROLLING_BACK"
name rolled_back = "ROLLED_BACK"
name rolled_back_failed = "ROLLED_BACK_FAILED"
name resolved_manual = "RESOLVED_MANUAL"
name rejected = "REJECTED"

abbrev pub terminal_states : List String
terminal_states =
    "ALL_FILLED" ∷ "ROLLED_BACK" ∷ "ROLLED_BACK_FAILED" ∷ "RESOLVED_MANUAL" ∷ "REJECTED" ∷ []

abbrev pub blocking_state : IntentStatus
blocking_state = rolled_back_failed

unfoldable pub is_in : List String → String → Bool
is_in [] s = false
is_in (t ∷ ts) s = if t == s then true else is_in ts s

unfoldable pub is_terminal : IntentStatus → Bool
unfolding is_in
is_terminal s = is_in terminal_states (name s)

abbrev pub transitions : List (String × List String)
transitions =
    ("PENDING", "VALIDATED" ∷ "REJECTED" ∷ [])
    ∷ ("VALIDATED", "EXECUTING" ∷ "REJECTED" ∷ [])
    ∷ ("EXECUTING", "ALL_FILLED" ∷ "PARTIAL_FILLED" ∷ "EXECUTE_TIMEOUT" ∷ [])
    ∷ ("PARTIAL_FILLED", "ROLLING_BACK" ∷ [])
    ∷ ("EXECUTE_TIMEOUT", "ROLLING_BACK" ∷ [])
    ∷ ("ROLLING_BACK", "ROLLED_BACK" ∷ "ROLLED_BACK_FAILED" ∷ [])
    ∷ ("ALL_FILLED", [])
    ∷ ("ROLLED_BACK", [])
    ∷ ("ROLLED_BACK_FAILED", "RESOLVED_MANUAL" ∷ [])
    ∷ ("RESOLVED_MANUAL", [])
    ∷ ("REJECTED", [])
    ∷ []

-- `_TRANSITIONS.get(from_state)`, and the exception for a state that is not there.
unfoldable pub allowed_from : List (String × List String) → String → String → Outcome Bool
unfolding is_in
allowed_from [] from_state to_state = raised value_error
allowed_from ((s, targets) ∷ rest) from_state to_state =
    if s == from_state
    then returned (is_in targets to_state)
    else allowed_from rest from_state to_state

unfoldable pub is_valid_transition : String → String → Outcome Bool
unfolding allowed_from
is_valid_transition from_state to_state = allowed_from transitions from_state to_state
