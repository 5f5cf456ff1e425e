-- ===== src/Coordinator/StateMachine/Graph.antt =====
-- The transition table read as a graph over the states.
use omni_trade.Prelude.{◌≡◌, refl, ◌≤◌, length, Bool, true, false, List, [], ◌∷◌, arith}
use omni_trade.Exec.{returned}
use omni_trade.Coordinator.StateMachine.{
  IntentStatus, pending, validated, executing, all_filled, partial_filled, execute_timeout,
  rolling_back, rolled_back, rolled_back_failed, resolved_manual, rejected, name, is_terminal,
  is_valid_transition,
}

-- The table's rows over the states themselves.
unfoldable pub edge : IntentStatus → IntentStatus → Bool
edge pending validated = true
edge pending rejected = true
edge validated executing = true
edge validated rejected = true
edge executing all_filled = true
edge executing partial_filled = true
edge executing execute_timeout = true
edge partial_filled rolling_back = true
edge execute_timeout rolling_back = true
edge rolling_back rolled_back = true
edge rolling_back rolled_back_failed = true
edge rolled_back_failed resolved_manual = true
edge _ _ = false

pub is_valid_transition-name :
    (s t : IntentStatus) → is_valid_transition (name s) (name t) ≡ returned (edge s t)
unfolding is_valid_transition edge
is_valid_transition-name pending pending = refl
is_valid_transition-name pending _ = refl
is_valid_transition-name validated pending = refl
is_valid_transition-name validated _ = refl
is_valid_transition-name executing pending = refl
is_valid_transition-name executing _ = refl
is_valid_transition-name all_filled pending = refl
is_valid_transition-name all_filled _ = refl
is_valid_transition-name partial_filled pending = refl
is_valid_transition-name partial_filled _ = refl
is_valid_transition-name execute_timeout pending = refl
is_valid_transition-name execute_timeout _ = refl
is_valid_transition-name rolling_back pending = refl
is_valid_transition-name rolling_back _ = refl
is_valid_transition-name rolled_back pending = refl
is_valid_transition-name rolled_back _ = refl
is_valid_transition-name rolled_back_failed pending = refl
is_valid_transition-name rolled_back_failed _ = refl
is_valid_transition-name resolved_manual pending = refl
is_valid_transition-name resolved_manual _ = refl
is_valid_transition-name rejected pending = refl
is_valid_transition-name rejected _ = refl

-- The table allows the step from `s` to `t`.
abbrev pub Allows : IntentStatus → IntentStatus → Type 0
Allows s t = is_valid_transition (name s) (name t) ≡ returned true

-- The statuses `ts`, written one after another from `s` on, are allowed steps and end in `u`.
pub data Chain : IntentStatus → List IntentStatus → IntentStatus → Type 0 where
  stop : {s : IntentStatus} → Chain s [] s
  step :
      {s t u : IntentStatus} {ts : List IntentStatus}
      → Allows s t
      → Chain t ts u
      → Chain s (t ∷ ts) u

-- A terminal state is left only by the operator's acknowledgement of the blocking state.
terminal_absorbs :
    (s t : IntentStatus)
    → is_terminal s ≡ true
    → Allows s t
    → (s ≡ rolled_back_failed) × (t ≡ resolved_manual)
unfolding is_terminal edge
terminal_absorbs pending t h a = ground (arith, is_valid_transition-name pending t)
terminal_absorbs s t h a = ground (arith, is_valid_transition-name s t)

pub allows : (s t : IntentStatus) → edge s t ≡ true → Allows s t
allows s t e = ground (arith, is_valid_transition-name s t)

-- From every state the table has a way, of at most four steps, into a terminal state.
reaches_terminal :
    (s : IntentStatus)
    → (ts : List IntentStatus) × (t : IntentStatus) × Chain s ts t
      × (is_terminal t ≡ true)
      × (length ts ≤ 4)
unfolding is_terminal is_valid_transition
reaches_terminal pending = (rejected ∷ [], rejected, step refl stop, refl, omega arith)
reaches_terminal validated = (rejected ∷ [], rejected, step refl stop, refl, omega arith)
reaches_terminal executing = (all_filled ∷ [], all_filled, step refl stop, refl, omega arith)
reaches_terminal partial_filled =
    (rolling_back ∷ rolled_back ∷ [], rolled_back, step refl (step refl stop), refl, omega arith)
reaches_terminal execute_timeout =
    (rolling_back ∷ rolled_back ∷ [], rolled_back, step refl (step refl stop), refl, omega arith)
reaches_terminal rolling_back = (rolled_back ∷ [], rolled_back, step refl stop, refl, omega arith)
reaches_terminal all_filled = ([], all_filled, stop, refl, omega arith)
reaches_terminal rolled_back = ([], rolled_back, stop, refl, omega arith)
reaches_terminal rolled_back_failed = ([], rolled_back_failed, stop, refl, omega arith)
reaches_terminal resolved_manual = ([], resolved_manual, stop, refl, omega arith)
reaches_terminal rejected = ([], rejected, stop, refl, omega arith)
