-- ===== src/Collect/Windows/Registry/Answers.antt =====
-- sigmascope/collect/windows/registry.py: what the gate says where an entry of the catalogue asks
-- for it.
use sigmascope.Base.{if◌then◌else◌}
use sigmascope.Base.{Bool, true, false, ◌≡◌, refl, arith, Text, lit, eq_refl, find, some}
use sigmascope.Evaluate.WindowsGates.{FieldGate, find_gate}
use sigmascope.Evaluate.WindowsGates.Decision.{field_state, FieldState, unfound, on, off}
use sigmascope.Collect.Windows.Registry.{RegistryAnswer, found, missing, failed, truth}
use sigmascope.Collect.Windows.Registry.{
  audit_path, include_name, registry_gates, collect_registry_gates,
}

-- The state of the field by the answer of the registry.
abbrev pub answer_state : RegistryAnswer → FieldState
answer_state (found value) = if truth value then on else off
answer_state missing = off
answer_state (failed message) = unfound

registry_gates-answer_state :
    (explanation : Text) (answer : RegistryAnswer)
    → field_state
        (some (record {
          key = lit "windows.process_creation.include_command_line";
          explanation = explanation;
        }))
        (registry_gates answer).gates
      ≡ answer_state answer
unfolding find_gate find
registry_gates-answer_state explanation (found value) =
    ground (arith, eq_refl (lit "windows.process_creation.include_command_line"))
registry_gates-answer_state explanation missing =
    ground (arith, eq_refl (lit "windows.process_creation.include_command_line"))
registry_gates-answer_state explanation (failed message) = refl

-- Where an entry asks for the gate of the process command line, the field is on if the registry has
-- a value that Python takes for true, off if it has another value or none, and not found if the
-- registry cannot be read or the platform is not Windows.
pub collect_registry_gates-answer_state :
    (is_windows : Bool) (query_value : Text → Text → RegistryAnswer) (field : FieldGate)
    → field.key ≡ lit "windows.process_creation.include_command_line"
    → field_state (some field) (collect_registry_gates is_windows query_value).gates
      ≡ (if is_windows then answer_state (query_value audit_path include_name) else unfound)
unfolding collect_registry_gates find_gate find
collect_registry_gates-answer_state false query_value field e = refl
collect_registry_gates-answer_state true query_value field e =
    rw e (registry_gates-answer_state field.explanation (query_value audit_path include_name))
