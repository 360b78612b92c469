-- ===== src/Collect/Windows/Registry.antt =====
-- sigmascope/collect/windows/registry.py, over the platform and the registry.
pub mod Answers
use sigmascope.Base.{
  ℕ, Bool, true, false, not, List, [], ◌∷◌, ◌++◌, if◌then◌else◌, nat_beq, is_empty,
}
use sigmascope.Base.{Text, lit, Bytes, Option, none, some}
use sigmascope.Model.{
  Origin, Gate, bool_value, Diagnostic, warn, ParseResult, effective, unknown, unparsed,
}

-- What `winreg.QueryValueEx` gives, by the type of the value.
pub data RegistryData : Type 0 where
  number : ℕ → RegistryData
  text : Text → RegistryData
  texts : List Text → RegistryData
  binary : Option Bytes → RegistryData

-- `bool(value)`
abbrev pub truth : RegistryData → Bool
truth (number n) = not (nat_beq n 0)
truth (text s) = not (is_empty s)
truth (texts ss) = not (is_empty ss)
truth (binary none) = false
truth (binary (some b)) = not (is_empty b)

-- `winreg.OpenKey` and `winreg.QueryValueEx`: the value, FileNotFoundError, or another OSError
-- with its text.
pub data RegistryAnswer : Type 0 where
  found : RegistryData → RegistryAnswer
  missing : RegistryAnswer
  failed : Text → RegistryAnswer

-- `PROCESS_COMMAND_LINE`
abbrev pub audit_path : Text
audit_path = lit "SOFTWARE\\Microsoft\\Windows\\CurrentVersion\\Policies\\System\\Audit"

abbrev pub include_name : Text
include_name = lit "ProcessCreationIncludeCmdLine_Enabled"

abbrev pub registry_origin : Origin
registry_origin = record {
  resource = lit "windows.registry";
  locator = lit "HKLM\\" ++ audit_path ++ lit "\\" ++ include_name;
}

abbrev pub include_gate : Bool → ParseResult
include_gate value = record {
  determinacy = effective;
  gates =
      record {
        key = lit "windows.process_creation.include_command_line";
        value = bool_value value;
        origin = registry_origin;
      }
      ∷ [];
  rules = [];
  diagnostics = [];
}

abbrev pub registry_gates : RegistryAnswer → ParseResult
registry_gates (found value) = include_gate (truth value)
registry_gates missing = include_gate false
registry_gates (failed message) = record {
  determinacy = unknown;
  gates = [];
  rules = [];
  diagnostics =
      record { severity = warn; message = message; origin = registry_origin; raw = [] } ∷ [];
}

unfoldable pub collect_registry_gates : Bool → (Text → Text → RegistryAnswer) → ParseResult
collect_registry_gates is_windows query_value =
    if not is_windows then unparsed else registry_gates (query_value audit_path include_name)
