-- ===== src/Scripts/Validation/Agreement.antt =====
-- scripts/manual_windows_validation.py: when the two policies agree.
use sigmascope.Base.{ℕ, Bool, false, ◌||◌, List, Text, Option, none, some}
use sigmascope.Base.{all, length, ◌+◌, ascii_upper, lit, ◌==◌}
use sigmascope.Model.{Gate}
use sigmascope.Scripts.Validation.{cli_state, Compared}

-- Whether auditpol gives the state, or one that is not clear.
abbrev pub is_consistent : Option Text → Text → Bool
is_consistent none state = false
is_consistent (some cli) state = cli == lit "unknown" || cli == state

abbrev pub all_consistent : List Gate → List (Text × Text) → Bool
all_consistent gates states =
    all (λ item. is_consistent (cli_state gates (ascii_upper item.0)) item.1) states

abbrev total : Compared → ℕ
total c = length c.mismatches + length c.ambiguous + c.matched
