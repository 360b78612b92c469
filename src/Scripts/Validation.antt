-- ===== src/Scripts/Validation.antt =====
-- scripts/manual_windows_validation.py: `main`, over what the two collectors return.
pub mod Agreement
use sigmascope.Base.{
  ℕ, Bool, true, false, not, List, [], ◌∷◌, ◌++◌, if◌then◌else◌, Text, lit, ◌==◌, nat_text, length,
}
use sigmascope.Base.{Option, none, some, ascii_upper, drop, map}
use sigmascope.Model.{CollectionError, Gate, gate_text, ParseResult}
use sigmascope.Api.Policy.{NativeAuditPolicy, AuditpolCliCollection}
use sigmascope.Parse.SysmonCurrent.Patterns.{starts_with}

-- `key.removeprefix("windows.audit.").upper()`; keys are ASCII.
unfoldable pub cli_key : Text → Text
unfolding starts_with
cli_key key = ascii_upper (if starts_with (lit "windows.audit.") key then drop 14 key else key)

-- `cli_states.get(guid)`: of gates with the same key the last is in the dict.
unfoldable pub cli_state : List Gate → Text → Option Text
unfolding cli_key gate_text
cli_state [] guid = none
cli_state (gate ∷ gates) guid = elim (cli_state gates guid) [
  | some state ↦ some state
  | none ↦ if cli_key gate.key == guid then some (gate_text gate.value) else none
]

-- The three results of the loop, from one item on.
pub record Compared : Type 0 where
  pub mismatches : List (Text × Text × Option Text)
  pub ambiguous : List Text
  pub matched : ℕ

-- What the loop does with an item: passes over it as ambiguous, or finds that the states differ or
-- agree.
pub data Outcome : Type 0 where
  unclear differ agree : Outcome

abbrev pub compare_state : Option Text → Text → Outcome
compare_state none state = differ
compare_state (some cli) state =
    if cli == lit "unknown" then unclear else if cli == state then agree else differ

abbrev pub count_item : Text × Text → Option Text → Outcome → Compared → Compared
count_item (guid, state) cli unclear rest = record (rest) { ambiguous = guid ∷ rest.ambiguous }
count_item (guid, state) cli differ rest = record (rest) {
  mismatches = (guid, state, cli) ∷ rest.mismatches;
}
count_item (guid, state) cli agree rest = record (rest) { matched = ℕ.suc rest.matched }

unfoldable pub compare_states : List Gate → List (Text × Text) → Compared
unfolding cli_state
compare_states gates [] = record { mismatches = []; ambiguous = []; matched = 0 }
compare_states gates ((guid, state) ∷ items) =
    let cli = cli_state gates (ascii_upper guid) in
    count_item (guid, state) cli (compare_state cli state) (compare_states gates items)

-- `f"{cli_state}"`
abbrev pub state_text : Option Text → Text
state_text none = lit "None"
state_text (some state) = state

abbrev pub mismatch_line : Text × Text × Option Text → Text
mismatch_line (guid, state, cli) =
    guid ++ (lit ": native=" ++ (state ++ (lit " cli=" ++ state_text cli)))

-- The result and the lines that are printed, behind the comparison.
abbrev pub conclude_by : Compared → List (Text × Text × Option Text) → ℕ × List Text
conclude_by compared (m ∷ ms) = (3, map mismatch_line (m ∷ ms))
conclude_by compared [] = (
  0,
  (lit "native and auditpol agree for "
        ++ (nat_text compared.matched
            ++ (lit " determinate mapped subcategories; "
                ++ (nat_text (length compared.ambiguous)
                    ++ lit " auditpol state(s) were ambiguous"))))
      ∷ [],
)

abbrev pub conclude : Compared → ℕ × List Text
conclude compared = conclude_by compared compared.mismatches

abbrev pub cli_failure : Option CollectionError → ℕ × List Text
cli_failure none = (1, lit "CLI collection failed: CLI parse unavailable" ∷ [])
cli_failure (some e) = (1, (lit "CLI collection failed: " ++ e.message) ∷ [])

abbrev pub validate_cli :
    List (Text × Text) → Option CollectionError → Option ParseResult → ℕ × List Text
validate_cli states (some e) parsed = cli_failure (some e)
validate_cli states none none = cli_failure none
validate_cli states none (some parsed) = conclude (compare_states parsed.gates states)

unfoldable pub validate : Bool → NativeAuditPolicy → AuditpolCliCollection → ℕ × List Text
unfolding compare_states
validate is_windows native cli =
    if not is_windows then (2, lit "Windows only" ∷ []) else elim native.error [
      | some e ↦ (1, (lit "native collection failed: " ++ e.message) ∷ [])
      | none ↦ validate_cli native.states cli.error cli.parsed
    ]
