-- ===== src/Evaluate/WindowsGates.antt =====
-- sigmascope/evaluate/windows_gates.py, with `ChannelConfig` of
-- sigmascope/collect/windows/channels.py. A catalogue entry is typed, so that its required keys
-- are there.
pub mod Decision
use sigmascope.Base.{Bool, true, false, not, ◌||◌, List, [], ◌∷◌, ◌++◌, if◌then◌else◌}
use sigmascope.Base.{Option, none, some, Text, lit, ◌==◌, member, find, join, sorted_set, is_none}
use sigmascope.Base.{ascii_upper}
use sigmascope.Model.{CollectionError, Gate, GateValue, text_value, bool_value, gate_text}
use sigmascope.Model.{ParseResult, Determinacy, effective, unknown}
use sigmascope.Model.{Verdict, covered, degraded, not_covered, indeterminate}

pub record ChannelConfig : Type 0 where
  pub enabled : Option Bool
  pub error : Option CollectionError

pub record FieldGate : Type 0 where
  pub key : Text
  pub explanation : Text

-- A provider of kind "windows_audit"; the last two keys are optional.
pub record AuditProvider : Type 0 where
  pub source_id : Text
  pub subcategory_guid : Text
  pub required_states : List Text
  pub channel : Text
  pub field_gate : Option FieldGate
  pub necessary_but_insufficient : Option Text

unfoldable pub find_gate : List Gate → Text → Option Gate
find_gate gates key = find (λ g. g.key == key) gates

abbrev pub says : GateValue → List Text → Bool
says (text_value s) words = member s words
says _ words = false

abbrev pub is_true : GateValue → Bool
is_true (bool_value true) = true
is_true _ = false

abbrev pub is_disabled : Option Bool → Bool
is_disabled (some false) = true
is_disabled _ = false

-- `str(insufficient)` counts if it is a text that is not empty.
abbrev pub caveat :
    Option Text → List Gate → Verdict × Text × List Gate → Verdict × Text × List Gate
caveat none evidence result = result
caveat (some []) evidence result = result
caveat (some (c ∷ s)) evidence result = (indeterminate, c ∷ s, evidence)

abbrev pub Evaluation : Type 0
Evaluation = Verdict × Text × List Gate

module _ (provider : AuditProvider) where
  abbrev pub guid : Text
  guid = ascii_upper provider.subcategory_guid

  -- The last two steps, with the evidence so far.
  unfoldable pub finish_audit : List Gate → Evaluation
  finish_audit evidence = caveat provider.necessary_but_insufficient evidence (
    covered,
    lit "Windows Security auditing is enabled for subcategory " ++ (guid ++ lit "."),
    evidence,
  )

  -- The field gate and what was found of it.
  unfoldable pub judge_field : FieldGate → Option Gate → List Gate → Evaluation
  unfolding finish_audit
  judge_field field_gate none evidence = (
    indeterminate,
    lit "Windows Security auditing is enabled, but field gate "
        ++ field_gate.key
        ++ lit " could not be determined.",
    evidence,
  )
  judge_field field_gate (some gate) evidence =
      if not (is_true gate.value)
      then (degraded, field_gate.explanation, evidence ++ gate ∷ [])
      else finish_audit (evidence ++ gate ∷ [])

  unfoldable pub check_field : Option FieldGate → List Gate → List Gate → Evaluation
  unfolding judge_field
  check_field none registry evidence = finish_audit evidence
  check_field (some field_gate) registry evidence =
      judge_field field_gate (find_gate registry field_gate.key) evidence

  unfoldable pub check_state : List Gate → Gate → Evaluation
  unfolding check_field
  check_state registry audit_gate =
      if says audit_gate.value (lit "unknown" ∷ lit "unchanged" ∷ [])
      then (
        indeterminate,
        lit "Windows Security auditing is present, but audit subcategory "
            ++ guid
            ++ lit " has no determinate effective state.",
        audit_gate ∷ [],
      )
      else if not (member (gate_text audit_gate.value) provider.required_states)
      then (
        not_covered,
        lit "Windows Security auditing is present, but audit subcategory "
            ++ guid
            ++ lit " is "
            ++ gate_text audit_gate.value
            ++ lit "; required state is "
            ++ join (lit " or ") (sorted_set provider.required_states)
            ++ lit ".",
        audit_gate ∷ [],
      )
      else check_field provider.field_gate registry (audit_gate ∷ [])

  abbrev pub missing_message : Determinacy → Text
  missing_message unknown =
      lit
        "Windows Security auditing is present, but effective audit policy could not be determined."
  missing_message effective =
      lit "Windows Security auditing is present, but audit subcategory "
      ++ guid
      ++ lit " was not found in the effective policy."

  -- The subcategory's gate, if it was found.
  unfoldable pub judge_policy : Option Gate → Determinacy → List Gate → Evaluation
  unfolding check_state
  judge_policy none determinacy registry = (indeterminate, missing_message determinacy, [])
  judge_policy (some audit_gate) determinacy registry = check_state registry audit_gate

  unfoldable pub check_policy : ParseResult → ParseResult → Evaluation
  unfolding judge_policy find_gate
  check_policy audit_policy registry =
      judge_policy (find_gate audit_policy.gates (lit "windows.audit." ++ guid))
        audit_policy.determinacy registry.gates

  unfoldable pub evaluate_windows_audit : ParseResult → ParseResult → ChannelConfig → Evaluation
  unfolding check_policy
  evaluate_windows_audit audit_policy registry channel =
      if is_disabled channel.enabled
      then (
        not_covered,
        lit "Windows Security auditing is present, but channel "
            ++ provider.channel
            ++ lit " is disabled.",
        [],
      )
      else if not (is_none channel.error) || is_none channel.enabled
      then (
        indeterminate,
        lit "Windows Security auditing is present, but channel "
            ++ provider.channel
            ++ lit " state could not be determined.",
        [],
      )
      else check_policy audit_policy registry
