-- ===== src/Evaluate/WindowsGates/Decision.antt =====
-- sigmascope/evaluate/windows_gates.py: the decision of `evaluate_windows_audit` as a table.
use sigmascope.Base.{Bool, true, false, not, ◌||◌, List, [], ◌∷◌, ◌++◌, ◌≡◌, refl, arith}
use sigmascope.Base.{Text, lit, member, Option, none, some, is_none, ◌↔◌, ◌⊎◌, if◌then◌else◌}
use sigmascope.Model.{
  Gate, gate_text, ParseResult, Determinacy, Verdict, covered, degraded, not_covered,
}
use sigmascope.Model.{indeterminate}
use sigmascope.Evaluate.WindowsGates.{ChannelConfig, FieldGate, AuditProvider, find_gate, says}
use sigmascope.Evaluate.WindowsGates.{is_true, is_disabled, guid, evaluate_windows_audit}
use sigmascope.Evaluate.WindowsGates.{check_policy, check_state, check_field, finish_audit}
use sigmascope.Evaluate.WindowsGates.{judge_field, judge_policy}

-- The value of the subcategory: not found, not determinate, not among the required states, or
-- one of them.
pub data PolicyState : Type 0 where
  absent undetermined wrong right : PolicyState

-- The field gate: none is asked for, or it is not found, off or on.
pub data FieldState : Type 0 where
  unasked unfound off on : FieldState

abbrev pub found_field : Option Gate → FieldState
found_field none = unfound
found_field (some gate) = if is_true gate.value then on else off

abbrev pub field_state : Option FieldGate → List Gate → FieldState
field_state none registry = unasked
field_state (some field_gate) registry = found_field (find_gate registry field_gate.key)

abbrev pub has_caveat : Option Text → Bool
has_caveat none = false
has_caveat (some []) = false
has_caveat (some (c ∷ s)) = true

module _ (provider : AuditProvider) where
  abbrev pub found_policy : Option Gate → PolicyState
  found_policy none = absent
  found_policy (some gate) =
      if says gate.value (lit "unknown" ∷ lit "unchanged" ∷ [])
      then undetermined
      else if member (gate_text gate.value) provider.required_states
      then right
      else wrong

  abbrev pub policy_state : List Gate → PolicyState
  policy_state gates = found_policy (find_gate gates (lit "windows.audit." ++ guid provider))

-- The verdict by the channel (off, or not known), the policy, the field gate and the caveat, in
-- this order.
abbrev pub audit_verdict : Bool → Bool → PolicyState → FieldState → Bool → Verdict
audit_verdict true unclear policy field caveat = not_covered
audit_verdict false true policy field caveat = indeterminate
audit_verdict false false absent field caveat = indeterminate
audit_verdict false false undetermined field caveat = indeterminate
audit_verdict false false wrong field caveat = not_covered
audit_verdict false false right unfound caveat = indeterminate
audit_verdict false false right off caveat = degraded
audit_verdict false false right unasked caveat = if caveat then indeterminate else covered
audit_verdict false false right on caveat = if caveat then indeterminate else covered

finish_audit-verdict :
    (provider : AuditProvider) (evidence : List Gate)
    → (finish_audit provider evidence).0
      ≡ (if has_caveat provider.necessary_but_insufficient then indeterminate else covered)
unfolding finish_audit
finish_audit-verdict provider evidence = ground arith

judge_field-verdict :
    (provider : AuditProvider) (field_gate : FieldGate) (found : Option Gate) (evidence : List Gate)
    → (judge_field provider field_gate found evidence).0
      ≡ audit_verdict false false right
          (found_field found)
          (has_caveat provider.necessary_but_insufficient)
unfolding judge_field
judge_field-verdict provider field_gate none evidence = refl
judge_field-verdict provider field_gate (some gate) evidence =
    ground (arith, finish_audit-verdict provider (evidence ++ gate ∷ []))

check_field-verdict :
    (provider : AuditProvider) (field : Option FieldGate) (registry evidence : List Gate)
    → (check_field provider field registry evidence).0
      ≡ audit_verdict false false right
          (field_state field registry)
          (has_caveat provider.necessary_but_insufficient)
unfolding check_field
check_field-verdict provider none registry evidence = finish_audit-verdict provider evidence
check_field-verdict provider (some field_gate) registry evidence =
    judge_field-verdict provider field_gate (find_gate registry field_gate.key) evidence

judge_policy-verdict :
    (provider : AuditProvider) (found : Option Gate) (d : Determinacy) (registry : List Gate)
    → (judge_policy provider found d registry).0
      ≡ audit_verdict false false
          (found_policy provider found)
          (field_state provider.field_gate registry)
          (has_caveat provider.necessary_but_insufficient)
unfolding judge_policy check_state
judge_policy-verdict provider none d registry = refl
judge_policy-verdict provider (some gate) d registry =
    ground (arith, check_field-verdict provider provider.field_gate registry (gate ∷ []))

-- The verdict for every provider, policy, registry and channel, by the table `audit_verdict`: a
-- channel that is off decides first, then a channel that is not known, then the state of the
-- subcategory, then the field gate, and last the caveat that the audit policy does not suffice.
pub evaluate_windows_audit-verdict :
    (provider : AuditProvider) (audit_policy registry : ParseResult) (channel : ChannelConfig)
    → (evaluate_windows_audit provider audit_policy registry channel).0
      ≡ audit_verdict
          (is_disabled channel.enabled)
          (not (is_none channel.error) || is_none channel.enabled)
          (policy_state provider audit_policy.gates)
          (field_state provider.field_gate registry.gates)
          (has_caveat provider.necessary_but_insufficient)
unfolding evaluate_windows_audit check_policy
evaluate_windows_audit-verdict provider audit_policy registry channel = ground (
  arith,
  judge_policy-verdict provider
      (find_gate audit_policy.gates (lit "windows.audit." ++ guid provider))
      audit_policy.determinacy registry.gates,
)

-- What a COVERED verdict of the table takes.
audit_verdict-covered :
    (off_ unclear : Bool) (policy : PolicyState) (field : FieldState) (caveat : Bool)
    → (audit_verdict off_ unclear policy field caveat ≡ covered) ↔ (
        (off_ ≡ false)
        × (unclear ≡ false)
        × (policy ≡ right)
        × (caveat ≡ false)
        × ((field ≡ unasked) ⊎ (field ≡ on)))
audit_verdict-covered off_ unclear policy field caveat = ground arith

-- The verdict is COVERED exactly when the channel is known and not off, the policy's value for the
-- subcategory is determinate and required, the field gate is on if one is asked for, and there
-- is no caveat.
pub evaluate_windows_audit-covered :
    (provider : AuditProvider) (audit_policy registry : ParseResult) (channel : ChannelConfig)
    → ((evaluate_windows_audit provider audit_policy registry channel).0 ≡ covered) ↔ (
        (is_disabled channel.enabled ≡ false)
        × ((not (is_none channel.error) || is_none channel.enabled) ≡ false)
        × (policy_state provider audit_policy.gates ≡ right)
        × (has_caveat provider.necessary_but_insufficient ≡ false)
        × ((field_state provider.field_gate registry.gates ≡ unasked)
            ⊎ (field_state provider.field_gate registry.gates ≡ on)))
evaluate_windows_audit-covered provider audit_policy registry channel =
    rw evaluate_windows_audit-verdict (audit_verdict-covered _ _ _ _ _)
