-- ===== src/Checks/Others.antt =====
-- The parser of rules, Sysmon, the Windows audit policy and the resolver at concrete inputs.
use sigmascope.Base.{true, false, not, ◌||◌, List, [], ◌∷◌, ◌≡◌, refl, lit, ascii_python}
use sigmascope.Base.{In, here, there, ◌↔◌, ◌⊎◌, some, In-cons, inl, inr}
use sigmascope.Base.{is_none, splitlines, map, filter, ascii_upper}
use sigmascope.Evaluate.Sysmon.Filtering.Reported.{reported_gate}
use sigmascope.Evaluate.WindowsGates.{find_gate}
use sigmascope.Model.{gate_text}
use mathlib.Core.Option
use sigmascope.Model.{exclude, covered, not_covered, degraded, indeterminate}
use sigmascope.Model.{verdict_value, unknown, Rule, Verdict}
use sigmascope.Parse.AuditdRules.{is_blank, parse_auditd_rules}
use sigmascope.Parse.AuditdRules.Order.{Numbered, parse_auditd_rules-Numbered}
use sigmascope.Parse.AuditdRules.Complete.{parse_auditd_rules-raw}
use sigmascope.Evaluate.Sysmon.{evaluate_event_type, is_false, says_unknown}
use sigmascope.Evaluate.Sysmon.Filtering.{Promise, is_logged, evaluate_event_type-Promise}
use sigmascope.Evaluate.Sysmon.Filtering.{evaluate_event_type-eq-indeterminate}
use sigmascope.Evaluate.WindowsGates.{evaluate_windows_audit, is_disabled}
use sigmascope.Evaluate.WindowsGates.Decision.{evaluate_windows_audit-verdict}
use sigmascope.Evaluate.WindowsGates.Decision.{evaluate_windows_audit-covered}
use sigmascope.Evaluate.WindowsGates.Decision.{policy_state, field_state, has_caveat, right}
use sigmascope.Evaluate.WindowsGates.Decision.{unasked, on}
use sigmascope.Evaluate.Resolver.{Finding, ProviderResult, resolve_provider_disjunction}
use sigmascope.Evaluate.Resolver.Best.{AllValid, IsBest}
use sigmascope.Evaluate.Resolver.Decision.{Reports, resolve_provider_disjunction-Reports}
use sigmascope.Evaluate.Resolver.Decision.{resolve_provider_disjunction-same}
use sigmascope.Evaluate.Resolver.Decision.{resolve_provider_disjunction-satisfied}
use sigmascope.Checks.Data.{covering_text, result, logsource, security}
use sigmascope.Checks.Data.{security_channel, success_policy, gates_only, block, filter_of}
use sigmascope.Checks.Data.{sysmon_blocks}
use sigmascope.Checks.Compute.{rules_of, verdict_for, run_on}

parse_auditd_rules-Numbered_example : Numbered 0 (rules_of covering_text).rules
unfolding rules_of
parse_auditd_rules-Numbered_example =
    parse_auditd_rules-Numbered ascii_python (lit "auditctl -l") covering_text

parse_auditd_rules-raw_example :
    map (λ rule. rule.raw) (parse_auditd_rules ascii_python (lit "auditctl -l") covering_text).rules
    ≡ filter (λ line. not (is_blank line)) (splitlines covering_text)
unfolding rules_of
parse_auditd_rules-raw_example =
    parse_auditd_rules-raw ascii_python (lit "auditctl -l") covering_text refl

abbrev excluding : List Rule
excluding = block exclude (filter_of (lit "cmd.exe") ∷ []) ∷ []

evaluate_event_type-Promise_example :
    Promise (λ matches. is_logged matches (sysmon_blocks excluding) (lit "ProcessCreate")) degraded
unfolding run_on rules_of verdict_for evaluate_event_type
evaluate_event_type-Promise_example =
    evaluate_event_type-Promise (sysmon_blocks excluding) (lit "ProcessCreate")

evaluate_event_type-eq-indeterminate_example :
    ((evaluate_event_type (sysmon_blocks excluding) (lit "ProcessCreate")).0 ≡ indeterminate) ↔ (
      (is_false (reported_gate (sysmon_blocks excluding) (lit "ProcessCreate")) ≡ false)
      × ((says_unknown (reported_gate (sysmon_blocks excluding) (lit "ProcessCreate")) ≡ true)
          ⊎ ((sysmon_blocks excluding).determinacy ≡ unknown)))
evaluate_event_type-eq-indeterminate_example =
    evaluate_event_type-eq-indeterminate (sysmon_blocks excluding) (lit "ProcessCreate")

evaluate_windows_audit-verdict_example :
    (evaluate_windows_audit security success_policy (gates_only []) security_channel).0 ≡ covered
unfolding run_on rules_of verdict_for find_gate ascii_upper gate_text
evaluate_windows_audit-verdict_example =
    evaluate_windows_audit-verdict security success_policy (gates_only []) security_channel

evaluate_windows_audit-covered_example :
    ((evaluate_windows_audit security success_policy (gates_only []) security_channel).0 ≡ covered)
    ↔ ((is_disabled security_channel.enabled ≡ false)
        × ((not (is_none security_channel.error) || is_none security_channel.enabled) ≡ false)
        × (policy_state security success_policy.gates ≡ right)
        × (has_caveat security.necessary_but_insufficient ≡ false)
        × ((field_state security.field_gate (gates_only []).gates ≡ unasked)
            ⊎ (field_state security.field_gate (gates_only []).gates ≡ on)))
evaluate_windows_audit-covered_example =
    evaluate_windows_audit-covered security success_policy (gates_only []) security_channel

abbrev two : List ProviderResult
two = result (lit "sysmon") not_covered ∷ result (lit "windows_security") covered ∷ []

abbrev swapped : List ProviderResult
swapped =
    result (lit "windows_security") covered
    ∷ result (lit "sysmon") not_covered
    ∷ result (lit "windows_security") covered
    ∷ []

two-AllValid : AllValid two
two-AllValid item m = elim (In-cons m) [
  | inl e ↦ (not_covered, rw e refl)
  | inr n ↦ elim (In-cons n) [ inl e ↦ (covered, rw e refl) | inr k ↦ elim k [ ] ]
]

two-same : (item : ProviderResult) → In item two ↔ In item swapped
two-same item = (
  λ m. elim (In-cons m) [
    | inl e ↦ there (here e)
    | inr n ↦ elim (In-cons n) [ inl e ↦ here e | inr k ↦ elim k [ ] ]
  ],
  λ m. elim (In-cons m) [
    | inl e ↦ there (here e)
    | inr n ↦ elim (In-cons n) [
      | inl e ↦ here e
      | inr k ↦ elim (In-cons k) [ inl e ↦ there (here e) | inr j ↦ elim j [ ] ]
    ]
  ],
)

resolve_provider_disjunction-Reports_example :
    (f : Finding) × (v : Verdict) × (resolve_provider_disjunction logsource [] two ≡ some f)
    × Reports logsource [] two v f
    × ((two ≡ []) × (v ≡ indeterminate) ⊎ IsBest two v)
resolve_provider_disjunction-Reports_example =
    resolve_provider_disjunction-Reports logsource [] two two-AllValid

resolve_provider_disjunction-same_example :
    Option.map (λ f. f.verdict) (resolve_provider_disjunction logsource [] two)
    ≡ Option.map (λ f. f.verdict) (resolve_provider_disjunction logsource [] swapped)
resolve_provider_disjunction-same_example =
    resolve_provider_disjunction-same logsource [] two swapped two-AllValid two-same

resolve_provider_disjunction-satisfied_example :
    (Option.map (λ f. f.satisfied) (resolve_provider_disjunction logsource [] two) ≡ some true)
    ↔ ((item : ProviderResult) × In item two × (item.verdict ≡ verdict_value covered))
resolve_provider_disjunction-satisfied_example =
    resolve_provider_disjunction-satisfied logsource [] two two-AllValid
