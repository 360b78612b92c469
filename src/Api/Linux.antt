-- ===== src/Api/Linux.antt =====
-- sigmascope/api.py: `_run_linux`, over what `collect_auditd` of
-- sigmascope/collect/linux/auditd.py returned.
pub mod States
pub mod Conservative
pub mod Mappings
use sigmascope.Base.{ℕ, Bool, true, false, not, ◌&&◌, ◌||◌, List, [], ◌∷◌, ◌++◌, if◌then◌else◌}
use sigmascope.Base.{Option, none, some, Text, lit, ◌==◌, is_none, map, ℤ, pos, Python}
use sigmascope.Model.{CollectionError, Diagnostic, GateValue, int_value, bool_value, text_value}
use sigmascope.Model.{ParseResult, unparsed, Determinacy, effective, unknown}
use sigmascope.Model.{Verdict, covered, degraded, not_covered, indeterminate}
use sigmascope.Catalog.{AuditdProvider, Provider, auditd, Requirement}
use sigmascope.Parse.AuditdRules.{parse_auditd_rules}
use sigmascope.Parse.AuditdStatus.{parse_auditd_status}
use sigmascope.Evaluate.Auditd.ProcessCreation.{evaluate_process_creation, is_unknown}
use sigmascope.Evaluate.Auditd.FileWatch.{evaluate_file_watch}
use sigmascope.Evaluate.Sysmon.{gate_value}
use sigmascope.Evaluate.Resolver.{ProviderResult, Finding, resolve_provider_disjunction}
use sigmascope.Api.Evidence.{evidence_from_rules, evidence_from_gates, provider_result}

-- `AuditdCollection`
pub record AuditdCollection : Type 0 where
  pub installed : Option Bool
  pub effective_rules : Option Text
  pub status : Option Text
  pub errors : List CollectionError

abbrev pub parse_or_unknown : (Text → ParseResult) → Option Text → ParseResult
parse_or_unknown parse none = unparsed
parse_or_unknown parse (some text) = parse text

-- `value == 0`, which Python's False is too.
abbrev pub is_zero : Option GateValue → Bool
is_zero (some (int_value (pos ℕ.zero))) = true
is_zero (some (bool_value false)) = true
is_zero _ = false

abbrev pub is_not_installed : Option Bool → Bool
is_not_installed (some false) = true
is_not_installed _ = false

-- What `_run_linux` knows before its loop.
pub record LinuxState : Type 0 where
  pub arch : Text
  pub collection : AuditdCollection
  pub parsed : ParseResult
  pub status : ParseResult
  pub enabled : Option GateValue
  pub pid : Option GateValue

unfoldable pub linux_state : Python → Text → AuditdCollection → LinuxState
unfolding gate_value
linux_state py arch collection =
    let status = parse_or_unknown (parse_auditd_status py (lit "auditctl -s")) collection.status in
    record {
      arch = arch;
      collection = collection;
      parsed =
          parse_or_unknown (parse_auditd_rules py (lit "auditctl -l")) collection.effective_rules;
      status = status;
      enabled = gate_value status.gates (lit "auditd.enabled");
      pid = gate_value status.gates (lit "auditd.pid");
    }

-- The last three branches on a provider, by its requirement.
unfoldable pub evaluate_requirement : Python → LinuxState → Text → Verdict × Text
evaluate_requirement py state requirement =
    if requirement == lit "process_creation"
    then evaluate_process_creation py state.parsed state.arch
    else if requirement == lit "file_watch"
    then evaluate_file_watch state.parsed
    else (indeterminate, lit "Unknown auditd catalogue requirement.")

-- The branches on one provider.
unfoldable pub evaluate_auditd : Python → LinuxState → Text → Verdict × Text
evaluate_auditd py state requirement =
    if is_none state.collection.installed
    then (indeterminate, lit "auditd installation state could not be determined.")
    else if is_not_installed state.collection.installed
    then (not_covered, lit "auditd is not installed (auditctl was not found).")
    else if is_zero state.enabled
    then (not_covered, lit "auditd is installed, but the Linux audit subsystem is disabled.")
    else if is_zero state.pid
    then (not_covered, lit "auditd is installed, but the auditd daemon is not running.")
    else if is_unknown state.status.determinacy || is_none state.enabled || is_none state.pid
    then (indeterminate, lit "auditd is installed, but its runtime state could not be determined.")
    else if is_none state.collection.effective_rules
    then (
      indeterminate,
      lit "auditd is installed and running, but its effective rules could not be read.",
    )
    else evaluate_requirement py state requirement

-- The loop over the providers of a requirement; other kinds are passed over.
unfoldable pub auditd_outputs : Python → LinuxState → List Provider → List ProviderResult
auditd_outputs py state [] = []
auditd_outputs py state (auditd provider ∷ rest) =
    provider_result provider.source_id (evaluate_auditd py state provider.requirement)
      (evidence_from_gates state.status.gates ++ evidence_from_rules state.parsed)
    ∷ auditd_outputs py state rest
auditd_outputs py state (_ ∷ rest) = auditd_outputs py state rest

-- The loop over the requirements; `none` is the resolver's ValueError.
unfoldable pub linux_findings : Python → LinuxState → List Requirement → Option (List Finding)
linux_findings py state [] = some []
linux_findings py state (requirement ∷ rest) =
    elim (resolve_provider_disjunction requirement.logsource requirement.references
      (auditd_outputs py state requirement.providers)) [
        | none ↦ none
        | some finding ↦ elim (linux_findings py state rest) [
          | none ↦ none
          | some findings ↦ some (finding ∷ findings)
        ]
      ]

-- The findings, the diagnostics and the collection errors of a run.
pub record Outcome : Type 0 where
  pub findings : List Finding
  pub diagnostics : List Diagnostic
  pub errors : List CollectionError

abbrev pub linux_outcome : LinuxState → List Finding → Outcome
linux_outcome state findings = record {
  findings = findings;
  diagnostics = state.parsed.diagnostics ++ state.status.diagnostics;
  errors = state.collection.errors;
}

unfoldable pub run_linux : Python → List Requirement → Text → AuditdCollection → Option Outcome
run_linux py requirements arch collection =
    let state = linux_state py arch collection in
    elim (linux_findings py state requirements) [
      | none ↦ none
      | some findings ↦ some (linux_outcome state findings)
    ]
