-- ===== src/Api/Windows.antt =====
-- sigmascope/api.py: `_run_windows`, over what the collectors returned. The state of the event
-- channels is a function of the channel's name, asked once for each name.
pub mod Cache
pub mod Asked
pub mod Findings
pub mod Mappings
use sigmascope.Base.{Bool, true, false, not, ◌||◌, List, [], ◌∷◌, ◌++◌, if◌then◌else◌}
use sigmascope.Base.{Option, none, some, Text, lit, ◌==◌, is_none, Python}
use sigmascope.Model.{CollectionError, Diagnostic, ParseResult}
use sigmascope.Model.{Verdict, not_covered, indeterminate}
use sigmascope.Catalog.{SysmonProvider, Provider, windows_audit, sysmon, Requirement}
use sigmascope.Evaluate.WindowsGates.{ChannelConfig, AuditProvider, evaluate_windows_audit}
use sigmascope.Evaluate.WindowsGates.{is_disabled}
use sigmascope.Evaluate.Sysmon.{evaluate_event_type}
use sigmascope.Evaluate.Resolver.{Evidence, ProviderResult, Finding, resolve_provider_disjunction}
use sigmascope.Parse.SysmonCurrent.{parse_sysmon_current}
use sigmascope.Api.Evidence.{evidence_from_rules, evidence_from_gates, provider_result}
use sigmascope.Api.Linux.{Outcome}
use sigmascope.Api.Policy.{NativeAuditPolicy, AuditpolCliCollection, native_policy_result}
use sigmascope.Api.Policy.{error_list}

-- `SysmonCollection`, with the configuration decoded.
pub record SysmonCollection : Type 0 where
  pub installed : Option Bool
  pub running : Option Bool
  pub current_config : Option Text
  pub errors : List CollectionError

-- What the other collectors returned.
pub record WindowsHost : Type 0 where
  pub native : NativeAuditPolicy
  pub cli : AuditpolCliCollection
  pub registry : ParseResult
  pub sysmon : SysmonCollection
  pub channel_config : Text → ChannelConfig

-- What `_run_windows` knows before its loop.
pub record WindowsState : Type 0 where
  pub audit_policy : ParseResult
  pub registry : ParseResult
  pub sysmon : SysmonCollection
  pub sysmon_parsed : Option ParseResult
  pub channel_config : Text → ChannelConfig

-- The dict `channels`, and the errors so far.
pub record Channels : Type 0 where
  pub known : List (Text × ChannelConfig)
  pub errors : List CollectionError

unfoldable pub lookup_channel : Text → List (Text × ChannelConfig) → Option ChannelConfig
lookup_channel name [] = none
lookup_channel name ((k, config) ∷ rest) =
    if k == name then some config else lookup_channel name rest

-- The inner function `channel`.
unfoldable pub channel : (Text → ChannelConfig) → Text → Channels → ChannelConfig × Channels
unfolding lookup_channel
channel get_channel_config name channels = elim (lookup_channel name channels.known) [
  | some config ↦ (config, channels)
  | none ↦
      let config = get_channel_config name in
      (
        config,
        record {
          known = channels.known ++ (name, config) ∷ [];
          errors = channels.errors ++ error_list config.error;
        },
      )
]

abbrev pub is_no : Option Bool → Bool
is_no (some false) = true
is_no _ = false

-- The verdict where the configuration of Sysmon was read, by its Operational channel.
unfoldable pub evaluate_sysmon_channel : ParseResult → Text → ChannelConfig → Verdict × Text
evaluate_sysmon_channel parsed event_type config =
    if is_disabled config.enabled
    then (
      not_covered,
      lit "Sysmon is installed and running, but its Operational channel is disabled.",
    )
    else if not (is_none config.error) || is_none config.enabled
    then (
      indeterminate,
      lit
          "Sysmon is installed and running, but its Operational channel state could not be determined.",
    )
    else evaluate_event_type parsed event_type

-- The verdict where it was not read, if so.
unfoldable pub sysmon_unavailable : SysmonCollection → Option ParseResult → Option (Verdict × Text)
sysmon_unavailable collection parsed =
    if is_no collection.installed
    then some (not_covered, lit "Sysmon is not installed.")
    else if is_none collection.installed
    then some (indeterminate, lit "Sysmon installation state could not be determined.")
    else if is_no collection.running
    then some (not_covered, lit "Sysmon is installed, but its service is not running.")
    else if is_none collection.running
    then some
        (indeterminate, lit "Sysmon is installed, but its service state could not be determined.")
    else if is_none parsed
    then some (
      indeterminate,
      lit "Sysmon is installed and running, but its effective configuration could not be read.",
    )
    else none

-- A verdict, its explanation and its evidence.
abbrev pub Judged : Type 0
Judged = (Verdict × Text) × List Evidence

module _ (state : WindowsState) where
  unfoldable pub judge_audit : AuditProvider → Channels → Judged × Channels
  unfolding channel
  judge_audit provider channels =
      let (config, next) = channel state.channel_config provider.channel channels in
      let (verdict, explanation, gates) =
        evaluate_windows_audit provider state.audit_policy state.registry config in
      (((verdict, explanation), evidence_from_gates gates), next)

  unfoldable pub judge_parsed : ParseResult → SysmonProvider → Channels → Judged × Channels
  unfolding channel
  judge_parsed parsed provider channels =
      let (config, next) = channel state.channel_config provider.channel channels in
      (
        (
          evaluate_sysmon_channel parsed provider.event_type config,
          evidence_from_rules parsed ++ evidence_from_gates parsed.gates,
        ),
        next,
      )

  -- Without a configuration no channel is asked and there is no evidence. The last branch is not
  -- reached: `sysmon_unavailable` has answered where nothing was parsed.
  abbrev pub judge_sysmon_by :
      Option (Verdict × Text) → Option ParseResult → SysmonProvider → Channels → Judged × Channels
  judge_sysmon_by (some result) parsed provider channels = ((result, []), channels)
  judge_sysmon_by none (some parsed) provider channels = judge_parsed parsed provider channels
  judge_sysmon_by none none provider channels = (((indeterminate, []), []), channels)

  unfoldable pub judge_sysmon : SysmonProvider → Channels → Judged × Channels
  unfolding sysmon_unavailable judge_parsed
  judge_sysmon provider channels =
      judge_sysmon_by (sysmon_unavailable state.sysmon state.sysmon_parsed) state.sysmon_parsed
        provider channels

  abbrev pub output : Text → Judged → ProviderResult
  output source_id (result, evidence) = provider_result source_id result evidence

  -- The loop over the providers of a requirement.
  unfoldable pub windows_outputs : List Provider → Channels → List ProviderResult × Channels
  unfolding judge_audit judge_sysmon
  windows_outputs [] channels = ([], channels)
  windows_outputs (windows_audit provider ∷ rest) channels =
      let (judged, next) = judge_audit provider channels in
      let (outputs, last) = windows_outputs rest next in
      (output provider.source_id judged ∷ outputs, last)
  windows_outputs (sysmon provider ∷ rest) channels =
      let (judged, next) = judge_sysmon provider channels in
      let (outputs, last) = windows_outputs rest next in
      (output provider.source_id judged ∷ outputs, last)
  windows_outputs (_ ∷ rest) channels = windows_outputs rest channels

  abbrev pub add_finding :
      Option Finding → Option (List Finding × Channels) → Option (List Finding × Channels)
  add_finding none rest = none
  add_finding (some finding) none = none
  add_finding (some finding) (some (findings, channels)) = some (finding ∷ findings, channels)

  -- The loop over the requirements; `none` is the resolver's ValueError.
  unfoldable pub windows_findings : List Requirement → Channels → Option (List Finding × Channels)
  unfolding windows_outputs
  windows_findings [] channels = some ([], channels)
  windows_findings (requirement ∷ rest) channels =
      let (outputs, next) = windows_outputs requirement.providers channels in
      add_finding
        (resolve_provider_disjunction requirement.logsource requirement.references outputs)
        (windows_findings rest next)

abbrev pub parsed_diagnostics : Option ParseResult → List Diagnostic
parsed_diagnostics none = []
parsed_diagnostics (some parsed) = parsed.diagnostics

-- The configuration, parsed if there is one; `none` is the parser's ValueError.
abbrev pub parse_config : Python → Option Text → Option (Option ParseResult)
parse_config py none = some none
parse_config py (some text) = elim (parse_sysmon_current py (lit "sysmon -c") text) [
  | none ↦ none
  | some parsed ↦ some (some parsed)
]

abbrev pub windows_state : WindowsHost → ParseResult → Option ParseResult → WindowsState
windows_state host audit_policy sysmon_parsed = record {
  audit_policy = audit_policy;
  registry = host.registry;
  sysmon = host.sysmon;
  sysmon_parsed = sysmon_parsed;
  channel_config = host.channel_config;
}

unfoldable pub windows_outcome :
    List Requirement
    → WindowsHost
    → ParseResult × List CollectionError
    → Option ParseResult
    → Option Outcome
unfolding windows_findings
windows_outcome requirements host (audit_policy, audit_errors) sysmon_parsed =
    let state = windows_state host audit_policy sysmon_parsed in
    let start : Channels = record { known = []; errors = audit_errors ++ host.sysmon.errors } in
    elim (windows_findings state requirements start) [
      | none ↦ none
      | some (findings, channels) ↦ some (record {
        findings = findings;
        diagnostics =
            audit_policy.diagnostics
            ++ (host.registry.diagnostics ++ parsed_diagnostics sysmon_parsed);
        errors = channels.errors;
      })
    ]

unfoldable pub run_windows : Python → List Requirement → WindowsHost → Option Outcome
unfolding windows_outcome native_policy_result
run_windows py requirements host = elim (parse_config py host.sysmon.current_config) [
  | none ↦ none
  | some sysmon_parsed ↦
      windows_outcome requirements host (native_policy_result host.native host.cli) sysmon_parsed
]
