-- ===== src/Checks/Runs.antt =====
-- Runs on Windows, the status of auditd and the exit status at concrete inputs.
use sigmascope.Base.{false, [], ◌∷◌, ◌++◌, ◌≡◌, refl, lit, ascii_python, some, none, Text}
use sigmascope.Base.{ℤ}
use sigmascope.Model.{int_value, not_covered, verdict_value}
use sigmascope.Catalog.{windows_mappings, catalog_version}
use sigmascope.Evaluate.Sysmon.{gate_value}
use sigmascope.Evaluate.Resolver.{Finding}
use sigmascope.Parse.AuditdStatus.{parse_auditd_status}
use sigmascope.Parse.AuditdStatus.Gates.{parse_auditd_status-gate_value}
use sigmascope.Api.Linux.{Outcome}
use sigmascope.Api.Policy.{native_policy_result}
use sigmascope.Api.Windows.{Channels, run_windows, windows_state}
use sigmascope.Api.Windows.Cache.{IsCache, names}
use sigmascope.Api.Windows.Asked.{add_channels}
use sigmascope.Api.Windows.Findings.{AnswersAll, run_windows-AnswersAll}
use sigmascope.Api.Windows.Mappings.{run_windows-mappings}
use sigmascope.Api.Run.{Report}
use sigmascope.Cli.{Args, table, fail_degraded, main, reported}
use sigmascope.Cli.Exit.{main-status}
use sigmascope.Checks.Data.{logsource, windows_host}
use sigmascope.Checks.Compute.{rules_of, verdict_for, run_on}

run_windows-AnswersAll_example :
    (o : Outcome) × (last : Channels) × (run_windows ascii_python windows_mappings windows_host
      ≡ some o)
    × (o.errors ≡ last.errors)
    × IsCache windows_host.channel_config
        ((native_policy_result windows_host.native windows_host.cli).1
          ++ windows_host.sysmon.errors)
        last
    × (names last.known
        ≡ add_channels
            (windows_state windows_host
              (native_policy_result windows_host.native windows_host.cli).0
              none)
            windows_mappings
            [])
    × AnswersAll
        (windows_state windows_host
          (native_policy_result windows_host.native windows_host.cli).0
          none)
        windows_mappings
        o.findings
run_windows-AnswersAll_example =
    run_windows-AnswersAll ascii_python windows_mappings windows_host refl

abbrev status_text : Text
status_text = lit "enabled 1\nfailure 1\npid 742\n"

parse_auditd_status-gate_value_example :
    ((n : ℤ) × (gate_value
          (parse_auditd_status ascii_python (lit "auditctl -s") status_text).gates
          (lit "auditd.enabled")
        ≡ some (int_value n)))
    × ((n : ℤ) × (gate_value
            (parse_auditd_status ascii_python (lit "auditctl -s") status_text).gates
            (lit "auditd.pid")
          ≡ some (int_value n)))
unfolding rules_of verdict_for run_on
parse_auditd_status-gate_value_example =
    parse_auditd_status-gate_value ascii_python (lit "auditctl -s") status_text refl

abbrev args : Args
args = record {
  format = table;
  fail_on = fail_degraded;
  print_schema = false;
  print_catalog_version = false;
}

abbrev uncovered : Finding
uncovered = record {
  logsource = logsource;
  verdict = verdict_value not_covered;
  satisfied = false;
  explanation = lit "Sysmon is not installed.";
  providers = [];
  references = [];
}

abbrev report : Report
report = record {
  schema_version = lit "0.1";
  generated_utc = lit "2026-01-01T00:00:00Z";
  tool_version = lit "0.1.0";
  catalog_version = catalog_version;
  layer = lit "generation";
  host = record {
    hostname = lit "host";
    os = lit "windows";
    os_version = lit "11";
    arch = lit "AMD64";
  };
  findings = uncovered ∷ [];
  diagnostics = [];
  collection_errors = [];
}

main-status_example : (main (λ r. []) none args (reported report)).status ≡ 3
unfolding rules_of
main-status_example = main-status (λ r. []) none args report (not_covered ∷ []) refl refl refl

run_windows-mappings_example :
    (o : Outcome) × (f : Finding) × (g : Finding) × (h : Finding) × (run_windows ascii_python
        windows_mappings windows_host
      ≡ some o)
    × (o.findings ≡ f ∷ g ∷ h ∷ [])
    × (h.logsource.category ≡ lit "file_event")
    × (h.satisfied ≡ false)
run_windows-mappings_example = run_windows-mappings ascii_python windows_host refl
