-- ===== src/Checks/Collect.antt =====
-- The collectors at hosts that are written out.
use sigmascope.Base.{
  true, false, List, [], ◌∷◌, ◌≡◌, refl, some, none, Text, lit, pos, ascii_python, ◌↔◌,
}
use sigmascope.Base.{◌==◌, here, if◌then◌else◌, find}
use sigmascope.Base.{decode_utf8, dirname, is_empty, is_none, not, ◌&&◌, ◌||◌, ◌++◌}
use sigmascope.Base.{arith}
use sigmascope.Catalog.{linux_mappings, mappings_by_os}
use sigmascope.Api.Linux.{linux_state}
use sigmascope.Evaluate.Auditd.Kernel.{is_audited}
use sigmascope.Parse.AuditdRules.{parse_auditd_rules}
use sigmascope.Collect.Process.{ProcessResult, raised, completed}
use sigmascope.Collect.Linux.{LinuxHost, is_conclusive, locate_auditctl, auditctl, collect_auditd}
use sigmascope.Collect.Linux.Outputs.{
  IsAbsent, Gave, is_false, collect_auditd-IsAbsent, collect_auditd-errors,
}
use sigmascope.Collect.Windows.Services.{ServiceManager}
use sigmascope.Collect.Windows.Registry.{found, text}
use sigmascope.Collect.Windows.Sysmon.{SysmonHost, service_names}
use sigmascope.Collect.Windows.Sysmon.{index_error, collect_sysmon}
use sigmascope.Collect.Windows.Sysmon.Found.{Says}
use sigmascope.Collect.Windows.Sysmon.Blank.{IsBlank, collect_sysmon-IsBlank}
use sigmascope.Collect.Windows.Handles.{IsBalanced, collect_sysmon-IsBalanced}
use sigmascope.Api.Run.{Environment, run, outcome_of, report_of}
use sigmascope.Api.Run.Audited.{run-is_audited}
use sigmascope.Checks.Data.{covering_text, windows_host}
use sigmascope.Checks.Compute.{rules_of, verdict_for, run_on}

-- `auditctl` stands in /sbin, which is not on the PATH.
abbrev auditctl_answer : List Text → ProcessResult
auditctl_answer (executable ∷ argument ∷ []) =
    if argument == lit "-l"
    then completed (pos 0) covering_text []
    else completed (pos 0) (lit "enabled 1\nfailure 1\npid 742\n") []
auditctl_answer _ = raised (lit "no such file")

abbrev linux_host : LinuxHost
linux_host = record {
  which = λ name. none;
  exists = λ path. path == lit "/sbin/auditctl";
  is_dir = λ path. true;
  can_search = λ path. true;
  run = auditctl_answer;
}

abbrev environment : Environment
environment = record {
  host = record {
    hostname = lit "host";
    os = lit "linux";
    os_version = lit "6.1";
    arch = lit "x86_64";
  };
  now = lit "2026-01-01T00:00:00Z";
  tool_version = lit "0.1.0";
  platform = lit "Linux";
  linux = linux_host;
  windows = windows_host;
}

run-is_audited_example :
    (text : Text) × Gave linux_host (lit "-l") text
    × (is_audited
          (λ a n s. true)
          (λ p. true)
          (parse_auditd_rules ascii_python (lit "auditctl -l") text).rules
          (lit "b32")
          (lit "execveat")
        ≡ true)
unfolding rules_of verdict_for run_on decode_utf8 dirname is_conclusive locate_auditctl auditctl
    collect_auditd find linux_state linux_mappings mappings_by_os run outcome_of report_of
run-is_audited_example =
    run-is_audited ascii_python environment refl refl (here refl) refl refl
      (omega arith, (omega arith, (omega arith, tt))) (refl, (refl, (refl, tt)))
      (
        (λ e. absurd (ground arith)),
        ((λ e. absurd (ground arith)), ((λ e. absurd (ground arith)), tt)),
      )
      (λ a n s. true) (λ p. true) (lit "b32") (lit "execveat") refl refl

-- A host without `auditctl`.
abbrev bare_host : LinuxHost
bare_host = record linux_host { exists = λ path. false }

collect_auditd-IsAbsent_example :
    ((collect_auditd bare_host).installed ≡ some false) ↔ IsAbsent bare_host
collect_auditd-IsAbsent_example = collect_auditd-IsAbsent bare_host

collect_auditd-errors_example : is_empty (collect_auditd linux_host).errors ≡ (
    is_false (collect_auditd linux_host).installed
    || (not (is_none (collect_auditd linux_host).effective_rules)
        && not (is_none (collect_auditd linux_host).status)))
collect_auditd-errors_example = collect_auditd-errors linux_host

-- Sysmon64 does not exist, and Sysmon runs.
abbrev services : ServiceManager
services = record {
  open_manager = λ s. 3;
  open_service = λ s scm name. if name == lit "Sysmon" then 5 else 0;
  query_status = λ s service. some 4;
  last_error = λ s. 1060;
}

abbrev sysmon_host : Text → SysmonHost
sysmon_host image = record {
  services = services;
  query_value = λ path name. found (text image);
  paths = record {
    expandvars = λ s. s;
    system_root = none;
    join_path = λ root rest. root ++ lit "\\" ++ rest;
  };
  which = λ name. none;
  is_file = λ path. some (path == lit "C:\\Windows\\Sysmon.exe");
  run = λ command. completed (pos 0) (lit "Current configuration:") [];
  oem = λ bytes. bytes;
}

collect_sysmon-IsBalanced_example :
    IsBalanced [] (collect_sysmon (sysmon_host (lit "Sysmon.exe")) true []).1
collect_sysmon-IsBalanced_example =
    collect_sysmon-IsBalanced (sysmon_host (lit "Sysmon.exe")) true []

collect_sysmon-IsBlank_example :
    ((collect_sysmon (sysmon_host (lit " ")) true []).0 ≡ index_error) ↔ (
      (name : Text) × Says (sysmon_host (lit " ")) service_names [] name (some true)
      × IsBlank (sysmon_host (lit " ")) name)
collect_sysmon-IsBlank_example = collect_sysmon-IsBlank (sysmon_host (lit " ")) []
