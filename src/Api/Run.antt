-- ===== src/Api/Run.antt =====
-- sigmascope/api.py: `run`. The host's description, the time, what the Linux host answers and what
-- the collectors for Windows return are arguments.
pub mod Audited
use sigmascope.Base.{List, [], ◌∷◌, ◌++◌, if◌then◌else◌, Option, none, some, Text, lit, ◌==◌}
use sigmascope.Base.{Python, Bool, true, false}
use sigmascope.Model.{CollectionError, Diagnostic}
use sigmascope.Catalog.{mappings_by_os, catalog_version}
use sigmascope.Evaluate.Resolver.{Finding}
use sigmascope.Api.Linux.{Outcome, run_linux}
use sigmascope.Collect.Linux.{LinuxHost, collect_auditd}
use sigmascope.Api.Windows.{WindowsHost, run_windows}

-- `_host()`
pub record HostInfo : Type 0 where
  pub hostname : Text
  pub os : Text
  pub os_version : Text
  pub arch : Text

-- What a run reads from outside: the clock, the package's version, `platform.platform()`, the
-- Linux host and the collectors for Windows.
pub record Environment : Type 0 where
  pub host : HostInfo
  pub now : Text
  pub tool_version : Text
  pub platform : Text
  pub linux : LinuxHost
  pub windows : WindowsHost

pub record Report : Type 0 where
  pub schema_version : Text
  pub generated_utc : Text
  pub tool_version : Text
  pub catalog_version : Text
  pub layer : Text
  pub host : HostInfo
  pub findings : List Finding
  pub diagnostics : List Diagnostic
  pub collection_errors : List CollectionError

unfoldable pub unsupported : Python → Environment → Outcome
unsupported py env = record {
  findings = [];
  diagnostics = [];
  errors =
      record {
        source_id = lit "host";
        message = lit "unsupported operating system " ++ py.repr env.host.os;
        resource = env.platform;
      }
      ∷ [];
}

unfoldable pub outcome_of : Python → Environment → Option Outcome
unfolding unsupported
outcome_of py env =
    let requirements = mappings_by_os env.host.os in
    if env.host.os == lit "linux"
    then run_linux py requirements env.host.arch (collect_auditd env.linux)
    else if env.host.os == lit "windows"
    then run_windows py requirements env.windows
    else some (unsupported py env)

unfoldable pub report_of : Environment → Outcome → Report
report_of env outcome = record {
  schema_version = lit "0.1";
  generated_utc = env.now;
  tool_version = env.tool_version;
  catalog_version = catalog_version;
  layer = lit "generation";
  host = env.host;
  findings = outcome.findings;
  diagnostics = outcome.diagnostics;
  collection_errors = outcome.errors;
}

abbrev pub report_by : Environment → Option Outcome → Option Report
report_by env none = none
report_by env (some outcome) = some (report_of env outcome)

-- `_demo_report()`
unfoldable pub demo_report : Environment → Report
demo_report env = record {
  schema_version = lit "0.1";
  generated_utc = env.now;
  tool_version = env.tool_version;
  catalog_version = catalog_version;
  layer = lit "generation";
  host = env.host;
  findings =
      record {
        logsource = record {
          category = lit "process_creation";
          product = lit "linux";
          service = some (lit "auditd");
        };
        verdict = lit "degraded";
        satisfied = false;
        explanation = lit "Demo finding: generation coverage is intentionally partial.";
        providers = [];
        references = lit "https://github.com/zbalkan/sigmascope" ∷ [];
      }
      ∷ [];
  diagnostics = [];
  collection_errors = [];
}

-- `run(demo=demo)`; `none` is a ValueError.
unfoldable pub run : Python → Bool → Environment → Option Report
unfolding outcome_of report_of demo_report
run py demo env = if demo then some (demo_report env) else report_by env (outcome_of py env)
