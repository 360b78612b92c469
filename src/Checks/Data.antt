-- ===== src/Checks/Data.antt =====
-- Configurations for the tests: the output of auditctl, and the entries of a catalogue.
use sigmascope.Base.{List, [], ◌∷◌, none, some, true, Text, lit}
use sigmascope.Model.{Gate, Rule, ParseResult, Predicate, eq, effective}
use sigmascope.Model.{Verdict, verdict_value, exclude, syscall_selector, text_value}
use sigmascope.Model.{event_type_selector, Effect}
use sigmascope.Evaluate.Resolver.{ProviderResult, Logsource}
use sigmascope.Evaluate.WindowsGates.{AuditProvider, ChannelConfig}
use sigmascope.Model.{CollectionError}
use sigmascope.Base.{false}
use sigmascope.Api.Windows.{WindowsHost}
use sigmascope.Api.Linux.{AuditdCollection}

-- All calls of execve and execveat, in both architectures, and a watch.
abbrev pub covering_text : Text
covering_text =
    lit
      "-a always,exit -F arch=b64 -S execve,execveat -F key=exec\n-a always,exit -F arch=b32 -S execve,execveat\n-w /etc/passwd -p wa -k id"

-- Rules that name no architecture, and no rule that excludes.
abbrev pub archless_text : Text
archless_text = lit "-a always,exit -S execve,execveat -F key=exec\n-w /etc/passwd -p wa -k id"

-- No rule that records a call of execve.
abbrev pub other_text : Text
other_text = lit "-a always,exit -F arch=b64 -S openat -F key=open\n"

abbrev pub running : AuditdCollection
running = record {
  installed = some true;
  effective_rules = some covering_text;
  status = some (lit "enabled 1\nfailure 1\npid 742\n");
  errors = [];
}

-- `-a never,exit -S execve`
abbrev pub never_rule : Rule
never_rule = record {
  effect = exclude;
  selector = syscall_selector (lit "execve" ∷ []) (lit "exit");
  predicates = [];
  order = 0;
  origin = record { resource = lit "auditctl -l"; locator = lit "line 1" };
  raw = lit "-a never,exit -S execve";
}

abbrev pub result : Text → Verdict → ProviderResult
result source_id verdict = record {
  source_id = source_id;
  verdict = verdict_value verdict;
  explanation = lit "an explanation";
  evidence = [];
}

abbrev pub logsource : Logsource
logsource = record { category = lit "process_creation"; product = lit "windows"; service = none }

abbrev pub security : AuditProvider
security = record {
  source_id = lit "windows_security";
  subcategory_guid = lit "{0CCE922B}";
  required_states = lit "success" ∷ lit "both" ∷ [];
  channel = lit "Security";
  field_gate = none;
  necessary_but_insufficient = none;
}

abbrev pub security_channel : ChannelConfig
security_channel = record { enabled = some true; error = none }

abbrev pub gates_only : List Gate → ParseResult
gates_only gates = record { determinacy = effective; gates = gates; rules = []; diagnostics = [] }

abbrev pub success_policy : ParseResult
success_policy = gates_only (
    record {
      key = lit "windows.audit.{0CCE922B}";
      value = text_value (lit "success");
      origin = record { resource = lit "auditpol"; locator = lit "row 1" };
    }
    ∷ [])

-- A block for an event type.
abbrev pub block : Effect → List Predicate → Rule
block effect predicates = record {
  effect = effect;
  selector = event_type_selector (lit "ProcessCreate");
  predicates = predicates;
  order = 1;
  origin = record { resource = lit "Sysmon -c"; locator = lit "line 9" };
  raw = lit " - ProcessCreate onmatch: exclude";
}

abbrev pub filter_of : Text → Predicate
filter_of value = record { field = lit "Image"; op = eq; value = value }

abbrev pub sysmon_blocks : List Rule → ParseResult
sysmon_blocks rules = record {
  determinacy = effective;
  gates = [];
  rules = rules;
  diagnostics = [];
}

-- Sysmon is not installed, and the state of a channel cannot be read.
abbrev channel_error : CollectionError
channel_error = record {
  source_id = lit "channel";
  message = lit "access denied";
  resource = lit "Security";
}

abbrev pub windows_host : WindowsHost
windows_host = record {
  native = record {
    states = (lit "{0CCE922B-69AE-11D9-BED3-505054503030}", lit "success") ∷ [];
    error = none;
  };
  cli = record { parsed = none; error = none };
  registry = gates_only [];
  sysmon = record { installed = some false; running = none; current_config = none; errors = [] };
  channel_config = λ name. record { enabled = none; error = some channel_error };
}
