-- ===== src/Catalog.antt =====
-- sigmascope/catalog.py: the mappings from logsources to providers. Each provider kind has a
-- constructor with the keys that the catalogue gives it.
use sigmascope.Base.{List, [], ◌∷◌, none, some, Text, lit, ◌==◌, if◌then◌else◌}
use sigmascope.Evaluate.Resolver.{Logsource}
use sigmascope.Evaluate.WindowsGates.{AuditProvider}

pub record AuditdProvider : Type 0 where
  pub source_id : Text
  pub requirement : Text

pub record SysmonProvider : Type 0 where
  pub source_id : Text
  pub event_type : Text
  pub channel : Text

pub data Provider : Type 0 where
  windows_audit : AuditProvider → Provider
  sysmon : SysmonProvider → Provider
  auditd : AuditdProvider → Provider

pub record Requirement : Type 0 where
  pub logsource : Logsource
  pub providers : List Provider
  pub references : List Text

abbrev pub catalog_version : Text
catalog_version = lit "0.1.0"

abbrev eventlog_mapping : Text
eventlog_mapping =
    lit
      "https://github.com/nasbench/Eventlog_Compendium/blob/0157a6bef8764781830d64a8f5170eedb65dfe3c/data/audit_policy_category_to_event_mapping.json"

abbrev sysmon_reference : Text
sysmon_reference = lit "https://learn.microsoft.com/en-us/sysinternals/downloads/sysmon"

abbrev auditctl_reference : Text
auditctl_reference = lit "https://man7.org/linux/man-pages/man8/auditctl.8.html"

abbrev audit_kernel_reference : Text
audit_kernel_reference = lit "https://github.com/torvalds/linux/blob/v5.14/kernel/auditsc.c"

abbrev audit_rules_reference : Text
audit_rules_reference = lit "https://man7.org/linux/man-pages/man7/audit.rules.7.html"

abbrev pub sysmon_for : Text → Provider
sysmon_for event_type = sysmon (record {
  source_id = lit "sysmon";
  event_type = event_type;
  channel = lit "Microsoft-Windows-Sysmon/Operational";
})

abbrev success_states : List Text
success_states = lit "success" ∷ lit "both" ∷ []

unfoldable pub windows_mappings : List Requirement
windows_mappings =
    record {
      logsource = record {
        category = lit "process_creation";
        product = lit "windows";
        service = none;
      };
      providers =
          windows_audit (record {
            source_id = lit "windows_security";
            subcategory_guid = lit "{0CCE922B-69AE-11D9-BED3-505054503030}";
            required_states = success_states;
            channel = lit "Security";
            field_gate = some (record {
              key = lit "windows.process_creation.include_command_line";
              explanation =
                  lit "Security 4688 is generated, but command-line inclusion is disabled.";
            });
            necessary_but_insufficient = none;
          })
          ∷ sysmon_for (lit "ProcessCreate")
          ∷ [];
      references =
          lit
            "https://github.com/SigmaHQ/sigma/blob/2e8fd89f82d9104c1b30321a307254ddeea17de2/documentation/logsource-guides/windows/category/process_creation.md"
          ∷ eventlog_mapping
          ∷ sysmon_reference
          ∷ [];
    }
    ∷ record {
      logsource = record {
        category = lit "network_connection";
        product = lit "windows";
        service = none;
      };
      providers =
          windows_audit (record {
            source_id = lit "windows_security";
            subcategory_guid = lit "{0CCE9226-69AE-11D9-BED3-505054503030}";
            required_states = success_states;
            channel = lit "Security";
            field_gate = none;
            necessary_but_insufficient = none;
          })
          ∷ sysmon_for (lit "NetworkConnect")
          ∷ [];
      references = eventlog_mapping ∷ sysmon_reference ∷ [];
    }
    ∷ record {
      logsource = record { category = lit "file_event"; product = lit "windows"; service = none };
      providers =
          windows_audit (record {
            source_id = lit "windows_security";
            subcategory_guid = lit "{0CCE921D-69AE-11D9-BED3-505054503030}";
            required_states = success_states;
            channel = lit "Security";
            field_gate = none;
            necessary_but_insufficient = some (
                lit
                  "Object Access File System auditing also requires an applicable SACL on each target object. The POC does not evaluate SACLs.");
          })
          ∷ [];
      references = eventlog_mapping ∷ [];
    }
    ∷ []

abbrev pub auditd_for : Text → Provider
auditd_for requirement = auditd (record { source_id = lit "auditd"; requirement = requirement })

unfoldable pub linux_mappings : List Requirement
linux_mappings =
    record {
      logsource = record {
        category = lit "process_creation";
        product = lit "linux";
        service = some (lit "auditd");
      };
      providers = auditd_for (lit "process_creation") ∷ [];
      references = auditctl_reference ∷ audit_kernel_reference ∷ [];
    }
    ∷ record {
      logsource = record {
        category = lit "file_event";
        product = lit "linux";
        service = some (lit "auditd");
      };
      providers = auditd_for (lit "file_watch") ∷ [];
      references = audit_rules_reference ∷ auditctl_reference ∷ audit_kernel_reference ∷ [];
    }
    ∷ []

-- `MAPPINGS_BY_OS.get(product, ())`
unfoldable pub mappings_by_os : Text → List Requirement
unfolding windows_mappings linux_mappings
mappings_by_os product =
    if product == lit "windows"
    then windows_mappings
    else if product == lit "linux"
    then linux_mappings
    else []
