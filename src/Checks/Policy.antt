-- ===== src/Checks/Policy.antt =====
-- The collectors of the Windows audit policy at reports and buffers that are written out.
use sigmascope.Base.{true, List, [], ◌∷◌, ◌≡◌, refl, some, none, Option, Text, pos, ascii_python}
use sigmascope.Base.{drop, ◌+◌, ◌≤◌, ◌⊎◌}
use sigmascope.Parse.AuditpolCsv.{Columns}
use sigmascope.Parse.AuditpolCsv.States.{Reads, read_table-Reads}
use sigmascope.Evaluate.WindowsGates.{AuditProvider}
use sigmascope.Api.Policy.{AuditpolCliCollection}
use sigmascope.Collect.Process.{ProcessResult, completed}
use sigmascope.Collect.Windows.Calls.{Calls, count_queries}
use sigmascope.Collect.Windows.Registry.{}
use sigmascope.Collect.Windows.Reported.{IsReported, collect_cli_policy-IsReported}
use sigmascope.Collect.Windows.Handles.{IsBalanced}
use sigmascope.Collect.Windows.Guid.{Guid}
use sigmascope.Collect.Windows.Guid.RoundTrip.{from_string-as_string}
use sigmascope.Collect.Windows.AuditpolNative.{AuditApi, PolicyBuffer, from_strings}
use sigmascope.Collect.Windows.AuditpolNative.Queries.{collect_native_policy-IsBalanced}
use sigmascope.Collect.Windows.AuditpolNative.Count.{IsDenied, collect_native_policy-count_queries}
use sigmascope.Collect.Windows.AuditpolNative.Entries.{Reports, collect_native_policy-Reports}
use sigmascope.Checks.Data.{security_channel, gates_only}
use sigmascope.Base.{read_chars, read_records, io_lines_onto, csv_rows}
use sigmascope.Parse.AuditpolCsv.{
  matches, is_guid, state_of, canonical_guid, guid_column, setting_column, find_columns, read_state,
  read_row, read_rows, read_table, parse_auditpol_csv,
}
use sigmascope.Base.{lit, ◌==◌, has_char, join, text_le, insert_sorted, sorted_set}
use sigmascope.Base.{
  is_space, drop_space, strip, drop_while, strip_chars, partition, split_onto, split, is_line_end,
  lines_onto, splitlines, lower_char, upper_char, ascii_lower, ascii_upper,
}
use sigmascope.Base.{any, all, filter, find}
use sigmascope.Collect.Windows.AuditpolCli.{collect_cli_policy}
use sigmascope.Collect.Windows.Guid.{
  to_digits, from_digits, int_of_guid, guid_of_int, hex_text, uuid_text, as_string, remove_onto,
  hex_digit, hex_digits, int_base16, uuid_int, from_string,
}
use sigmascope.Collect.Windows.AuditpolNative.{
  policy_state, set_item, states_onto, enable_security_privilege, query_once, query_system_policy,
  collect_native_policy,
}
use sigmascope.Evaluate.WindowsGates.{
  find_gate, finish_audit, judge_field, check_field, check_state, judge_policy, check_policy,
  evaluate_windows_audit,
}
use sigmascope.Model.{verdict_value, verdict_of, has_scope, gate_text}
use sigmascope.Api.Policy.{subcategory_guids, native_policy_result}

-- A header, and one row with a GUID and the setting 1.
abbrev report_rows : List (List Text)
report_rows =
    (lit "Machine" ∷ lit "GUID" ∷ lit "Setting" ∷ [])
    ∷ (lit "PC" ∷ lit "{0cce922b-69ae-11d9-bed3-505054503030}" ∷ lit "1" ∷ [])
    ∷ []

abbrev report_text : Text
report_text = lit "Machine,GUID,Setting\nPC,{0cce922b-69ae-11d9-bed3-505054503030},1\n"

-- A provider of the catalogue for the subcategory of the row.
abbrev process_creation : AuditProvider
process_creation = record {
  source_id = lit "windows_security";
  subcategory_guid = lit "{0CCE922B-69AE-11D9-BED3-505054503030}";
  required_states = lit "success" ∷ lit "both" ∷ [];
  channel = lit "Security";
  field_gate = none;
  necessary_but_insufficient = none;
}

abbrev auditpol : List Text → ProcessResult
auditpol command = completed (pos 0) report_text []

-- The collector, with all that the tests call open.
unfoldable policy_on : (List Text → ProcessResult) → Option AuditpolCliCollection
unfolding read_chars read_records io_lines_onto csv_rows matches is_guid state_of canonical_guid
    guid_column setting_column find_columns read_state read_row read_rows read_table
    parse_auditpol_csv lit ◌==◌ has_char join text_le insert_sorted sorted_set is_space drop_space
    strip drop_while strip_chars partition split_onto split is_line_end lines_onto splitlines
    lower_char upper_char ascii_lower ascii_upper any all filter find collect_cli_policy to_digits
    from_digits int_of_guid guid_of_int hex_text uuid_text as_string remove_onto hex_digit
    hex_digits int_base16 uuid_int from_string policy_state set_item states_onto
    enable_security_privilege query_once query_system_policy collect_native_policy find_gate
    finish_audit judge_field check_field check_state judge_policy check_policy
    evaluate_windows_audit verdict_value verdict_of has_scope gate_text subcategory_guids
    native_policy_result
policy_on run = collect_cli_policy ascii_python (λ b. b) true run

read_table-Reads_example :
    (columns : Columns) × (find_columns report_rows 0 none ≡ some columns)
    × Reads ascii_python
        (lit "auditpol /r")
        columns
        (columns.first_data_index + 1)
        (drop columns.first_data_index report_rows)
        (read_table ascii_python (lit "auditpol /r") report_rows report_text).gates
unfolding policy_on
read_table-Reads_example =
    read_table-Reads ascii_python (lit "auditpol /r") report_rows report_text refl

collect_cli_policy-IsReported_example :
    (true ≡ true) × IsReported ascii_python (λ b. b) auditpol process_creation
unfolding policy_on
collect_cli_policy-IsReported_example =
    collect_cli_policy-IsReported ascii_python (λ b. b) process_creation true auditpol refl refl
      (gates_only []) security_channel refl

-- The structure of {0CCE922B-69AE-11D9-BED3-505054503030}.
abbrev process_guid : Guid
process_guid =
    0x2b ∷ 0x92 ∷ 0xce ∷ 0x0c ∷ 0xae ∷ 0x69 ∷ 0xd9 ∷ 0x11 ∷ 0xbe ∷ 0xd3 ∷ 0x50 ∷ 0x50 ∷ 0x54 ∷ 0x50
    ∷ 0x30 ∷ 0x30 ∷ []

as_string_test : as_string process_guid ≡ process_creation.subcategory_guid
unfolding policy_on
as_string_test = refl

from_string-as_string_example :
    from_string ascii_python (as_string process_guid) ≡ some process_guid
unfolding all
from_string-as_string_example =
    from_string-as_string process_guid (record { count = refl; bytes = refl }) ascii_python

-- Access is denied until the privilege is enabled with the token 9.
abbrev audit_answer : Calls → Option PolicyBuffer
audit_answer [] = none
audit_answer (c ∷ s) = some (record { address = 64; entries = (process_guid, 1) ∷ [] })

abbrev audit_api : AuditApi
audit_api = record {
  open_process_token = λ s. some 9;
  lookup_privilege_value = λ s. some 8;
  adjust_token_privileges = λ s token luid. true;
  query_system_policy = λ s guids. audit_answer s;
  last_error = λ s. 5;
}

abbrev process_guids : List Text
process_guids = process_creation.subcategory_guid ∷ []

collect_native_policy-IsBalanced_example :
    IsBalanced [] (collect_native_policy audit_api ascii_python true process_guids []).1
collect_native_policy-IsBalanced_example =
    collect_native_policy-IsBalanced audit_api ascii_python true process_guids []

collect_native_policy-count_queries_example :
    (count_queries (collect_native_policy audit_api ascii_python true process_guids []).1
      ≤ count_queries [] + 1)
    ⊎ ((count_queries (collect_native_policy audit_api ascii_python true process_guids []).1
          ≤ count_queries [] + 2)
        × (gs : List Guid) × (from_strings ascii_python process_guids ≡ some gs)
        × IsDenied audit_api gs [])
collect_native_policy-count_queries_example =
    collect_native_policy-count_queries audit_api ascii_python true process_guids []

collect_native_policy-Reports_example :
    Reports audit_api (from_strings ascii_python process_guids) [] process_creation
unfolding policy_on
collect_native_policy-Reports_example =
    collect_native_policy-Reports audit_api ascii_python true process_guids [] process_creation refl
      refl (record { parsed = none; error = none }) (gates_only []) security_channel refl
