-- ===== src/Checks/Compute.antt =====
-- The programs that the tests run, with all that they call open.
use sigmascope.Base.{Text, Option, ascii_python, List}
use sigmascope.Model.{ParseResult, Verdict}
use sigmascope.Catalog.{Requirement}
use sigmascope.Api.Linux.{AuditdCollection, Outcome}
use sigmascope.Base.{any, all, filter, find}
use sigmascope.Base.{lit, ◌==◌, has_char, join, text_le, insert_sorted, sorted_set}
use sigmascope.Base.{
  is_space, drop_space, strip, partition, split_onto, split, is_line_end, lines_onto, splitlines,
  lower_char, ascii_lower,
}
use sigmascope.Base.{digits_onto, nat_text}
use sigmascope.Base.{isdigit}
use sigmascope.Parse.AuditdRules.{tokens_of, parse_lines, parse_auditd_rules}
use sigmascope.Parse.AuditdRules.Line.{
  action, read_action, read_option, read_token, read_tokens, close_watch, parse_rule,
}
use sigmascope.Parse.AuditdRules.Tokens.{
  is_option, split_from, split_options, take_word, take_op, make_predicate, filter_expression,
}
use sigmascope.Model.{verdict_value, verdict_of, has_scope, gate_text}
use sigmascope.Evaluate.Auditd.Rules.{
  predicate, selected_syscalls, arches, restrictive, exit_rule_suppresses,
}
use sigmascope.Evaluate.Auditd.Suppression.{
  is_task_suppressor, is_unconditional, is_exclude_rule, suppression,
}
use sigmascope.Evaluate.Auditd.ProcessCreation.{
  is_candidate, is_numeric, is_covered, setdefault, cover_syscalls, cover_arches, cover_rule,
  cover_candidates, is_preempted, evaluate_coverage, evaluate_x86, is_broad, evaluate_other_arch,
  evaluate_candidates, evaluate_rules, evaluate_process_creation,
}
use sigmascope.Evaluate.Auditd.FileWatch.{
  is_watch, add_targets, watch_targets, is_exit_exclusion, scoped_result, evaluate_watches,
  evaluate_file_watch,
}
use sigmascope.Evaluate.Auditd.Kernel.{
  predicate_holds, selects, exit_matches, task_matches, first_effect, is_selected, is_audited,
  exit_takes, drops_event,
}
use sigmascope.Parse.AuditdStatus.{
  take_until_space, first_word, read_digits, int_of, set_value, has_value, read_line, read_lines,
  parse_auditd_status,
}
use sigmascope.Api.Linux.{
  linux_state, evaluate_requirement, evaluate_auditd, auditd_outputs, linux_findings, run_linux,
}
use sigmascope.Api.Evidence.{evidence_from_rules, evidence_from_gates, provider_result}
use sigmascope.Evaluate.Resolver.{
  provider_order, best_of, explain_all, explanation_for, resolve, resolve_provider_disjunction,
}
use sigmascope.Catalog.{linux_mappings}
use sigmascope.Evaluate.Sysmon.{
  gate_value, summary_value, matching_rules, evaluate_blocks, evaluate_event_type,
}

unfoldable pub rules_of : Text → ParseResult
unfolding any all filter find lit ◌==◌ has_char join text_le insert_sorted sorted_set is_space
    drop_space strip partition split_onto split is_line_end lines_onto splitlines lower_char
    ascii_lower digits_onto nat_text isdigit tokens_of parse_lines parse_auditd_rules action
    read_action read_option read_token read_tokens close_watch parse_rule is_option split_from
    split_options take_word take_op make_predicate filter_expression
rules_of text = parse_auditd_rules ascii_python (lit "auditctl -l") text

unfoldable pub verdict_for : ParseResult → Text → Verdict
unfolding verdict_value verdict_of has_scope gate_text predicate selected_syscalls arches
    restrictive exit_rule_suppresses is_task_suppressor is_unconditional is_exclude_rule suppression
    is_candidate is_numeric is_covered setdefault cover_syscalls cover_arches cover_rule
    cover_candidates is_preempted evaluate_coverage evaluate_x86 is_broad evaluate_other_arch
    evaluate_candidates evaluate_rules evaluate_process_creation is_watch add_targets watch_targets
    is_exit_exclusion scoped_result evaluate_watches evaluate_file_watch predicate_holds selects
    exit_matches task_matches first_effect is_selected is_audited exit_takes drops_event
verdict_for parsed machine_arch = (evaluate_process_creation ascii_python parsed machine_arch).0

unfoldable pub run_on : List Requirement → Text → AuditdCollection → Option Outcome
unfolding rules_of verdict_for take_until_space first_word read_digits int_of set_value has_value
    read_line read_lines parse_auditd_status linux_state evaluate_requirement evaluate_auditd
    auditd_outputs linux_findings run_linux evidence_from_rules evidence_from_gates provider_result
    provider_order best_of explain_all explanation_for resolve resolve_provider_disjunction
    linux_mappings gate_value summary_value matching_rules evaluate_blocks evaluate_event_type
run_on requirements arch collection = run_linux ascii_python requirements arch collection
