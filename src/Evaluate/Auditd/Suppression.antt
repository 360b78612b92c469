-- ===== src/Evaluate/Auditd/Suppression.antt =====
-- sigmascope/evaluate/auditd.py: `_suppression`.
use sigmascope.Base.{Bool, not, ◌&&◌, List, if◌then◌else◌, Option, none, some}
use sigmascope.Base.{Text, lit, ◌==◌, any, filter, is_empty}
use sigmascope.Model.{Rule, is_include, has_scope, Verdict, degraded, not_covered}

unfoldable pub is_task_suppressor : Rule → Bool
is_task_suppressor rule = not (is_include rule.effect) && has_scope (lit "task") rule.selector

-- No predicate but keys.
unfoldable pub is_unconditional : Rule → Bool
is_unconditional rule = is_empty (filter (λ p. not (p.field == lit "key")) rule.predicates)

unfoldable pub is_exclude_rule : Rule → Bool
is_exclude_rule rule = not (is_include rule.effect) && has_scope (lit "exclude") rule.selector

unfoldable pub suppression : List Rule → Option (Verdict × Text)
suppression rules =
    let task_suppressors = filter is_task_suppressor rules in
    if any is_unconditional task_suppressors
    then some (
      not_covered,
      lit
          "An unconditional auditd never,task rule leaves new processes without an audit context, so no syscall rule or watch is evaluated for them.",
    )
    else if not (is_empty task_suppressors)
    then some (
      degraded,
      lit "A scoped auditd never,task rule can suppress audit events for matching tasks.",
    )
    else if any is_exclude_rule rules
    then some (degraded, lit "An auditd exclude rule can suppress a subset of audit events.")
    else none
