-- ===== src/Evaluate/Auditd/Rules.antt =====
-- sigmascope/evaluate/auditd.py: the private helpers on one rule.
use sigmascope.Base.{Bool, true, false, not, ◌&&◌, ◌||◌, List, [], ◌∷◌, map, if◌then◌else◌}
use sigmascope.Base.{Text, lit, ◌==◌, member, any, filter, is_empty}
use sigmascope.Model.{Predicate, PredicateOp, eq, Effect, Selector, syscall_selector}
use sigmascope.Model.{event_type_selector, Rule, is_include}

abbrev pub target_syscalls : List Text
target_syscalls = lit "execve" ∷ lit "execveat" ∷ []

abbrev pub non_narrowing_fields : List Text
non_narrowing_fields = lit "arch" ∷ lit "key" ∷ []

unfoldable pub predicate : Rule → Text → List Predicate
predicate rule field = filter (λ item. item.field == field) rule.predicates

abbrev pub selected : Selector → List Text
selected (event_type_selector e) = []
selected (syscall_selector syscalls scope) =
    if member (lit "all") syscalls
    then target_syscalls
    else filter (λ syscall. member syscall syscalls) target_syscalls

unfoldable pub selected_syscalls : Rule → List Text
selected_syscalls rule = selected rule.selector

abbrev pub is_eq : PredicateOp → Bool
is_eq eq = true
is_eq _ = false

unfoldable pub arches : Rule → List Text
unfolding predicate
arches rule = map (λ p. p.value) (filter (λ p. is_eq p.op) (predicate rule (lit "arch")))

unfoldable pub restrictive : Rule → Bool
restrictive rule = any (λ p. not (member p.field non_narrowing_fields)) rule.predicates

abbrev pub suppresses : Effect → Selector → List Text → Text → Text → Bool
suppresses effect (event_type_selector e) archs arch syscall = false
suppresses effect (syscall_selector syscalls scope) archs arch syscall =
    if is_include effect || not (scope == lit "exit")
    then false
    else if not (is_empty syscalls)
        && not (member (lit "all") syscalls)
        && not (member syscall syscalls)
    then false
    else is_empty archs || member arch archs

unfoldable pub exit_rule_suppresses : Rule → Text → Text → Bool
exit_rule_suppresses rule arch syscall =
    suppresses rule.effect rule.selector (arches rule) arch syscall
