-- ===== src/Evaluate/Auditd/ProcessCreation.antt =====
-- sigmascope/evaluate/auditd.py: `evaluate_process_creation`.
use sigmascope.Base.{Bool, true, false, not, ◌&&◌, List, [], ◌∷◌, ◌++◌, map, if◌then◌else◌}
use sigmascope.Base.{none, some, ltb}
use sigmascope.Base.{Text, lit, ◌==◌, member, join, any, all, filter, is_empty, Python, isdigit}
use sigmascope.Model.{Selector, syscall_selector, event_type_selector, Rule, is_include, has_scope}
use sigmascope.Model.{Verdict, covered, degraded, not_covered, indeterminate}
use sigmascope.Model.{Determinacy, effective, unknown, ParseResult}
use sigmascope.Evaluate.Auditd.Rules.{target_syscalls, predicate, selected_syscalls, arches}
use sigmascope.Evaluate.Auditd.Rules.{restrictive, exit_rule_suppresses}
use sigmascope.Evaluate.Auditd.Suppression.{suppression}

unfoldable pub is_candidate : Rule → Bool
is_candidate rule =
    has_scope (lit "exit") rule.selector
    && is_include rule.effect
    && not (is_empty (selected_syscalls rule))

abbrev pub syscalls_of : Selector → List Text
syscalls_of (syscall_selector syscalls scope) = syscalls
syscalls_of (event_type_selector e) = []

unfoldable pub is_numeric : Python → Rule → Bool
is_numeric py rule =
    has_scope (lit "exit") rule.selector
    && is_include rule.effect
    && not (is_empty (syscalls_of rule.selector))
    && all (isdigit py) (syscalls_of rule.selector)

-- The dict `coverage`, keyed by architecture and system call.
abbrev pub Coverage : Type 0
Coverage = List (Text × Text × Rule)

unfoldable pub is_covered : Coverage → Text → Text → Bool
is_covered coverage arch syscall = any (λ (a, s, _). a == arch && s == syscall) coverage

-- `coverage.setdefault((arch, syscall), rule)`
unfoldable pub setdefault : Text → Text → Rule → Coverage → Coverage
setdefault arch syscall rule coverage =
    if is_covered coverage arch syscall then coverage else coverage ++ (arch, syscall, rule) ∷ []

-- The two inner loops, over the system calls and over the architectures.
unfoldable pub cover_syscalls : Rule → Text → List Text → Coverage → Coverage
cover_syscalls rule arch [] coverage = coverage
cover_syscalls rule arch (syscall ∷ rest) coverage =
    cover_syscalls rule arch rest (setdefault arch syscall rule coverage)

unfoldable pub cover_arches : Rule → List Text → Coverage → Coverage
cover_arches rule [] coverage = coverage
cover_arches rule (arch ∷ rest) coverage =
    cover_arches rule rest (cover_syscalls rule arch (selected_syscalls rule) coverage)

abbrev pub x86_arches : List Text
x86_arches = lit "b64" ∷ lit "b32" ∷ []

unfoldable pub cover_rule : Rule → Coverage → Coverage
cover_rule rule coverage =
    cover_arches rule (filter (λ arch. member arch (arches rule)) x86_arches) coverage

-- The loop over the candidates, with the flag `restrictive`.
unfoldable pub cover_candidates : List Rule → Coverage × Bool → Coverage × Bool
cover_candidates [] (coverage, narrowed) = (coverage, narrowed)
cover_candidates (rule ∷ rest) (coverage, narrowed) =
    cover_candidates rest
      (if restrictive rule then (coverage, true) else (cover_rule rule coverage, narrowed))

-- `sorted(required)`
abbrev pub required : List (Text × Text)
required =
    (lit "b32", lit "execve")
    ∷ (lit "b32", lit "execveat")
    ∷ (lit "b64", lit "execve")
    ∷ (lit "b64", lit "execveat")
    ∷ []

abbrev pub missing_pairs : Coverage → List (Text × Text)
missing_pairs coverage = filter (λ (arch, syscall). not (is_covered coverage arch syscall)) required

-- A rule that stands before the covering rule may drop the event.
unfoldable pub is_preempted : List Rule → Coverage → Bool
is_preempted rules = any λ (arch, syscall, include_rule).
    any (λ rule. ltb rule.order include_rule.order && exit_rule_suppresses rule arch syscall) rules

unfoldable pub evaluate_coverage : List Rule → Coverage × Bool → Verdict × Text
evaluate_coverage rules (coverage, narrowed) =
    let missing = missing_pairs coverage in
    if not (is_empty missing)
    then (
      degraded,
      lit "auditd process-creation coverage is incomplete; missing "
          ++ join (lit ", ") (map (λ (arch, syscall). arch ++ (lit "/" ++ syscall)) missing)
          ++ lit "."
          ++ (if narrowed
              then lit " Restrictive predicates on candidate rules prevent generic coverage."
              else []),
    )
    else if is_preempted rules coverage
    then (
      degraded,
      lit
          "An earlier auditd never,exit rule may suppress process-creation events before an always rule can match.",
    )
    else (
      covered,
      lit
          "Active auditd rules cover execve and execveat independently for b64 and b32 without narrowing predicates.",
    )

unfoldable pub evaluate_x86 : List Rule → List Rule → Verdict × Text
evaluate_x86 rules candidates =
    if any (λ rule. is_empty (arches rule)) candidates
    then (
      degraded,
      lit
          "auditd exec rules omit an explicit arch selector; 32-bit compatibility coverage cannot be established.",
    )
    else evaluate_coverage rules (cover_candidates candidates ([], false))

-- Whether an unrestricted candidate selects the system call.
unfoldable pub is_broad : List Rule → Text → Bool
is_broad candidates syscall =
    any (λ rule. not (restrictive rule) && member syscall (selected_syscalls rule)) candidates

unfoldable pub evaluate_other_arch : Text → List Rule → Verdict × Text
evaluate_other_arch machine_arch candidates =
    let missing = filter (λ syscall. not (is_broad candidates syscall)) target_syscalls in
    if any (λ rule. not (is_empty (predicate rule (lit "arch")))) candidates
    then (
      indeterminate,
      lit
            "auditd exec rules carry an explicit arch selector, which sigmascope does not interpret for "
          ++ machine_arch
          ++ lit ".",
    )
    else if not (is_empty missing)
    then (
      degraded,
      lit "auditd does not select all process-creation syscalls; missing "
          ++ join (lit ", ") missing
          ++ lit ".",
    )
    else (
      covered,
      lit "Active auditd rules cover execve and execveat without narrowing predicates.",
    )

abbrev pub is_x86 : Text → Bool
is_x86 machine_arch = member machine_arch (lit "x86_64" ∷ lit "amd64" ∷ [])

-- What follows the check for candidates.
unfoldable pub evaluate_candidates : List Rule → List Rule → Text → Verdict × Text
evaluate_candidates rules candidates machine_arch = elim (suppression rules) [
  | some suppressed ↦ suppressed
  | none ↦
      if is_x86 machine_arch
      then evaluate_x86 rules candidates
      else evaluate_other_arch machine_arch candidates
]

unfoldable pub evaluate_rules : Python → List Rule → Text → Verdict × Text
evaluate_rules py rules machine_arch =
    let candidates = filter is_candidate rules in
    if not (is_empty candidates)
    then evaluate_candidates rules candidates machine_arch
    else if any (is_numeric py) rules
    then (
      indeterminate,
      lit
          "auditd uses numeric syscall selectors; architecture-specific syscall numbers are not guessed.",
    )
    else (not_covered, lit "No active always,exit rule selects execve or execveat.")

abbrev pub is_unknown : Determinacy → Bool
is_unknown unknown = true
is_unknown effective = false

unfoldable pub evaluate_process_creation : Python → ParseResult → Text → Verdict × Text
evaluate_process_creation py parsed machine_arch =
    if is_unknown parsed.determinacy
    then (
      indeterminate,
      lit "auditd process-creation rules are incomplete or could not be parsed safely.",
    )
    else evaluate_rules py parsed.rules machine_arch
