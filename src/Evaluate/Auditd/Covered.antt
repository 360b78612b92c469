-- ===== src/Evaluate/Auditd/Covered.antt =====
-- sigmascope/evaluate/auditd.py against the kernel's filters: what a COVERED verdict of
-- `evaluate_process_creation` promises on an x86-64 host.
use sigmascope.Base.{Bool, true, false, not, List, [], ◌≡◌, refl, inl, inr, arith}
use sigmascope.Base.{
  Text, lit, member, filter, any, is_empty, In, here, there, none, some, lt→ltb, ◌≢◌, Option-cases,
}
use sigmascope.Base.{any-none, Bool-cases, member-In, In-filter}
use sigmascope.Base.{is_empty-filter, ◌<◌}
use sigmascope.Model.{Predicate, Rule, Effect, include, exclude, ParseResult}
use sigmascope.Model.{Selector, syscall_selector, event_type_selector}
use sigmascope.Model.{Verdict, covered}
use sigmascope.Base.{Python}
use sigmascope.Evaluate.Auditd.Rules.{target_syscalls, selected_syscalls, exit_rule_suppresses}
use sigmascope.Evaluate.Auditd.Rules.{selected}
use sigmascope.Evaluate.Auditd.Suppression.{suppression, is_task_suppressor}
use sigmascope.Evaluate.Auditd.ProcessCreation.{is_candidate, cover_candidates, missing_pairs}
use sigmascope.Evaluate.Auditd.ProcessCreation.{is_preempted, is_x86, x86_arches, is_covered}
use sigmascope.Evaluate.Auditd.ProcessCreation.{required, Coverage, evaluate_coverage, evaluate_x86}
use sigmascope.Evaluate.Auditd.ProcessCreation.{evaluate_candidates, evaluate_rules}
use sigmascope.Evaluate.Auditd.ProcessCreation.{evaluate_process_creation}
use sigmascope.Evaluate.Auditd.Coverage.{cover_candidates-IsSupported, is_covered-In}
use sigmascope.Evaluate.Auditd.Kernel.{All, IsOrdered, HasOneArch, selects, exit_matches}
use sigmascope.Evaluate.Auditd.Kernel.{task_matches, first_effect, is_selected, is_disabled}
use sigmascope.Evaluate.Auditd.Kernel.Laws.{All-In, exit_matches_of_unrestricted}
use sigmascope.Evaluate.Auditd.Kernel.Laws.{exit_rule_suppresses_of_matches, first_effect-include}
use sigmascope.Evaluate.Auditd.Kernel.Laws.{first_effect-ne-exclude}

-- The dict `coverage` after the loop.
abbrev coverage_of : List Rule → Coverage
coverage_of rules = (cover_candidates (filter is_candidate rules) ([], false)).0

-- The tests that a covered configuration has passed.
record Passed (rules : List Rule) : Type 0 where
  unsuppressed : suppression rules ≡ none
  complete : is_empty (missing_pairs (coverage_of rules)) ≡ true
  first : is_preempted rules (coverage_of rules) ≡ false

evaluate_coverage-covered :
    (rules : List Rule) (c : Coverage × Bool)
    → (evaluate_coverage rules c).0 ≡ covered
    → (is_empty (missing_pairs c.0) ≡ true) × (is_preempted rules c.0 ≡ false)
unfolding evaluate_coverage
evaluate_coverage-covered rules (coverage, narrowed) h = ground arith

pub suppression-ne-covered :
    (rules : List Rule) {result : Verdict × Text}
    → suppression rules ≡ some result
    → result.0 ≢ covered
unfolding suppression
suppression-ne-covered rules h = ground arith

-- The branches that end in COVERED, with the part behind each left shut.
evaluate_candidates-covered :
    (rules candidates : List Rule) (machine_arch : Text)
    → (evaluate_candidates rules candidates machine_arch).0 ≡ covered
    → (suppression rules ≡ none)
      × (is_x86 machine_arch ≡ true
          → (evaluate_coverage rules (cover_candidates candidates ([], false))).0 ≡ covered)
unfolding evaluate_candidates evaluate_x86
evaluate_candidates-covered rules candidates machine_arch h =
    elim (Option-cases (suppression rules)) [
      | inl e ↦ (e, λ x86. ground arith)
      | inr (result, e) ↦ absurd (suppression-ne-covered rules e (rw (e, evaluate_candidates) at h))
    ]

pub evaluate_process_creation-candidates :
    (py : Python) (parsed : ParseResult) (machine_arch : Text)
    → (evaluate_process_creation py parsed machine_arch).0 ≡ covered
    → (evaluate_candidates parsed.rules (filter is_candidate parsed.rules) machine_arch).0 ≡ covered
unfolding evaluate_process_creation evaluate_rules
evaluate_process_creation-candidates py parsed machine_arch h = ground arith

evaluate_process_creation-Passed :
    (py : Python) (parsed : ParseResult) (machine_arch : Text)
    → is_x86 machine_arch ≡ true
    → (evaluate_process_creation py parsed machine_arch).0 ≡ covered
    → Passed parsed.rules
evaluate_process_creation-Passed py parsed machine_arch x86 h =
    let rules = parsed.rules in
    let candidates = filter is_candidate rules in
    let (unsuppressed, rest) =
      evaluate_candidates-covered rules candidates machine_arch
        (evaluate_process_creation-candidates py parsed machine_arch h) in
    let (complete, first) =
      evaluate_coverage-covered rules (cover_candidates candidates ([], false)) (rest x86) in
    record { unsuppressed = unsuppressed; complete = complete; first = first }

-- No rule for the task list excludes once `_suppression` has found nothing.
pub suppression-none :
    (rules : List Rule) → suppression rules ≡ none → any is_task_suppressor rules ≡ false
unfolding suppression
suppression-none rules h = ground (arith, is_empty-filter is_task_suppressor rules)

required-In :
    (arch syscall : Text)
    → In arch x86_arches
    → In syscall target_syscalls
    → In (arch, syscall) required
required-In arch syscall (here a) (here s) = rw (a, s) (there (there (here refl)))
required-In arch syscall (here a) (there (here s)) = rw (a, s) (there (there (there (here refl))))
required-In arch syscall (there (here a)) (here s) = rw (a, s) (here refl)
required-In arch syscall (there (here a)) (there (here s)) = rw (a, s) (there (here refl))
required-In arch syscall (here a) (there (there m)) = elim m [ ]
required-In arch syscall (there (here a)) (there (there m)) = elim m [ ]
required-In arch syscall (there (there m)) s = elim m [ ]

pub selects_of_selected :
    (syscall : Text) (selector : Selector)
    → member syscall (selected selector) ≡ true
    → selects selector syscall ≡ true
unfolding selects
selects_of_selected syscall (event_type_selector e) h = absurd (ground arith)
selects_of_selected syscall (syscall_selector syscalls scope) h =
    elim (Bool-cases (member (lit "all") syscalls)) [
      | inl e ↦ ground arith
      | inr e ↦
          let (m, q) =
            In-filter (λ s. member s syscalls) target_syscalls (member-In _ _ (rw e at h)) in
          ground arith
    ]

include_of_not_exclude : (e : Effect) → (e ≡ exclude → ⊥) → e ≡ include
include_of_not_exclude include h = refl
include_of_not_exclude exclude h = absurd (h refl)

not_preempted :
    (rules : List Rule) (coverage : Coverage) {arch syscall : Text} {rule q : Rule}
    → is_preempted rules coverage ≡ false
    → In (arch, syscall, rule) coverage
    → In q rules
    → q.order < rule.order
    → exit_rule_suppresses q arch syscall ≡ false
unfolding is_preempted
not_preempted rules coverage {rule} {q} h m n earlier =
    let none_of = any-none _ (any-none _ h m) n in ground (arith, lt→ltb q.order rule.order)

no_missing :
    (coverage : Coverage) {arch syscall : Text}
    → is_empty (missing_pairs coverage) ≡ true
    → In (arch, syscall) required
    → is_covered coverage arch syscall ≡ true
no_missing coverage h m =
    let absent = λ (pair : Text × Text). not (is_covered coverage pair.0 pair.1) in
    let none_of =
      any-none absent {xs = required} (ground (arith, is_empty-filter absent required)) m in
    ground arith

-- No task rule keeps new processes from being audited.
pub not_disabled :
    (holds : Predicate → Bool) (rules : List Rule) (arch syscall : Text)
    → suppression rules ≡ none
    → is_disabled (first_effect (task_matches holds arch syscall) rules) ≡ false
unfolding task_matches is_task_suppressor
not_disabled holds rules arch syscall unsuppressed = first_effect-ne-exclude _ rules λ q m k.
    let none_of = any-none is_task_suppressor (suppression-none rules unsuppressed) m in
    ground arith

module _ (holds : Predicate → Bool) (rules : List Rule) (passed : Passed rules)
    (ordered : IsOrdered rules) (single : All HasOneArch rules) where
  -- The covering rule decides the event.
  decided :
      (arch syscall : Text) (rule : Rule)
      → In (arch, syscall, rule) (coverage_of rules)
      → first_effect (exit_matches holds arch syscall) rules ≡ some include
  unfolding is_candidate selected_syscalls
  decided arch syscall rule m =
      let s = cover_candidates-IsSupported (filter is_candidate rules) _ m in
      let (listed, candidate) = In-filter is_candidate rules s.listed in
      let chosen = selects_of_selected syscall rule.selector s.names_syscall in
      first_effect-include (exit_matches holds arch syscall) rules ordered listed (ground arith)
        (exit_matches_of_unrestricted holds arch syscall rule (All-In HasOneArch single listed)
          (ground arith) s.free s.names_arch chosen)
        λ q n earlier k. include_of_not_exclude q.effect λ e.
          let found = exit_rule_suppresses_of_matches holds arch syscall q e k in
          let clear = not_preempted rules _ passed.first m n earlier in cc

  audited :
      (arch syscall : Text)
      → member arch x86_arches ≡ true
      → member syscall target_syscalls ≡ true
      → is_selected holds rules arch syscall ≡ true
  unfolding is_selected
  audited arch syscall known target =
      let wanted = required-In arch syscall (member-In _ _ known) (member-In _ _ target) in
      let present = no_missing _ passed.complete wanted in
      let (rule, m) = is_covered-In _ arch syscall present in
      rw (not_disabled holds rules arch syscall passed.unsuppressed, decided arch syscall rule m)
        refl

pub evaluate_process_creation-unsuppressed :
    (py : Python) (parsed : ParseResult) (machine_arch : Text)
    → (evaluate_process_creation py parsed machine_arch).0 ≡ covered
    → suppression parsed.rules ≡ none
evaluate_process_creation-unsuppressed py parsed machine_arch h =
    (evaluate_candidates-covered parsed.rules _ machine_arch
      (evaluate_process_creation-candidates py parsed machine_arch h)).0

pub evaluate_process_creation-is_audited :
    (py : Python) (parsed : ParseResult) (machine_arch : Text)
    → is_x86 machine_arch ≡ true
    → (evaluate_process_creation py parsed machine_arch).0 ≡ covered
    → IsOrdered parsed.rules
    → All HasOneArch parsed.rules
    → (holds : Predicate → Bool) (arch syscall : Text) → member arch x86_arches ≡ true
    → member syscall target_syscalls ≡ true
    → is_selected holds parsed.rules arch syscall ≡ true
evaluate_process_creation-is_audited py parsed machine_arch x86 h ordered single holds =
    audited holds parsed.rules (evaluate_process_creation-Passed py parsed machine_arch x86 h)
      ordered single
