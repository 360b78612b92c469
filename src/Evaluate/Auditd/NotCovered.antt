-- ===== src/Evaluate/Auditd/NotCovered.antt =====
-- sigmascope/evaluate/auditd.py against the kernel's filters: what a NOT_COVERED verdict of
-- `evaluate_process_creation` promises.
use sigmascope.Base.{Bool, true, false, not, List, [], ◌∷◌, ◌≡◌, refl, sym, inl, inr}
use sigmascope.Base.{arith, Text, lit, ◌==◌, member, filter, any, all, is_empty, In, here, there}
use sigmascope.Base.{some, ◌⊎◌, ◌≢◌, Bool-cases, any-In, any-none, In-cons, In-filter}
use sigmascope.Base.{ap, ◌∙◌, In-nonempty, In-filter_of_In, member-In}
use sigmascope.Base.{is_empty-filter, eq_of_==, Python, Option-cases}
use sigmascope.Model.{Predicate, Rule, exclude, has_scope, ParseResult}
use sigmascope.Model.{Selector, syscall_selector, event_type_selector, Verdict, not_covered}
use sigmascope.Evaluate.Auditd.Rules.{target_syscalls, selected_syscalls, selected}
use sigmascope.Evaluate.Auditd.Suppression.{suppression, is_task_suppressor, is_unconditional}
use sigmascope.Evaluate.Auditd.ProcessCreation.{is_candidate, syscalls_of}
use sigmascope.Evaluate.Auditd.ProcessCreation.{evaluate_coverage, evaluate_x86}
use sigmascope.Evaluate.Auditd.ProcessCreation.{evaluate_other_arch, evaluate_candidates}
use sigmascope.Evaluate.Auditd.ProcessCreation.{evaluate_rules, evaluate_process_creation}
use sigmascope.Evaluate.Auditd.Kernel.{predicate_holds, selects, exit_matches, task_matches}
use sigmascope.Evaluate.Auditd.Kernel.{first_effect, is_selected, is_disabled, is_recorded}
use sigmascope.Evaluate.Auditd.Kernel.{is_audited, All, NamesCalls}
use sigmascope.Evaluate.Auditd.Kernel.Lists.{not_audited_of_unselected}

evaluate_x86-ne-not_covered :
    (rules candidates : List Rule) → (evaluate_x86 rules candidates).0 ≢ not_covered
unfolding evaluate_x86 evaluate_coverage
evaluate_x86-ne-not_covered rules candidates = ground arith

evaluate_other_arch-ne-not_covered :
    (machine_arch : Text) (candidates : List Rule)
    → (evaluate_other_arch machine_arch candidates).0 ≢ not_covered
unfolding evaluate_other_arch
evaluate_other_arch-ne-not_covered machine_arch candidates = ground arith

-- Where the verdict comes from.
suppression-not_covered :
    (rules : List Rule) {result : Verdict × Text}
    → suppression rules ≡ some result
    → result.0 ≡ not_covered
    → any is_unconditional (filter is_task_suppressor rules) ≡ true
unfolding suppression
suppression-not_covered rules h k = ground arith

evaluate_candidates-not_covered :
    (rules candidates : List Rule) (machine_arch : Text)
    → (evaluate_candidates rules candidates machine_arch).0 ≡ not_covered
    → any is_unconditional (filter is_task_suppressor rules) ≡ true
unfolding evaluate_candidates
evaluate_candidates-not_covered rules candidates machine_arch h =
    elim (Option-cases (suppression rules)) [
      | inl e ↦ absurd (
          ground (
            arith,
            evaluate_x86-ne-not_covered rules candidates,
            evaluate_other_arch-ne-not_covered machine_arch candidates,
          ))
      | inr (result, e) ↦ suppression-not_covered rules e (rw (e, evaluate_candidates) at h)
    ]

evaluate_process_creation-not_covered :
    (py : Python) (parsed : ParseResult) (machine_arch : Text)
    → (evaluate_process_creation py parsed machine_arch).0 ≡ not_covered
    → (any is_candidate parsed.rules ≡ false)
      ⊎ (any is_unconditional (filter is_task_suppressor parsed.rules) ≡ true)
unfolding evaluate_process_creation evaluate_rules
evaluate_process_creation-not_covered py parsed machine_arch h = ground (
  arith,
  is_empty-filter is_candidate parsed.rules,
  evaluate_candidates-not_covered parsed.rules (filter is_candidate parsed.rules) machine_arch,
)

clash : true ≡ false → ⊥
clash e = cc

module _ (matches : Rule → Bool) where
  first_effect-ne-include :
      (rules : List Rule)
      → ((q : Rule) → In q rules → matches q ≡ true → q.effect ≡ exclude)
      → is_recorded (first_effect matches rules) ≡ false
  unfolding first_effect
  first_effect-ne-include [] h = refl
  first_effect-ne-include (q ∷ rest) h = elim (Bool-cases (matches q)) [
    | inl k ↦ rw (k, h q (here refl) k) refl
    | inr k ↦ rw k (first_effect-ne-include rest (λ r m. h r (there m)))
  ]

  first_effect-exclude :
      (rules : List Rule) {rule : Rule}
      → In rule rules
      → matches rule ≡ true
      → ((q : Rule) → In q rules → matches q ≡ true → q.effect ≡ exclude)
      → is_disabled (first_effect matches rules) ≡ true
  unfolding first_effect
  first_effect-exclude [] m k h = elim m [ ]
  first_effect-exclude (q ∷ rest) m k h = elim (Bool-cases (matches q)) [
    | inl e ↦ rw (e, h q (here refl) e) refl
    | inr e ↦ elim (In-cons m) [
      | inl same ↦ absurd (clash (sym k ∙ (ap matches same ∙ e)))
      | inr later ↦ rw e (first_effect-exclude rest later k (λ r n. h r (there n)))
    ]
  ]

key_ne_arch : (s : Text) → (s == lit "key") ≡ true → (s == lit "arch") ≡ false
key_ne_arch s h = rw (eq_of_== h) (unfold lit ◌==◌ in refl)

keys_hold :
    (holds : Predicate → Bool) (arch : Text) (ps : List Predicate)
    → is_empty (filter (λ p. not (p.field == lit "key")) ps) ≡ true
    → all (predicate_holds holds arch) ps ≡ true
unfolding filter all predicate_holds
keys_hold holds arch [] h = refl
keys_hold holds arch (p ∷ ps) h = ground (arith, key_ne_arch p.field, keys_hold holds arch ps)

-- Every rule for the exit list names system calls, as `auditctl -l` prints them ("-S all" for
-- a rule without).
abbrev pub NamesSyscalls : List Rule → Type 0
NamesSyscalls rules =
    (r : Rule)
    → In r rules
    → has_scope (lit "exit") r.selector ≡ true
    → is_empty (syscalls_of r.selector) ≡ false

-- Rules for the task list only exclude.
abbrev pub TaskRulesExclude : List Rule → Type 0
TaskRulesExclude rules =
    (r : Rule) → In r rules → has_scope (lit "task") r.selector ≡ true → r.effect ≡ exclude

selected_of_selects :
    (syscall : Text) (selector : Selector)
    → In syscall target_syscalls
    → selects selector syscall ≡ true
    → is_empty (syscalls_of selector) ≡ false
    → is_empty (selected selector) ≡ false
unfolding selects
selected_of_selects syscall (event_type_selector e) t h n = absurd (ground arith)
selected_of_selects syscall (syscall_selector syscalls scope) t h n =
    elim (Bool-cases (member (lit "all") syscalls)) [
      | inl e ↦ rw e refl
      | inr e ↦ rw e (In-nonempty (In-filter_of_In (λ s. member s syscalls) t (ground arith)))
    ]

-- A rule that would record the event is a candidate.
exclude_of_no_candidate :
    (holds : Predicate → Bool) (arch syscall : Text) (rules : List Rule)
    → NamesSyscalls rules
    → In syscall target_syscalls
    → any is_candidate rules ≡ false
    → (q : Rule) → In q rules
    → exit_matches holds arch syscall q ≡ true
    → q.effect ≡ exclude
unfolding exit_matches is_candidate selected_syscalls
exclude_of_no_candidate holds arch syscall rules named target nobody q m k =
    let passed_over = any-none is_candidate nobody m in
    let chosen = selected_of_selects syscall q.selector target in ground (arith, named q m, chosen)

unconditional_matches :
    (holds : Predicate → Bool) (arch syscall : Text) (q : Rule)
    → is_task_suppressor q ≡ true
    → is_unconditional q ≡ true
    → task_matches holds arch syscall q ≡ true
unfolding is_task_suppressor is_unconditional task_matches
unconditional_matches holds arch syscall q s u = ground (arith, keys_hold holds arch q.predicates u)

task_scope :
    (holds : Predicate → Bool) (arch syscall : Text) (q : Rule)
    → task_matches holds arch syscall q ≡ true
    → has_scope (lit "task") q.selector ≡ true
unfolding task_matches
task_scope holds arch syscall q k = ground arith

evaluate_process_creation-not_selected :
    (py : Python) (parsed : ParseResult) (machine_arch : Text)
    → (evaluate_process_creation py parsed machine_arch).0 ≡ not_covered
    → NamesSyscalls parsed.rules
    → TaskRulesExclude parsed.rules
    → (holds : Predicate → Bool) (arch syscall : Text) → member syscall target_syscalls ≡ true
    → is_selected holds parsed.rules arch syscall ≡ false
unfolding is_selected
evaluate_process_creation-not_selected py parsed machine_arch h named tasks holds arch syscall
      target =
    elim (evaluate_process_creation-not_covered py parsed machine_arch h) [
      | inl nobody ↦
          let unrecorded = first_effect-ne-include (exit_matches holds arch syscall) parsed.rules (
            exclude_of_no_candidate holds arch syscall parsed.rules named (member-In _ _ target)
              nobody) in
          ground arith
      | inr stopped ↦
          let (q, m, u) =
            any-In is_unconditional (filter is_task_suppressor parsed.rules) stopped in
          let (listed, s) = In-filter is_task_suppressor parsed.rules m in
          let disabled =
            first_effect-exclude (task_matches holds arch syscall) parsed.rules listed
              (unconditional_matches holds arch syscall q s u)
              (λ r n k. tasks r n (task_scope holds arch syscall r k)) in
          ground arith
    ]

-- NOT_COVERED means that the kernel records no call of execve and execveat of a process that is
-- created while the rules are loaded, on any architecture and whatever the other fields of the
-- event are, if every rule for the exit list names its system calls, none of them by a number, and
-- rules for the task list only exclude. A process that is older may hold an audit context.
pub evaluate_process_creation-not_audited :
    (py : Python) (parsed : ParseResult) (machine_arch : Text)
    → (evaluate_process_creation py parsed machine_arch).0 ≡ not_covered
    → NamesSyscalls parsed.rules
    → All NamesCalls parsed.rules
    → TaskRulesExclude parsed.rules
    → (numbered : Text → Text → Text → Bool) (holds : Predicate → Bool) (arch syscall : Text)
    → member syscall target_syscalls ≡ true
    → is_audited numbered holds parsed.rules arch syscall ≡ false
evaluate_process_creation-not_audited py parsed machine_arch h named calls tasks numbered holds arch
      syscall target =
    not_audited_of_unselected numbered holds arch syscall parsed.rules calls (
      evaluate_process_creation-not_selected py parsed machine_arch h named tasks holds arch syscall
        target)
