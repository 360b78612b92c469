-- ===== src/Evaluate/Auditd/NeverRules.antt =====
-- sigmascope/evaluate/auditd.py: rules for the exit list that exclude, on machines other than
-- x86-64.
use sigmascope.Base.{Bool, true, false, List, ◌∷◌, ◌≡◌, refl, arith}
use sigmascope.Base.{Text, lit, ◌==◌, filter, any, eq_of_==, Python}
use sigmascope.Model.{Predicate, Rule, exclude, has_scope, ParseResult, Selector, syscall_selector}
use sigmascope.Model.{event_type_selector}
use sigmascope.Evaluate.Auditd.Suppression.{suppression, is_task_suppressor, is_exclude_rule}
use sigmascope.Evaluate.Auditd.ProcessCreation.{is_candidate, is_x86, is_numeric}
use sigmascope.Evaluate.Auditd.ProcessCreation.{evaluate_candidates, evaluate_rules}
use sigmascope.Evaluate.Auditd.ProcessCreation.{evaluate_process_creation}
use sigmascope.Evaluate.Auditd.Kernel.{exit_matches, first_effect, is_selected}

other_scope :
    (scope : Text) (selector : Selector)
    → (lit "exit" == scope) ≡ false
    → has_scope (lit "exit") selector ≡ true
    → has_scope scope selector ≡ false
unfolding has_scope
other_scope scope (syscall_selector syscalls s) differs h = rw (eq_of_== h) differs
other_scope scope (event_type_selector e) differs h = refl

exit_ne_task : (lit "exit" == lit "task") ≡ false
unfolding lit ◌==◌
exit_ne_task = refl

exit_ne_exclude : (lit "exit" == lit "exclude") ≡ false
unfolding lit ◌==◌
exit_ne_exclude = refl

module _ (q : Rule) (excludes : q.effect ≡ exclude)
    (scope : has_scope (lit "exit") q.selector ≡ true) where
  suppression-cons : (rules : List Rule) → suppression (q ∷ rules) ≡ suppression rules
  unfolding suppression is_task_suppressor is_exclude_rule filter any
  suppression-cons rules =
      let not_task = other_scope (lit "task") q.selector exit_ne_task scope in
      let not_exclude = other_scope (lit "exclude") q.selector exit_ne_exclude scope in
      rw (not_task, not_exclude, excludes) refl

  filter-cons : (rules : List Rule) → filter is_candidate (q ∷ rules) ≡ filter is_candidate rules
  unfolding filter is_candidate
  filter-cons rules = rw (excludes, scope) refl

  any-cons :
      (py : Python) (rules : List Rule)
      → any (is_numeric py) (q ∷ rules) ≡ any (is_numeric py) rules
  unfolding any is_numeric
  any-cons py rules = rw (excludes, scope) refl

  evaluate_candidates-cons :
      (rules candidates : List Rule) (machine_arch : Text)
      → is_x86 machine_arch ≡ false
      → evaluate_candidates (q ∷ rules) candidates machine_arch
        ≡ evaluate_candidates rules candidates machine_arch
  unfolding evaluate_candidates
  evaluate_candidates-cons rules candidates machine_arch other =
      ground (arith, suppression-cons rules)

  evaluate_rules-cons :
      (py : Python) (rules : List Rule) (machine_arch : Text)
      → is_x86 machine_arch ≡ false
      → evaluate_rules py (q ∷ rules) machine_arch ≡ evaluate_rules py rules machine_arch
  unfolding evaluate_rules
  evaluate_rules-cons py rules machine_arch other =
      rw (filter-cons, any-cons)
        (rw (evaluate_candidates-cons rules (filter is_candidate rules) machine_arch other) refl)

  -- On a machine other than x86-64, a rule for the exit list that excludes changes nothing in the
  -- verdict where it stands in front of all others, although the kernel then records no event that
  -- it matches.
  pub evaluate_process_creation-never :
      (py : Python) (parsed : ParseResult) (machine_arch : Text)
      → is_x86 machine_arch ≡ false
      → (holds : Predicate → Bool) (arch syscall : Text) → exit_matches holds arch syscall q ≡ true
      → (evaluate_process_creation py (record parsed { rules = q ∷ parsed.rules }) machine_arch
          ≡ evaluate_process_creation py parsed machine_arch)
        × (is_selected holds (q ∷ parsed.rules) arch syscall ≡ false)
  unfolding evaluate_process_creation is_selected first_effect
  evaluate_process_creation-never py parsed machine_arch other holds arch syscall matched =
      (rw (evaluate_rules-cons py parsed.rules machine_arch other) refl, ground arith)
