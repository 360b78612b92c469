-- ===== src/Evaluate/Auditd/OtherArch.antt =====
-- sigmascope/evaluate/auditd.py on machines other than x86-64, against the kernel's filters.
use sigmascope.Base.{Bool, true, false, not, ◌&&◌, List, [], ◌∷◌, ◌≡◌, refl, sym, inl, inr}
use sigmascope.Base.{arith, Text, lit, member, filter, any, is_empty, In, here, there}
use sigmascope.Base.{none, some, Bool-cases, any-In, any-none, In-cons, In-filter}
use sigmascope.Base.{is_empty-filter, Python, Option-cases, ap, ◌∙◌}
use sigmascope.Base.{member-In}
use sigmascope.Model.{Predicate, Rule, include, has_scope, ParseResult}
use sigmascope.Model.{covered}
use sigmascope.Evaluate.Auditd.Rules.{target_syscalls, selected_syscalls, predicate}
use sigmascope.Evaluate.Auditd.Rules.{restrictive}
use sigmascope.Evaluate.Auditd.Suppression.{suppression}
use sigmascope.Evaluate.Auditd.ProcessCreation.{is_candidate, is_x86, is_broad}
use sigmascope.Evaluate.Auditd.ProcessCreation.{evaluate_other_arch, evaluate_candidates}
use sigmascope.Evaluate.Auditd.ProcessCreation.{evaluate_process_creation}
use sigmascope.Evaluate.Auditd.Kernel.{exit_matches, first_effect, is_selected, is_audited}
use sigmascope.Evaluate.Auditd.Kernel.{All, NamesCalls, ExcludesNever}
use sigmascope.Evaluate.Auditd.Kernel.Lists.{is_audited_of_selected}
use sigmascope.Evaluate.Auditd.Covered.{evaluate_process_creation-unsuppressed}
use sigmascope.Evaluate.Auditd.Kernel.Laws.{exit_matches_of_archless}
use sigmascope.Evaluate.Auditd.Covered.{suppression-ne-covered, selects_of_selected, not_disabled}
use sigmascope.Evaluate.Auditd.Covered.{evaluate_process_creation-candidates}

abbrev names_arch : Rule → Bool
names_arch rule = not (is_empty (predicate rule (lit "arch")))

abbrev not_broad : List Rule → Text → Bool
not_broad candidates syscall = not (is_broad candidates syscall)

evaluate_other_arch-covered :
    (machine_arch : Text) (candidates : List Rule)
    → (evaluate_other_arch machine_arch candidates).0 ≡ covered
    → (any names_arch candidates ≡ false)
      × (is_empty (filter (not_broad candidates) target_syscalls) ≡ true)
unfolding evaluate_other_arch
evaluate_other_arch-covered machine_arch candidates h = ground arith

evaluate_candidates-covered_elsewhere :
    (rules candidates : List Rule) (machine_arch : Text)
    → is_x86 machine_arch ≡ false
    → (evaluate_candidates rules candidates machine_arch).0 ≡ covered
    → (suppression rules ≡ none) × ((evaluate_other_arch machine_arch candidates).0 ≡ covered)
unfolding evaluate_candidates
evaluate_candidates-covered_elsewhere rules candidates machine_arch other h =
    elim (Option-cases (suppression rules)) [
      | inl e ↦ (e, ground arith)
      | inr (result, e) ↦ absurd (suppression-ne-covered rules e (rw (e, evaluate_candidates) at h))
    ]

-- A recording rule decides where no rule for the list excludes.
first_effect-recorded :
    (matches : Rule → Bool) (rules : List Rule) {rule : Rule}
    → In rule rules
    → matches rule ≡ true
    → ((q : Rule) → In q rules → matches q ≡ true → q.effect ≡ include)
    → first_effect matches rules ≡ some include
unfolding first_effect
first_effect-recorded matches [] m k h = elim m [ ]
first_effect-recorded matches (q ∷ rest) m k h = elim (Bool-cases (matches q)) [
  | inl e ↦ rw (e, h q (here refl) e) refl
  | inr e ↦ elim (In-cons m) [
    | inl same ↦ absurd (clash (sym k ∙ (ap matches same ∙ e)))
    | inr later ↦ rw e (first_effect-recorded matches rest later k (λ r n. h r (there n)))
  ]
]
  where
    clash : true ≡ false → ⊥
    clash e = cc

-- No rule for the exit list excludes.
abbrev pub ExitRulesInclude : List Rule → Type 0
ExitRulesInclude rules =
    (r : Rule) → In r rules → has_scope (lit "exit") r.selector ≡ true → r.effect ≡ include

exit_scope :
    (holds : Predicate → Bool) (arch syscall : Text) (q : Rule)
    → exit_matches holds arch syscall q ≡ true
    → has_scope (lit "exit") q.selector ≡ true
unfolding exit_matches
exit_scope holds arch syscall q k = ground arith

broad_rule :
    (candidates : List Rule) (syscall : Text)
    → is_empty (filter (not_broad candidates) target_syscalls) ≡ true
    → In syscall target_syscalls
    → (rule : Rule) × In rule candidates
      × (restrictive rule ≡ false)
      × (member syscall (selected_syscalls rule) ≡ true)
unfolding is_broad
broad_rule candidates syscall h m =
    let nothing =
      any-none (not_broad candidates) {xs = target_syscalls}
        (ground (arith, is_empty-filter (not_broad candidates) target_syscalls)) m in
    let (rule, listed, chosen) =
      any-In (λ r. not (restrictive r) && member syscall (selected_syscalls r)) candidates
        (ground arith) in
    (rule, listed, ground arith, ground arith)

evaluate_process_creation-selected_elsewhere :
    (py : Python) (parsed : ParseResult) (machine_arch : Text)
    → is_x86 machine_arch ≡ false
    → (evaluate_process_creation py parsed machine_arch).0 ≡ covered
    → ExitRulesInclude parsed.rules
    → (holds : Predicate → Bool) (arch syscall : Text) → member syscall target_syscalls ≡ true
    → is_selected holds parsed.rules arch syscall ≡ true
unfolding is_selected is_candidate selected_syscalls
evaluate_process_creation-selected_elsewhere py parsed machine_arch other h open_exit holds arch
      syscall target =
    let rules = parsed.rules in
    let candidates = filter is_candidate rules in
    let (unsuppressed, rest) =
      evaluate_candidates-covered_elsewhere rules candidates machine_arch other
        (evaluate_process_creation-candidates py parsed machine_arch h) in
    let (archless, complete) = evaluate_other_arch-covered machine_arch candidates rest in
    let (rule, listed, free, chosen) =
      broad_rule candidates syscall complete (member-In _ _ target) in
    let (m, candidate) = In-filter is_candidate rules listed in
    let bare = any-none names_arch archless listed in
    let matched =
      exit_matches_of_archless holds arch syscall rule (ground arith) free (ground arith)
        (selects_of_selected syscall rule.selector chosen) in
    let recorded =
      first_effect-recorded (exit_matches holds arch syscall) rules m matched
        (λ q n k. open_exit q n (exit_scope holds arch syscall q k)) in
    rw (not_disabled holds rules arch syscall unsuppressed, recorded) refl

-- On a machine other than x86-64, COVERED means that the kernel records every call of execve and
-- execveat, and the exclude list drops none, if no rule for the exit list excludes, every rule for
-- the exclude list has the action `never`, and no rule names a system call by a number.
pub evaluate_process_creation-audited_elsewhere :
    (py : Python) (parsed : ParseResult) (machine_arch : Text)
    → is_x86 machine_arch ≡ false
    → (evaluate_process_creation py parsed machine_arch).0 ≡ covered
    → ExitRulesInclude parsed.rules
    → All NamesCalls parsed.rules
    → All ExcludesNever parsed.rules
    → (numbered : Text → Text → Text → Bool) (holds : Predicate → Bool) (arch syscall : Text)
    → member syscall target_syscalls ≡ true
    → is_audited numbered holds parsed.rules arch syscall ≡ true
evaluate_process_creation-audited_elsewhere py parsed machine_arch other h open_exit named never
      numbered holds arch syscall target =
    is_audited_of_selected numbered holds arch syscall parsed.rules named never
      (evaluate_process_creation-unsuppressed py parsed machine_arch h)
      (evaluate_process_creation-selected_elsewhere py parsed machine_arch other h open_exit holds
        arch syscall target)
