-- ===== src/Checks/Auditd.antt =====
-- The verdicts on auditd at concrete rules.
use sigmascope.Base.{true, false, [], ◌∷◌, ◌≡◌, refl, lit, ascii_python, In, here, ◌↔◌, any}
use sigmascope.Base.{some, arith, Text, In-cons, inl, inr}
use sigmascope.Model.{covered}
use sigmascope.Catalog.{linux_mappings}
use sigmascope.Evaluate.Auditd.ProcessCreation.{evaluate_process_creation, is_unknown}
use sigmascope.Evaluate.Auditd.FileWatch.{evaluate_file_watch, watch_targets}
use sigmascope.Evaluate.Auditd.Kernel.{is_audited, is_selected}
use sigmascope.Evaluate.Auditd.NotCovered.{NamesSyscalls, TaskRulesExclude}
use sigmascope.Evaluate.Auditd.NotCovered.{evaluate_process_creation-not_audited}
use sigmascope.Evaluate.Auditd.OtherArch.{ExitRulesInclude}
use sigmascope.Evaluate.Auditd.OtherArch.{evaluate_process_creation-audited_elsewhere}
use sigmascope.Evaluate.Auditd.NeverRules.{evaluate_process_creation-never}
use sigmascope.Evaluate.Auditd.Watches.{watches_something, stops_tasks, watch_verdict}
use sigmascope.Evaluate.Auditd.Watches.{evaluate_file_watch-verdict}
use sigmascope.Evaluate.Auditd.Targets.{IsTarget, Distinct, watch_targets-IsTarget}
use sigmascope.Api.Linux.{run_linux, linux_state, Outcome}
use sigmascope.Evaluate.Resolver.{Finding}
use sigmascope.Api.Linux.Mappings.{run_linux-mappings}
use sigmascope.Api.Linux.States.{AnswersAll, run_linux-AnswersAll}
use sigmascope.Api.Linux.Conservative.{IsReady, run_linux-satisfied, run_linux-is_audited}
use sigmascope.Checks.Data.{covering_text, archless_text, other_text, running, never_rule}
use sigmascope.Checks.Compute.{rules_of, verdict_for, run_on}

run_linux-is_audited_example :
    is_audited
      (λ a n s. true)
      (λ p. true)
      (linux_state ascii_python (lit "x86_64") running).parsed.rules
      (lit "b32")
      (lit "execveat")
    ≡ true
unfolding rules_of verdict_for run_on linux_state linux_mappings
run_linux-is_audited_example =
    run_linux-is_audited ascii_python linux_mappings (lit "x86_64") running refl (here refl) refl
      refl (omega arith, (omega arith, (omega arith, tt))) (refl, (refl, (refl, tt)))
      (
        (λ e. absurd (ground arith)),
        ((λ e. absurd (ground arith)), ((λ e. absurd (ground arith)), tt)),
      )
      (λ a n s. true) (λ p. true) (lit "b32") (lit "execveat") refl refl

run_linux-satisfied_example :
    IsReady (linux_state ascii_python (lit "x86_64") running)
    × ((evaluate_process_creation ascii_python
          (linux_state ascii_python (lit "x86_64") running).parsed
          (lit "x86_64")).0
        ≡ covered)
unfolding rules_of verdict_for run_on linux_mappings
run_linux-satisfied_example =
    run_linux-satisfied ascii_python linux_mappings (lit "x86_64") running refl (here refl) refl

run_linux-AnswersAll_example :
    (o : Outcome) × (run_linux ascii_python linux_mappings (lit "x86_64") running ≡ some o)
    × AnswersAll ascii_python
        (linux_state ascii_python (lit "x86_64") running)
        linux_mappings
        o.findings
run_linux-AnswersAll_example =
    run_linux-AnswersAll ascii_python linux_mappings (lit "x86_64") running

other_names : NamesSyscalls (rules_of other_text).rules
unfolding rules_of verdict_for
other_names r m = elim (In-cons m) [ inl e ↦ rw e (λ s. refl) | inr n ↦ elim n [ ] ]

other_tasks : TaskRulesExclude (rules_of other_text).rules
unfolding rules_of verdict_for
other_tasks r m = elim (In-cons m) [
  | inl e ↦ rw e (λ s. absurd (ground arith))
  | inr n ↦ elim n [ ]
]

evaluate_process_creation-not_audited_example :
    is_audited (λ a n s. true) (λ p. true) (rules_of other_text).rules (lit "b64") (lit "execve")
    ≡ false
unfolding rules_of verdict_for
evaluate_process_creation-not_audited_example =
    evaluate_process_creation-not_audited ascii_python (rules_of other_text) (lit "x86_64") refl
      other_names (refl, tt) other_tasks (λ a n s. true) (λ p. true) (lit "b64") (lit "execve") refl

archless_open : ExitRulesInclude (rules_of archless_text).rules
unfolding rules_of verdict_for
archless_open r m = elim (In-cons m) [
  | inl e ↦ rw e (λ s. refl)
  | inr n ↦ elim (In-cons n) [ inl e ↦ rw e (λ s. refl) | inr k ↦ elim k [ ] ]
]

evaluate_process_creation-audited_elsewhere_example :
    is_audited
      (λ a n s. true)
      (λ p. false)
      (rules_of archless_text).rules
      (lit "arm")
      (lit "execve")
    ≡ true
unfolding rules_of verdict_for
evaluate_process_creation-audited_elsewhere_example =
    evaluate_process_creation-audited_elsewhere ascii_python (rules_of archless_text)
      (lit "aarch64") refl refl archless_open (refl, (refl, tt))
      ((λ e. absurd (ground arith)), ((λ e. absurd (ground arith)), tt)) (λ a n s. true)
      (λ p. false) (lit "arm") (lit "execve") refl

evaluate_process_creation-never_example :
    (evaluate_process_creation ascii_python
        (record (rules_of archless_text) { rules = never_rule ∷ (rules_of archless_text).rules })
        (lit "aarch64")
      ≡ evaluate_process_creation ascii_python (rules_of archless_text) (lit "aarch64"))
    × (is_selected
          (λ p. false)
          (never_rule ∷ (rules_of archless_text).rules)
          (lit "arm")
          (lit "execve")
        ≡ false)
unfolding rules_of verdict_for
evaluate_process_creation-never_example =
    evaluate_process_creation-never never_rule refl refl ascii_python (rules_of archless_text)
      (lit "aarch64") refl (λ p. false) (lit "arm") (lit "execve") refl

evaluate_file_watch-verdict_example :
    (evaluate_file_watch (rules_of covering_text)).0
    ≡ watch_verdict
        (is_unknown (rules_of covering_text).determinacy)
        (any watches_something (rules_of covering_text).rules)
        (any stops_tasks (rules_of covering_text).rules)
evaluate_file_watch-verdict_example = evaluate_file_watch-verdict (rules_of covering_text)

watch_targets-IsTarget_example :
    ((t : Text)
      → In t (watch_targets (rules_of covering_text).rules [])
        ↔ IsTarget (rules_of covering_text).rules t)
    × Distinct (watch_targets (rules_of covering_text).rules [])
watch_targets-IsTarget_example = watch_targets-IsTarget (rules_of covering_text).rules

run_linux-mappings_example :
    (o : Outcome) × (f : Finding) × (g : Finding) × (run_linux ascii_python linux_mappings
        (lit "x86_64")
        running
      ≡ some o)
    × (o.findings ≡ f ∷ g ∷ [])
    × ((f.satisfied ≡ true) ↔ (
        IsReady (linux_state ascii_python (lit "x86_64") running)
        × ((evaluate_process_creation ascii_python
              (linux_state ascii_python (lit "x86_64") running).parsed
              (lit "x86_64")).0
            ≡ covered)))
    × (g.satisfied ≡ false)
run_linux-mappings_example = run_linux-mappings ascii_python (lit "x86_64") running
