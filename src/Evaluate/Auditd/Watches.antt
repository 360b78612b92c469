-- ===== src/Evaluate/Auditd/Watches.antt =====
-- sigmascope/evaluate/auditd.py: the targets and the verdict of `evaluate_file_watch`.
use sigmascope.Base.{Bool, true, false, not, ◌&&◌, List, [], ◌∷◌, ◌++◌, ◌≡◌, refl}
use sigmascope.Base.{arith, Text, member, filter, any, is_empty}
use sigmascope.Base.{if◌then◌else◌}
use sigmascope.Model.{Predicate, Rule, ParseResult, Verdict, degraded, not_covered}
use sigmascope.Model.{indeterminate}
use sigmascope.Evaluate.Auditd.Suppression.{suppression, is_task_suppressor, is_unconditional}
use sigmascope.Evaluate.Auditd.ProcessCreation.{is_unknown}
use sigmascope.Evaluate.Auditd.FileWatch.{is_watch, path_fields, add_targets, watch_targets}
use sigmascope.Evaluate.Auditd.FileWatch.{scoped_result, evaluate_watches, evaluate_file_watch}

-- A rule that watches a path or a directory for writes and attribute changes.
abbrev pub watches_something : Rule → Bool
watches_something rule = is_watch rule && any (λ p. member p.field path_fields) rule.predicates

-- An unconditional rule that keeps new processes from being audited.
abbrev pub stops_tasks : Rule → Bool
stops_tasks rule = is_task_suppressor rule && is_unconditional rule

-- The verdict by the three facts that decide it.
abbrev pub watch_verdict : Bool → Bool → Bool → Verdict
watch_verdict true watched stopped = indeterminate
watch_verdict false false stopped = not_covered
watch_verdict false true true = not_covered
watch_verdict false true false = degraded

append-nonempty : (xs : List Text) (x : Text) → is_empty (xs ++ x ∷ []) ≡ false
append-nonempty [] x = refl
append-nonempty (y ∷ xs) x = refl

member_nil : (xs : List Text) (x : Text) → is_empty xs ≡ true → member x xs ≡ false
member_nil [] x h = refl
member_nil (y ∷ xs) x h = absurd (ground arith)

is_empty-add_targets :
    (ps : List Predicate) (targets : List Text)
    → is_empty (add_targets ps targets)
      ≡ (is_empty targets && not (any (λ p. member p.field path_fields) ps))
unfolding add_targets any
is_empty-add_targets [] targets = ground arith
is_empty-add_targets (p ∷ ps) targets = ground (
  arith,
  is_empty-add_targets ps targets,
  is_empty-add_targets ps (targets ++ p.value ∷ []),
  append-nonempty targets p.value,
  member_nil targets p.value,
)

is_empty-watch_targets :
    (rules : List Rule) (targets : List Text)
    → is_empty (watch_targets rules targets)
      ≡ (is_empty targets && not (any watches_something rules))
unfolding watch_targets any
is_empty-watch_targets [] targets = ground arith
is_empty-watch_targets (rule ∷ rest) targets = ground (
  arith,
  is_empty-watch_targets rest targets,
  is_empty-watch_targets rest (add_targets rule.predicates targets),
  is_empty-add_targets rule.predicates targets,
)

any-filter :
    (rules : List Rule)
    → any is_unconditional (filter is_task_suppressor rules) ≡ any stops_tasks rules
unfolding any filter
any-filter [] = refl
any-filter (rule ∷ rest) = ground (arith, any-filter rest)

evaluate_watches-verdict :
    (rules : List Rule) (targets : List Text)
    → (evaluate_watches rules targets (suppression rules)).0
      ≡ (if any stops_tasks rules then not_covered else degraded)
unfolding evaluate_watches scoped_result suppression
evaluate_watches-verdict rules targets = ground (arith, any-filter rules)

-- The verdict for every configuration: INDETERMINATE if it was not parsed safely, NOT_COVERED if
-- no rule watches a path for writes and attribute changes or if an unconditional never,task
-- rule is loaded, and DEGRADED otherwise. It is never COVERED.
pub evaluate_file_watch-verdict :
    (parsed : ParseResult)
    → (evaluate_file_watch parsed).0
      ≡ watch_verdict
          (is_unknown parsed.determinacy)
          (any watches_something parsed.rules)
          (any stops_tasks parsed.rules)
unfolding evaluate_file_watch
evaluate_file_watch-verdict parsed = ground (
  arith,
  is_empty-watch_targets parsed.rules [],
  evaluate_watches-verdict parsed.rules (watch_targets parsed.rules []),
)
