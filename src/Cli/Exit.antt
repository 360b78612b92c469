-- ===== src/Cli/Exit.antt =====
-- sigmascope/__main__.py: the exit status.
use sigmascope.Base.{Bool, true, false, List, [], ◌∷◌, ◌≡◌, refl, arith, any, leb, map, lit}
use sigmascope.Base.{Text, Option, if◌then◌else◌, ◌==◌}
use sigmascope.Model.{Verdict, covered, degraded, not_covered, indeterminate, verdict_value}
use sigmascope.Evaluate.Resolver.{Finding}
use sigmascope.Api.Run.{Report}
use sigmascope.Cli.{Threshold, fail_none, fail_degraded, fail_not_covered, fail_indeterminate}
use sigmascope.Cli.{
  Args, limit_of, severity, is_no_threshold, threshold_met, finish, main, reported,
}

-- The verdicts that a threshold reacts to.
abbrev pub reacts : Threshold → Verdict → Bool
reacts fail_none v = false
reacts fail_degraded covered = false
reacts fail_degraded _ = true
reacts fail_not_covered not_covered = true
reacts fail_not_covered indeterminate = true
reacts fail_not_covered _ = false
reacts fail_indeterminate indeterminate = true
reacts fail_indeterminate _ = false

severity-reacts :
    (threshold : Threshold) (v : Verdict)
    → is_no_threshold threshold ≡ false
    → leb (limit_of threshold) (severity (verdict_value v)) ≡ reacts threshold v
unfolding severity verdict_value lit ◌==◌
severity-reacts fail_none v h = absurd (ground arith)
severity-reacts fail_degraded covered h = refl
severity-reacts fail_degraded degraded h = refl
severity-reacts fail_degraded not_covered h = refl
severity-reacts fail_degraded indeterminate h = refl
severity-reacts fail_not_covered covered h = refl
severity-reacts fail_not_covered degraded h = refl
severity-reacts fail_not_covered not_covered h = refl
severity-reacts fail_not_covered indeterminate h = refl
severity-reacts fail_indeterminate covered h = refl
severity-reacts fail_indeterminate degraded h = refl
severity-reacts fail_indeterminate not_covered h = refl
severity-reacts fail_indeterminate indeterminate h = refl

any-reacts :
    (threshold : Threshold) (findings : List Finding) (verdicts : List Verdict)
    → is_no_threshold threshold ≡ false
    → map (λ f. f.verdict) findings ≡ map verdict_value verdicts
    → any (λ f. leb (limit_of threshold) (severity f.verdict)) findings
      ≡ any (reacts threshold) verdicts
unfolding any
any-reacts threshold [] [] h e = refl
any-reacts threshold [] (v ∷ vs) h e = absurd (ground arith)
any-reacts threshold (f ∷ fs) [] h e = absurd (ground arith)
any-reacts threshold (f ∷ fs) (v ∷ vs) h e =
    let same : f.verdict ≡ verdict_value v = ground arith in
    let others = any-reacts threshold fs vs h (ground arith) in
    rw (same, severity-reacts threshold v h, others) refl

any-none_reacts : (verdicts : List Verdict) → any (reacts fail_none) verdicts ≡ false
unfolding any
any-none_reacts [] = refl
any-none_reacts (v ∷ vs) = any-none_reacts vs

threshold_met-reacts :
    (threshold : Threshold) (findings : List Finding) (verdicts : List Verdict)
    → map (λ f. f.verdict) findings ≡ map verdict_value verdicts
    → threshold_met findings threshold ≡ any (reacts threshold) verdicts
unfolding threshold_met
threshold_met-reacts fail_none findings vs e = rw any-none_reacts refl
threshold_met-reacts fail_degraded findings vs e = any-reacts fail_degraded findings vs refl e
threshold_met-reacts fail_not_covered findings vs e = any-reacts fail_not_covered findings vs refl e
threshold_met-reacts fail_indeterminate findings vs e =
    any-reacts fail_indeterminate findings vs refl e

-- A call that asks for no schema and no version, and whose run ends in a report with the verdicts
-- `verdicts`, exits with 3 if one of them is a verdict that the threshold reacts to, and with 0
-- otherwise: none reacts to nothing, degraded to all but COVERED, not_covered to NOT_COVERED
-- and INDETERMINATE, and indeterminate to INDETERMINATE alone.
pub main-status :
    (render_json : Report → Text) (schema : Option Text) (args : Args) (report : Report)
    (verdicts : List Verdict)
    → args.print_schema ≡ false
    → args.print_catalog_version ≡ false
    → map (λ f. f.verdict) report.findings ≡ map verdict_value verdicts
    → (main render_json schema args (reported report)).status
      ≡ (if any (reacts args.fail_on) verdicts then 3 else 0)
unfolding main finish
main-status render_json schema args report verdicts no_schema no_version e =
    rw (no_schema, no_version, finish, threshold_met-reacts args.fail_on report.findings verdicts e)
      refl
