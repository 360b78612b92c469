-- ===== src/Cli.antt =====
-- sigmascope/__main__.py: `_threshold_met` and `main`, over the arguments that `argparse` has
-- accepted, the JSON encoder, the embedded schema and the outcome of `run`.
pub mod Exit
use sigmascope.Base.{ℕ, Bool, true, false, List, [], ◌∷◌, ◌++◌, if◌then◌else◌, leb, any}
use sigmascope.Base.{Option, none, some, Text, lit, ◌==◌}
use sigmascope.Evaluate.Resolver.{Finding}
use sigmascope.Catalog.{catalog_version}
use sigmascope.Api.Run.{Report}
use sigmascope.Report.{render_table}

pub data Format : Type 0 where
  json table : Format

-- The choices of `--fail-on`.
pub data Threshold : Type 0 where
  fail_none fail_degraded fail_not_covered fail_indeterminate : Threshold

pub record Args : Type 0 where
  pub format : Format
  pub fail_on : Threshold
  pub print_schema : Bool
  pub print_catalog_version : Bool

-- `order[threshold]`; "none" has no place and is handled before.
abbrev pub limit_of : Threshold → ℕ
limit_of fail_none = 0
limit_of fail_degraded = 1
limit_of fail_not_covered = 2
limit_of fail_indeterminate = 3

-- `order.get(verdict, 0)`
unfoldable pub severity : Text → ℕ
severity verdict =
    if verdict == lit "degraded"
    then 1
    else if verdict == lit "not_covered"
    then 2
    else if verdict == lit "indeterminate"
    then 3
    else 0

abbrev pub is_no_threshold : Threshold → Bool
is_no_threshold fail_none = true
is_no_threshold _ = false

unfoldable pub threshold_met : List Finding → Threshold → Bool
threshold_met findings threshold =
    if is_no_threshold threshold
    then false
    else any (λ item. leb (limit_of threshold) (severity item.verdict)) findings

pub record Output : Type 0 where
  pub status : ℕ
  pub stdout : Text
  pub stderr : Text

-- What `run` does: a report, or an OSError or a ValueError with its text.
pub data RunResult : Type 0 where
  reported : Report → RunResult
  failed : Text → RunResult

abbrev pub ends_in_newline : Text → Bool
ends_in_newline [] = false
ends_in_newline (c ∷ []) = (c ∷ []) == lit "\n"
ends_in_newline (c ∷ d ∷ s) = ends_in_newline (d ∷ s)

abbrev pub print_schema_text : Option Text → Output
print_schema_text none = record {
  status = 1;
  stdout = [];
  stderr = lit "sigmascope: embedded report schema is unavailable\n";
}
print_schema_text (some text) = record {
  status = 0;
  stdout = if ends_in_newline text then text else text ++ lit "\n";
  stderr = [];
}

module _ (render_json : Report → Text) where
  abbrev pub render : Format → Report → Text
  render json report = render_json report
  render table report = render_table report.findings

  unfoldable pub finish : Args → RunResult → Output
  unfolding threshold_met
  finish args (failed message) = record {
    status = 1;
    stdout = [];
    stderr = lit "sigmascope: " ++ message ++ lit "\n";
  }
  finish args (reported report) = record {
    status = if threshold_met report.findings args.fail_on then 3 else 0;
    stdout = render args.format report;
    stderr = [];
  }

  unfoldable pub main : Option Text → Args → RunResult → Output
  unfolding finish
  main schema args result =
      if args.print_schema
      then print_schema_text schema
      else if args.print_catalog_version
      then record { status = 0; stdout = catalog_version ++ lit "\n"; stderr = [] }
      else finish args result
