-- ===== src/Evaluate/Resolver.antt =====
-- sigmascope/evaluate/resolver.py, with the catalogue entries and the report parts that it
-- takes apart and builds.
pub mod Best
pub mod Decision
use sigmascope.Base.{ℕ, Bool, true, false, List, [], ◌∷◌, ◌++◌, if◌then◌else◌, ltb, map}
use sigmascope.Base.{Option, none, some, Text, lit, ◌==◌, join}
use sigmascope.Model.{Verdict, covered, indeterminate, satisfied, verdict_value, verdict_of}

pub record Evidence : Type 0 where
  pub resource : Text
  pub locator : Text
  pub raw : Text

-- The dict that `_provider_result` makes.
pub record ProviderResult : Type 0 where
  pub source_id : Text
  pub verdict : Text
  pub explanation : Text
  pub evidence : List Evidence

-- `service` is an optional key.
pub record Logsource : Type 0 where
  pub category : Text
  pub product : Text
  pub service : Option Text

pub record Finding : Type 0 where
  pub logsource : Logsource
  pub verdict : Text
  pub satisfied : Bool
  pub explanation : Text
  pub providers : List ProviderResult
  pub references : List Text

-- `_PROVIDER_ORDER.get(verdict, -1)`, plus one.
unfoldable pub provider_order : Text → ℕ
provider_order verdict =
    if verdict == lit "covered"
    then 4
    else if verdict == lit "indeterminate"
    then 3
    else if verdict == lit "degraded"
    then 2
    else if verdict == lit "not_covered"
    then 1
    else 0

-- `max` with a key: the first of the items whose key is the greatest.
unfoldable pub best_of : ProviderResult → List ProviderResult → ProviderResult
best_of best [] = best
best_of best (item ∷ rest) =
    best_of (if ltb (provider_order best.verdict) (provider_order item.verdict) then item else best)
      rest

unfoldable pub explain_all : List ProviderResult → Text
explain_all providers =
    join (lit "; ") (map (λ item. item.source_id ++ (lit ": " ++ item.explanation)) providers)

unfoldable pub explanation_for : Verdict → ProviderResult → List ProviderResult → Text
explanation_for covered best providers = best.explanation
explanation_for _ best providers = explain_all providers

-- The verdict and the explanation; `none` is the ValueError of `Verdict(…)`.
unfoldable pub resolve : List ProviderResult → Option (Verdict × Text)
resolve [] = some (indeterminate, lit "No provider evaluation was available.")
resolve (first ∷ rest) =
    let best = best_of first rest in
    elim (verdict_of best.verdict) [
      | none ↦ none
      | some verdict ↦ some (verdict, explanation_for verdict best (first ∷ rest))
    ]

unfoldable pub resolve_provider_disjunction :
    Logsource → List Text → List ProviderResult → Option Finding
unfolding resolve
resolve_provider_disjunction logsource references providers = elim (resolve providers) [
  | none ↦ none
  | some (verdict, explanation) ↦ some (record {
    logsource = logsource;
    verdict = verdict_value verdict;
    satisfied = satisfied verdict;
    explanation = explanation;
    providers = providers;
    references = references;
  })
]
