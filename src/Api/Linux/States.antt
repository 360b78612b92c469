-- ===== src/Api/Linux/States.antt =====
-- sigmascope/api.py: the findings of `_run_linux`.
use sigmascope.Base.{List, [], ◌∷◌, ◌++◌, map, ◌≡◌, refl, ap}
use sigmascope.Base.{inl, inr, Text, some, In}
use sigmascope.Base.{In-cons, ◌⊎◌, Python}
use sigmascope.Model.{Verdict, indeterminate}
use sigmascope.Model.{verdict_value}
use sigmascope.Catalog.{AuditdProvider, Provider, auditd, windows_audit, sysmon, Requirement}
use sigmascope.Evaluate.Resolver.{ProviderResult, Finding}
use sigmascope.Evaluate.Resolver.Best.{AllValid, IsBest}
use sigmascope.Evaluate.Resolver.Decision.{Reports, resolve_provider_disjunction-Reports}
use sigmascope.Api.Evidence.{provider_result, evidence_from_gates, evidence_from_rules}
use mathlib.Core.List.{flatten}
use sigmascope.Api.Linux.{AuditdCollection, LinuxState, linux_state, evaluate_auditd}
use sigmascope.Api.Linux.{auditd_outputs, linux_findings}
use sigmascope.Api.Linux.{Outcome, linux_outcome, run_linux}

-- Some provider of the list is of kind "auditd", and asks for the requirement.
pub data Asks (requirement : Text) : List Provider → Type 0 where
  asks_here :
      {p : AuditdProvider} {rest : List Provider}
      → p.requirement ≡ requirement
      → Asks requirement (auditd p ∷ rest)
  asks_later :
      {p : Provider} {rest : List Provider} → Asks requirement rest → Asks requirement (p ∷ rest)

module _ (py : Python) (state : LinuxState) where
  -- Every output comes from a provider of kind "auditd".
  pub record Judges (providers : List Provider) (item : ProviderResult) : Type 0 where
    pub requirement : Text
    pub asked : Asks requirement providers
    pub verdict_is : item.verdict ≡ verdict_value (evaluate_auditd py state requirement).0

  Judges-later :
      (p : Provider) {rest : List Provider} {item : ProviderResult}
      → Judges rest item
      → Judges (p ∷ rest) item
  Judges-later p j = record {
    requirement = j.requirement;
    asked = asks_later j.asked;
    verdict_is = j.verdict_is;
  }

  pub auditd_outputs-Judges :
      (providers : List Provider) {item : ProviderResult}
      → In item (auditd_outputs py state providers)
      → Judges providers item
  unfolding auditd_outputs provider_result
  auditd_outputs-Judges [] m = elim m [ ]
  auditd_outputs-Judges (auditd p ∷ rest) m = elim (In-cons m) [
    | inl same ↦ record {
      requirement = p.requirement;
      asked = asks_here refl;
      verdict_is = ap (λ r. r.verdict) same;
    }
    | inr later ↦ Judges-later (auditd p) (auditd_outputs-Judges rest later)
  ]
  auditd_outputs-Judges (windows_audit p ∷ rest) m =
      Judges-later (windows_audit p) (auditd_outputs-Judges rest m)
  auditd_outputs-Judges (sysmon p ∷ rest) m = Judges-later (sysmon p) (auditd_outputs-Judges rest m)

  -- The result of a provider that is of kind "auditd", and of no other.
  abbrev pub result_of : Provider → List ProviderResult
  result_of (auditd p) =
      provider_result p.source_id (evaluate_auditd py state p.requirement)
        (evidence_from_gates state.status.gates ++ evidence_from_rules state.parsed)
      ∷ []
  result_of _ = []

  -- The results of all providers of kind "auditd", in their order.
  abbrev pub expected_outputs : List Provider → List ProviderResult
  expected_outputs providers = flatten (map result_of providers)

  pub auditd_outputs-expected :
      (providers : List Provider) → auditd_outputs py state providers ≡ expected_outputs providers
  unfolding auditd_outputs flatten
  auditd_outputs-expected [] = refl
  auditd_outputs-expected (auditd p ∷ rest) =
      ap
        (λ items.
          provider_result p.source_id (evaluate_auditd py state p.requirement)
            (evidence_from_gates state.status.gates ++ evidence_from_rules state.parsed)
          ∷ items)
        (auditd_outputs-expected rest)
  auditd_outputs-expected (windows_audit p ∷ rest) = auditd_outputs-expected rest
  auditd_outputs-expected (sysmon p ∷ rest) = auditd_outputs-expected rest

  pub expected_outputs-Judges :
      (providers : List Provider) {item : ProviderResult}
      → In item (expected_outputs providers)
      → Judges providers item
  expected_outputs-Judges providers m =
      auditd_outputs-Judges providers (rw (← auditd_outputs-expected providers) at m)

  expected_outputs-AllValid : (providers : List Provider) → AllValid (expected_outputs providers)
  expected_outputs-AllValid providers item m =
      let j = expected_outputs-Judges providers m in (_, j.verdict_is)

  -- A finding of a requirement: its verdict is the best of its auditd providers, or INDETERMINATE
  -- without one.
  pub record Answers (requirement : Requirement) (f : Finding) : Type 0 where
    pub verdict : Verdict
    pub reports :
        Reports requirement.logsource requirement.references
          (expected_outputs requirement.providers)
          verdict
          f
    pub reason :
        (expected_outputs requirement.providers ≡ []) × (verdict ≡ indeterminate)
        ⊎ IsBest (expected_outputs requirement.providers) verdict

  -- One finding for each requirement, in their order.
  pub data AnswersAll : List Requirement → List Finding → Type 0 where
    no_answers : AnswersAll [] []
    answer :
        {r : Requirement} {f : Finding} {rs : List Requirement} {fs : List Finding}
        → Answers r f
        → AnswersAll rs fs
        → AnswersAll (r ∷ rs) (f ∷ fs)

  linux_findings-AnswersAll :
      (requirements : List Requirement)
      → (fs : List Finding) × (linux_findings py state requirements ≡ some fs)
        × AnswersAll requirements fs
  unfolding linux_findings
  linux_findings-AnswersAll [] = ([], refl, no_answers)
  linux_findings-AnswersAll (r ∷ rs) =
      let (fs, e, rest) = linux_findings-AnswersAll rs in
      let (f, v, d, report, reason) =
        resolve_provider_disjunction-Reports r.logsource r.references (expected_outputs r.providers)
          (expected_outputs-AllValid r.providers) in
      (
        f ∷ fs,
        rw (linux_findings, auditd_outputs-expected, d, e) refl,
        answer (record { verdict = v; reports = report; reason = reason }) rest,
      )

-- A run on Linux always ends in a report: one finding for each requirement, in their order, with
-- the logsource and the references of the requirement and the best of the verdicts of its providers of
-- kind "auditd", or INDETERMINATE where it has none.
pub run_linux-AnswersAll :
    (py : Python) (requirements : List Requirement) (arch : Text) (collection : AuditdCollection)
    → (o : Outcome) × (run_linux py requirements arch collection ≡ some o)
      × AnswersAll py (linux_state py arch collection) requirements o.findings
unfolding run_linux
run_linux-AnswersAll py requirements arch collection =
    let state = linux_state py arch collection in
    let (fs, e, all_answered) = linux_findings-AnswersAll py state requirements in
    (linux_outcome state fs, rw (e, run_linux) refl, all_answered)
