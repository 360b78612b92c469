-- ===== src/Api/Linux/Mappings.antt =====
-- sigmascope/api.py: `_run_linux` on the entries of the catalogue for Linux.
use sigmascope.Base.{true, false, List, [], ◌∷◌, ◌≡◌, refl, sym, ap, ◌∙◌, inl, inr, arith}
use sigmascope.Base.{Text, lit, ◌==◌, some, In-cons, ◌↔◌, Python}
use sigmascope.Model.{covered, satisfied}
use sigmascope.Catalog.{Requirement, auditd_for, linux_mappings}
use sigmascope.Evaluate.Auditd.ProcessCreation.{evaluate_process_creation}
use sigmascope.Evaluate.Auditd.Watches.{evaluate_file_watch-verdict}
use sigmascope.Evaluate.Resolver.{Finding}
use sigmascope.Api.Evidence.{provider_result}
use mathlib.Core.List.{flatten}
use sigmascope.Api.Linux.{AuditdCollection, LinuxState, linux_state, evaluate_auditd}
use sigmascope.Api.Linux.{evaluate_requirement, Outcome, run_linux}
use sigmascope.Api.Linux.States.{Answers, AnswersAll, no_answers, answer, run_linux-AnswersAll}
use sigmascope.Api.Linux.Conservative.{IsReady, evaluate_auditd-covered, verdict_value-injective}
use sigmascope.Api.Linux.Conservative.{satisfied-covered, watch_verdict-ne-covered}

module _ (py : Python) (state : LinuxState) where
  -- With one provider the finding has the verdict of that provider.
  Answers-satisfied_one :
      (requirement : Text) {r : Requirement} {f : Finding}
      → r.providers ≡ auditd_for requirement ∷ []
      → Answers py state r f
      → f.satisfied ≡ satisfied (evaluate_auditd py state requirement).0
  unfolding flatten provider_result
  Answers-satisfied_one requirement one a = elim (rw one at a.reason) [
    | inl (e, i) ↦ absurd (ground arith)
    | inr b ↦ elim (In-cons b.listed) [
      | inl same ↦
          let said = sym b.says ∙ ap (λ item. item.verdict) same in
          a.reports.satisfied_is ∙ ap satisfied (verdict_value-injective _ _ said)
      | inr nothing ↦ elim nothing [ ]
    ]
  ]

  evaluate_auditd-of_IsReady :
      IsReady state
      → (evaluate_process_creation py state.parsed state.arch).0 ≡ covered
      → (evaluate_auditd py state (lit "process_creation")).0 ≡ covered
  unfolding evaluate_auditd evaluate_requirement lit ◌==◌
  evaluate_auditd-of_IsReady ready h =
      rw
        (
          ready.is_installed, ready.enabled_nonzero, ready.pid_nonzero, ready.status_parsed,
          ready.enabled_known, ready.pid_known, ready.rules_read,
        )
        h

  file_watch-ne-covered : satisfied (evaluate_auditd py state (lit "file_watch")).0 ≡ false
  unfolding evaluate_auditd evaluate_requirement lit ◌==◌
  file_watch-ne-covered =
      ground (arith, evaluate_file_watch-verdict state.parsed, watch_verdict-ne-covered _ _ _)

  satisfied-IsReady :
      (satisfied (evaluate_auditd py state (lit "process_creation")).0 ≡ true)
      ↔ (IsReady state × ((evaluate_process_creation py state.parsed state.arch).0 ≡ covered))
  satisfied-IsReady = (
    λ h. evaluate_auditd-covered py state (lit "process_creation") (satisfied-covered _ h),
    λ (ready, h). ap satisfied (evaluate_auditd-of_IsReady ready h),
  )

  AnswersAll-two :
      {r q : Requirement} {fs : List Finding}
      → AnswersAll py state (r ∷ q ∷ []) fs
      → (f g : Finding) × (fs ≡ f ∷ g ∷ []) × Answers py state r f × Answers py state q g
  AnswersAll-two (answer {f = f} a (answer {f = g} b no_answers)) = (f, g, refl, a, b)

-- A run on the catalogue's entries for Linux has two findings. The one for process creation is
-- satisfied exactly when the host was inspected in full and the verdict of the rules is COVERED; the
-- one for file events never is.
pub run_linux-mappings :
    (py : Python) (arch : Text) (collection : AuditdCollection)
    → (o : Outcome) × (f : Finding) × (g : Finding) × (run_linux py linux_mappings arch collection
        ≡ some o)
      × (o.findings ≡ f ∷ g ∷ [])
      × ((f.satisfied ≡ true) ↔ (
          IsReady (linux_state py arch collection)
          × ((evaluate_process_creation py (linux_state py arch collection).parsed arch).0
              ≡ covered)))
      × (g.satisfied ≡ false)
unfolding linux_mappings linux_state
run_linux-mappings py arch collection =
    let state = linux_state py arch collection in
    let (o, e, answers) = run_linux-AnswersAll py linux_mappings arch collection in
    let (f, g, both, a, b) = AnswersAll-two py state answers in
    let first = Answers-satisfied_one py state (lit "process_creation") refl a in
    let second = Answers-satisfied_one py state (lit "file_watch") refl b in
    (
      o,
      f,
      g,
      e,
      both,
      rw first (satisfied-IsReady py state),
      second ∙ file_watch-ne-covered py state,
    )
