-- ===== src/Api/Windows/Mappings.antt =====
-- sigmascope/api.py: `_run_windows` on the entries of the catalogue for Windows.
use sigmascope.Base.{true, false, List, [], ◌∷◌, ◌≡◌, refl, sym, ap, ◌∙◌, inl, inr, arith}
use sigmascope.Base.{lit, some, Option, In-cons, Python, ◌≢◌}
use sigmascope.Model.{Verdict, covered, satisfied, ParseResult}
use sigmascope.Catalog.{Requirement, windows_audit, windows_mappings}
use sigmascope.Evaluate.Resolver.{Finding}
use sigmascope.Evaluate.WindowsGates.{AuditProvider, ChannelConfig, evaluate_windows_audit}
use sigmascope.Evaluate.WindowsGates.Decision.{has_caveat, evaluate_windows_audit-covered}
use sigmascope.Api.Evidence.{provider_result}
use sigmascope.Api.Linux.{Outcome}
use sigmascope.Api.Linux.Conservative.{verdict_value-injective}
use sigmascope.Api.Policy.{native_policy_result}
use sigmascope.Api.Windows.{WindowsState, WindowsHost, judge_audit, channel, lookup_channel}
use sigmascope.Api.Windows.{run_windows, parse_config, windows_state}
use sigmascope.Api.Windows.Findings.{plain_outputs, Answers, AnswersAll, no_answers, answer}
use sigmascope.Api.Windows.Findings.{run_windows-AnswersAll}

module _ (state : WindowsState) where
  -- With one provider, the audit policy, the finding has the verdict of that provider.
  Answers-audit :
      (provider : AuditProvider) {r : Requirement} {f : Finding}
      → r.providers ≡ windows_audit provider ∷ []
      → Answers state r f
      → f.satisfied
        ≡ satisfied
            (evaluate_windows_audit provider state.audit_policy state.registry
              (state.channel_config provider.channel)).0
  unfolding plain_outputs provider_result judge_audit channel lookup_channel
  Answers-audit provider one a = elim (rw (one, plain_outputs) at a.reason) [
    | inl (e, i) ↦ absurd (ground arith)
    | inr b ↦ elim (In-cons b.listed) [
      | inl same ↦
          let said = sym b.says ∙ ap (λ item. item.verdict) same in
          a.reports.satisfied_is ∙ ap satisfied (verdict_value-injective _ _ said)
      | inr nothing ↦ elim nothing [ ]
    ]
  ]

  satisfied-caveat :
      (provider : AuditProvider) (config : ChannelConfig)
      → has_caveat provider.necessary_but_insufficient ≡ true
      → satisfied (evaluate_windows_audit provider state.audit_policy state.registry config).0
        ≡ false
  satisfied-caveat provider config h = unsatisfied _ λ c.
      let (_, _, _, none_of, _) =
        (evaluate_windows_audit-covered provider state.audit_policy state.registry config).0 c in
      ground arith
    where
      unsatisfied : (v : Verdict) → v ≢ covered → satisfied v ≡ false
      unsatisfied v n = ground arith

  AnswersAll-three :
      {r q p : Requirement} {fs : List Finding}
      → AnswersAll state (r ∷ q ∷ p ∷ []) fs
      → (f g h : Finding) × (fs ≡ f ∷ g ∷ h ∷ []) × Answers state p h
  AnswersAll-three (answer {f = f} a (answer {f = g} b (answer {f = h} c no_answers))) =
      (f, g, h, refl, c)

-- If the configuration of Sysmon, where there is one, is parsed without a ValueError, a run on the
-- catalogue's entries for Windows has three findings, and the last, for file events, is not
-- satisfied, whatever the audit policy is.
pub run_windows-mappings :
    (py : Python) (host : WindowsHost) {parsed : Option ParseResult}
    → parse_config py host.sysmon.current_config ≡ some parsed
    → (o : Outcome) × (f : Finding) × (g : Finding) × (h : Finding) × (run_windows py
          windows_mappings host
        ≡ some o)
      × (o.findings ≡ f ∷ g ∷ h ∷ [])
      × (h.logsource.category ≡ lit "file_event")
      × (h.satisfied ≡ false)
unfolding windows_mappings lit
run_windows-mappings py host {parsed} e =
    let state = windows_state host (native_policy_result host.native host.cli).0 parsed in
    let (o, _, run, _, _, _, answers) = run_windows-AnswersAll py windows_mappings host e in
    let (f, g, h, three, c) = AnswersAll-three state answers in
    (
      o,
      f,
      g,
      h,
      run,
      three,
      ap (λ l. l.category) c.reports.about,
      Answers-audit state _ refl c ∙ satisfied-caveat state _ _ refl,
    )
