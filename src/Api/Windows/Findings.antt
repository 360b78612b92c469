-- ===== src/Api/Windows/Findings.antt =====
-- sigmascope/api.py: the findings of `_run_windows`, and its outputs without the cache of channels.
use sigmascope.Base.{List, [], ◌∷◌, ◌++◌, ◌≡◌, refl, sym, ap, ◌∙◌, inl, inr}
use sigmascope.Base.{Text, none, some, Option, ◌⊎◌, Python, In-cons}
use mathlib.Core.List.{append-nil}
use sigmascope.Model.{CollectionError, ParseResult, Verdict, indeterminate}
use sigmascope.Catalog.{Provider, windows_audit, sysmon, auditd, Requirement, SysmonProvider}
use sigmascope.Evaluate.WindowsGates.{AuditProvider}
use sigmascope.Evaluate.Resolver.{ProviderResult, Finding}
use sigmascope.Evaluate.Resolver.Best.{AllValid, IsBest}
use sigmascope.Evaluate.Resolver.Decision.{Reports, resolve_provider_disjunction-Reports}
use sigmascope.Api.Linux.{Outcome}
use sigmascope.Api.Policy.{native_policy_result}
use sigmascope.Api.Windows.{WindowsState, WindowsHost, Channels, Judged, output, judge_audit}
use sigmascope.Api.Windows.{
  judge_parsed, parse_config, windows_state, judge_sysmon, judge_sysmon_by,
}
use sigmascope.Api.Windows.{windows_outputs, windows_findings, windows_outcome, run_windows}
use sigmascope.Api.Windows.{parsed_diagnostics, channel, lookup_channel}
use sigmascope.Api.Windows.Asked.{add_channels, names-windows_outputs}
use sigmascope.Api.Windows.Cache.{IsCache, names, channel-IsCache}
use sigmascope.Api.Evidence.{provider_result}

-- No channel was asked.
abbrev pub no_channels : Channels
no_channels = record { known = []; errors = [] }

module _ (state : WindowsState) where
  -- The outputs of the providers, each judged on its own, without what others have asked.
  unfoldable pub plain_outputs : List Provider → List ProviderResult
  plain_outputs [] = []
  plain_outputs (windows_audit p ∷ rest) =
      output state p.source_id (judge_audit state p no_channels).0 ∷ plain_outputs rest
  plain_outputs (sysmon p ∷ rest) =
      output state p.source_id (judge_sysmon state p no_channels).0 ∷ plain_outputs rest
  plain_outputs (auditd p ∷ rest) = plain_outputs rest

  module _ (start : List CollectionError) where
    abbrev Cached : Channels → Type 0
    Cached channels = IsCache state.channel_config start channels

    judge_audit-plain :
        (p : AuditProvider) (channels : Channels)
        → Cached channels
        → ((judge_audit state p channels).0 ≡ (judge_audit state p no_channels).0)
          × Cached (judge_audit state p channels).1
    unfolding judge_audit channel lookup_channel
    judge_audit-plain p channels h =
        let (same, next) = channel-IsCache state.channel_config start p.channel channels h in
        (rw same refl, next)

    judge_parsed-plain :
        (parsed : ParseResult) (p : SysmonProvider) (channels : Channels)
        → Cached channels
        → ((judge_parsed state parsed p channels).0 ≡ (judge_parsed state parsed p no_channels).0)
          × Cached (judge_parsed state parsed p channels).1
    unfolding judge_parsed channel lookup_channel
    judge_parsed-plain parsed p channels h =
        let (same, next) = channel-IsCache state.channel_config start p.channel channels h in
        (rw same refl, next)

    judge_sysmon_by-plain :
        (unavailable : Option (Verdict × Text)) (parsed : Option ParseResult) (p : SysmonProvider)
        (channels : Channels)
        → Cached channels
        → ((judge_sysmon_by state unavailable parsed p channels).0
            ≡ (judge_sysmon_by state unavailable parsed p no_channels).0)
          × Cached (judge_sysmon_by state unavailable parsed p channels).1
    judge_sysmon_by-plain (some result) parsed p channels h = (refl, h)
    judge_sysmon_by-plain none (some parsed) p channels h = judge_parsed-plain parsed p channels h
    judge_sysmon_by-plain none none p channels h = (refl, h)

    judge_sysmon-plain :
        (p : SysmonProvider) (channels : Channels)
        → Cached channels
        → ((judge_sysmon state p channels).0 ≡ (judge_sysmon state p no_channels).0)
          × Cached (judge_sysmon state p channels).1
    unfolding judge_sysmon
    judge_sysmon-plain p channels h = judge_sysmon_by-plain _ _ p channels h

    put :
        (source_id : Text) {j k : Judged} {xs ys : List ProviderResult}
        → j ≡ k
        → xs ≡ ys
        → output state source_id j ∷ xs ≡ output state source_id k ∷ ys
    put source_id {j} {k} {xs} {ys} same others =
        ap (λ i. output state source_id i ∷ xs) same
        ∙ ap (λ zs. output state source_id k ∷ zs) others

    windows_outputs-plain :
        (providers : List Provider) (channels : Channels)
        → Cached channels
        → ((windows_outputs state providers channels).0 ≡ plain_outputs providers)
          × Cached (windows_outputs state providers channels).1
    unfolding windows_outputs plain_outputs
    windows_outputs-plain [] channels h = (refl, h)
    windows_outputs-plain (windows_audit p ∷ rest) channels h =
        let (same, next) = judge_audit-plain p channels h in
        let (others, last) = windows_outputs-plain rest _ next in
        (put p.source_id same others, last)
    windows_outputs-plain (sysmon p ∷ rest) channels h =
        let (same, next) = judge_sysmon-plain p channels h in
        let (others, last) = windows_outputs-plain rest _ next in
        (put p.source_id same others, last)
    windows_outputs-plain (auditd p ∷ rest) channels h = windows_outputs-plain rest channels h

  plain_outputs-AllValid : (providers : List Provider) → AllValid (plain_outputs providers)
  unfolding plain_outputs provider_result
  plain_outputs-AllValid [] item m = elim m [ ]
  plain_outputs-AllValid (windows_audit p ∷ rest) item m = elim (In-cons m) [
    | inl same ↦ (_, ap (λ r. r.verdict) same)
    | inr later ↦ plain_outputs-AllValid rest item later
  ]
  plain_outputs-AllValid (sysmon p ∷ rest) item m = elim (In-cons m) [
    | inl same ↦ (_, ap (λ r. r.verdict) same)
    | inr later ↦ plain_outputs-AllValid rest item later
  ]
  plain_outputs-AllValid (auditd p ∷ rest) item m = plain_outputs-AllValid rest item m

  -- A finding of a requirement: its verdict is the best of its providers, each judged on its own,
  -- or INDETERMINATE without one.
  pub record Answers (requirement : Requirement) (f : Finding) : Type 0 where
    pub verdict : Verdict
    pub reports :
        Reports requirement.logsource requirement.references
          (plain_outputs requirement.providers)
          verdict
          f
    pub reason :
        (plain_outputs requirement.providers ≡ []) × (verdict ≡ indeterminate)
        ⊎ IsBest (plain_outputs requirement.providers) verdict

  -- One finding for each requirement, in their order.
  pub data AnswersAll : List Requirement → List Finding → Type 0 where
    no_answers : AnswersAll [] []
    answer :
        {r : Requirement} {f : Finding} {rs : List Requirement} {fs : List Finding}
        → Answers r f
        → AnswersAll rs fs
        → AnswersAll (r ∷ rs) (f ∷ fs)

  -- The loop over the requirements ends, from any cache, with one finding for each requirement
  -- and a cache in which no channel was asked twice.
  windows_findings-AnswersAll :
      (start : List CollectionError) (requirements : List Requirement) (channels : Channels)
      → IsCache state.channel_config start channels
      → (fs : List Finding) × (last : Channels) × (windows_findings state requirements channels
          ≡ some (fs, last))
        × IsCache state.channel_config start last
        × (names last.known ≡ add_channels state requirements (names channels.known))
        × AnswersAll requirements fs
  unfolding windows_findings
  windows_findings-AnswersAll start [] channels h = ([], channels, refl, h, refl, no_answers)
  windows_findings-AnswersAll start (r ∷ rs) channels h =
      let (same, next) = windows_outputs-plain start r.providers channels h in
      let (fs, last, e, cached, asked, rest) = windows_findings-AnswersAll start rs _ next in
      let (f, v, d, report, reason) =
        resolve_provider_disjunction-Reports r.logsource r.references (plain_outputs r.providers)
          (plain_outputs-AllValid r.providers) in
      (
        f ∷ fs,
        last,
        rw (windows_findings, same, d, e) refl,
        cached,
        asked ∙ ap (add_channels state rs) (names-windows_outputs state r.providers channels),
        answer (record { verdict = v; reports = report; reason = reason }) rest,
      )

-- If the configuration of Sysmon, where there is one, is parsed without a ValueError, a run on
-- Windows ends in a report: one finding for each requirement, in their order, with the best verdict
-- of its providers, each judged on its own. Its errors are those of the audit policy, those of
-- Sysmon, and those that the host gives for the channels that the providers ask for: each channel of
-- an audit provider, and where Sysmon's configuration is available that of a Sysmon provider, once,
-- in the order in which they come first.
pub run_windows-AnswersAll :
    (py : Python) (requirements : List Requirement) (host : WindowsHost)
    {parsed : Option ParseResult}
    → parse_config py host.sysmon.current_config ≡ some parsed
    → (o : Outcome) × (last : Channels) × (run_windows py requirements host ≡ some o)
      × (o.errors ≡ last.errors)
      × IsCache host.channel_config
          ((native_policy_result host.native host.cli).1 ++ host.sysmon.errors)
          last
      × (names last.known
          ≡ add_channels
              (windows_state host (native_policy_result host.native host.cli).0 parsed)
              requirements
              [])
      × AnswersAll
          (windows_state host (native_policy_result host.native host.cli).0 parsed)
          requirements
          o.findings
unfolding run_windows windows_outcome
run_windows-AnswersAll py requirements host {parsed} h =
    let policy = native_policy_result host.native host.cli in
    let start = policy.1 ++ host.sysmon.errors in
    let (fs, last, e, cached, asked, answers) =
      windows_findings-AnswersAll (windows_state host policy.0 parsed) start requirements
        (record { known = []; errors = start })
        (record { agrees = λ n c m. elim m [ ]; once = tt; reported = sym (append-nil start) }) in
    (
      record {
        findings = fs;
        diagnostics =
            policy.0.diagnostics ++ (host.registry.diagnostics ++ parsed_diagnostics parsed);
        errors = last.errors;
      },
      last,
      rw (run_windows, h, windows_outcome, e) refl,
      refl,
      cached,
      asked,
      answers,
    )
