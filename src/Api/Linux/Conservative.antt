-- ===== src/Api/Linux/Conservative.antt =====
-- sigmascope/api.py: what a finding of `_run_linux` says of the host.
use sigmascope.Base.{Bool, true, false, List, ◌≡◌, refl, sym, ap, ◌∙◌, inl, inr}
use sigmascope.Base.{arith, Text, lit, Option, none, some, is_none, In, here, there, In-cons}
use sigmascope.Base.{◌≢◌, Python, member}
use sigmascope.Model.{Predicate, Verdict, covered, indeterminate, satisfied}
use sigmascope.Model.{verdict_value, verdict_of, verdict_of-verdict_value}
use mathlib.Core.Option.{some-injective}
use sigmascope.Catalog.{Requirement}
use sigmascope.Evaluate.Auditd.ProcessCreation.{evaluate_process_creation, is_unknown, is_x86}
use sigmascope.Evaluate.Auditd.ProcessCreation.{x86_arches}
use sigmascope.Evaluate.Auditd.Rules.{target_syscalls}
use sigmascope.Evaluate.Auditd.Watches.{watch_verdict, evaluate_file_watch-verdict}
use sigmascope.Evaluate.Auditd.Kernel.{All, HasOneArch, IsOrdered, is_audited, NamesCalls}
use sigmascope.Evaluate.Auditd.Kernel.{ExcludesNever}
use sigmascope.Evaluate.Auditd.Kernel.Lists.{is_audited_of_selected}
use sigmascope.Evaluate.Auditd.Covered.{evaluate_process_creation-unsuppressed}
use sigmascope.Evaluate.Auditd.Covered.{evaluate_process_creation-is_audited}
use sigmascope.Evaluate.Resolver.{Finding}
use sigmascope.Api.Linux.{AuditdCollection, LinuxState, linux_state, evaluate_auditd, is_zero}
use sigmascope.Api.Linux.{evaluate_requirement, Outcome, run_linux}
use sigmascope.Api.Linux.{parse_or_unknown}
use sigmascope.Parse.AuditdRules.{parse_auditd_rules}
use sigmascope.Parse.AuditdRules.Order.{parse_auditd_rules-IsOrdered}
use sigmascope.Api.Linux.States.{Asks, Answers, AnswersAll, no_answers, answer}
use sigmascope.Api.Linux.States.{expected_outputs-Judges, run_linux-AnswersAll}

-- The host was inspected in full: auditd is installed, kernel auditing is on, the daemon runs,
-- and the rules were read.
pub record IsReady (state : LinuxState) : Type 0 where
  pub is_installed : state.collection.installed ≡ some true
  pub enabled_known : is_none state.enabled ≡ false
  pub enabled_nonzero : is_zero state.enabled ≡ false
  pub pid_known : is_none state.pid ≡ false
  pub pid_nonzero : is_zero state.pid ≡ false
  pub status_parsed : is_unknown state.status.determinacy ≡ false
  pub rules_read : is_none state.collection.effective_rules ≡ false

pub watch_verdict-ne-covered : (a b c : Bool) → watch_verdict a b c ≢ covered
watch_verdict-ne-covered a b c = ground arith

evaluate_requirement-covered :
    (py : Python) (state : LinuxState) (requirement : Text)
    → (evaluate_requirement py state requirement).0 ≡ covered
    → (evaluate_process_creation py state.parsed state.arch).0 ≡ covered
unfolding evaluate_requirement
evaluate_requirement-covered py state requirement h =
    ground (arith, evaluate_file_watch-verdict state.parsed, watch_verdict-ne-covered _ _ _)

pub evaluate_auditd-covered :
    (py : Python) (state : LinuxState) (requirement : Text)
    → (evaluate_auditd py state requirement).0 ≡ covered
    → IsReady state × ((evaluate_process_creation py state.parsed state.arch).0 ≡ covered)
unfolding evaluate_auditd
evaluate_auditd-covered py state requirement h =
    ground (arith, evaluate_requirement-covered py state requirement)

pub verdict_value-injective : (v w : Verdict) → verdict_value v ≡ verdict_value w → v ≡ w
verdict_value-injective v w e =
    some-injective _ _
      (sym (verdict_of-verdict_value v) ∙ ap verdict_of e ∙ verdict_of-verdict_value w)

pub satisfied-covered : (v : Verdict) → satisfied v ≡ true → v ≡ covered
satisfied-covered v h = ground arith

module _ (py : Python) (state : LinuxState) where
  -- The provider that decided a finding.
  Answers-Judges :
      {r : Requirement} {f : Finding}
      → (a : Answers py state r f) → a.verdict ≢ indeterminate
      → (j : Text) × Asks j r.providers × ((evaluate_auditd py state j).0 ≡ a.verdict)
  Answers-Judges {r} a known = elim a.reason [
    | inl (e, i) ↦ absurd (known i)
    | inr b ↦
        let j = expected_outputs-Judges py state r.providers b.listed in
        (j.requirement, j.asked, verdict_value-injective _ _ (sym j.verdict_is ∙ b.says))
  ]

  AnswersAll-In :
      {rs : List Requirement} {fs : List Finding} {f : Finding}
      → AnswersAll py state rs fs
      → In f fs
      → (r : Requirement) × In r rs × Answers py state r f
  AnswersAll-In no_answers m = elim m [ ]
  AnswersAll-In (answer {r} a rest) m = elim (In-cons m) [
    | inl same ↦ (r, here refl, rw same a)
    | inr later ↦ let (q, n, b) = AnswersAll-In rest later in (q, there n, b)
  ]

  Answers-satisfied :
      {r : Requirement} {f : Finding}
      → Answers py state r f
      → f.satisfied ≡ true
      → IsReady state × ((evaluate_process_creation py state.parsed state.arch).0 ≡ covered)
  Answers-satisfied a h =
      let c : a.verdict ≡ covered = satisfied-covered a.verdict (sym a.reports.satisfied_is ∙ h) in
      let (j, _, e) = Answers-Judges a (ground arith) in evaluate_auditd-covered py state j (e ∙ c)

pub run_linux-In :
    (py : Python) (requirements : List Requirement) (arch : Text) (collection : AuditdCollection)
    {o : Outcome} {f : Finding}
    → run_linux py requirements arch collection ≡ some o
    → In f o.findings
    → (r : Requirement) × In r requirements × Answers py (linux_state py arch collection) r f
run_linux-In py requirements arch collection {o} run m =
    let (p, e, answers) = run_linux-AnswersAll py requirements arch collection in
    let same : o ≡ p = some-injective _ _ (sym run ∙ e) in
    AnswersAll-In py (linux_state py arch collection) answers (rw same at m)

-- A satisfied finding of a run on Linux means that the host was inspected in full (auditd
-- installed, kernel auditing on, the daemon running, the status parsed and the rules read) and that
-- the rules that were read have the verdict COVERED for process creation.
pub run_linux-satisfied :
    (py : Python) (requirements : List Requirement) (arch : Text) (collection : AuditdCollection)
    {o : Outcome} {f : Finding}
    → run_linux py requirements arch collection ≡ some o
    → In f o.findings
    → f.satisfied ≡ true
    → IsReady (linux_state py arch collection)
      × ((evaluate_process_creation py (linux_state py arch collection).parsed arch).0 ≡ covered)
unfolding linux_state
run_linux-satisfied py requirements arch collection run m h =
    let (r, _, a) = run_linux-In py requirements arch collection run m in
    Answers-satisfied py (linux_state py arch collection) a h

parsed-IsOrdered :
    (py : Python) (rules : Option Text)
    → IsOrdered (parse_or_unknown (parse_auditd_rules py (lit "auditctl -l")) rules).rules
parsed-IsOrdered py none = tt
parsed-IsOrdered py (some text) = parse_auditd_rules-IsOrdered py (lit "auditctl -l") text

-- If a run on an x86-64 Linux host has a satisfied finding, and of the rules that were read none
-- names two architectures or a system call by a number, and those for the exclude list have the
-- action `never`, then the kernel records every call of execve and execveat in both architectures,
-- and the exclude list drops none, whatever the other fields of the event are.
pub run_linux-is_audited :
    (py : Python) (requirements : List Requirement) (arch : Text) (collection : AuditdCollection)
    {o : Outcome} {f : Finding}
    → run_linux py requirements arch collection ≡ some o
    → In f o.findings
    → f.satisfied ≡ true
    → is_x86 arch ≡ true
    → All HasOneArch (linux_state py arch collection).parsed.rules
    → All NamesCalls (linux_state py arch collection).parsed.rules
    → All ExcludesNever (linux_state py arch collection).parsed.rules
    → (numbered : Text → Text → Text → Bool) (holds : Predicate → Bool) (a syscall : Text)
    → member a x86_arches ≡ true
    → member syscall target_syscalls ≡ true
    → is_audited numbered holds (linux_state py arch collection).parsed.rules a syscall ≡ true
unfolding linux_state
run_linux-is_audited py requirements arch collection run m h x86 single named never numbered holds a
      syscall ina ins =
    let state = linux_state py arch collection in
    let verdict = (run_linux-satisfied py requirements arch collection run m h).1 in
    is_audited_of_selected numbered holds a syscall state.parsed.rules named never
      (evaluate_process_creation-unsuppressed py state.parsed arch verdict)
      (evaluate_process_creation-is_audited py state.parsed arch x86 verdict
        (parsed-IsOrdered py collection.effective_rules) single holds a syscall ina ins)
