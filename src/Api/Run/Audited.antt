-- ===== src/Api/Run/Audited.antt =====
-- sigmascope/api.py: what a finding of `run` on Linux says of the host.
use sigmascope.Base.{
  Bool, true, false, ◌≡◌, refl, sym, ap, ◌∙◌, arith, Text, lit, ◌==◌, Option, none, some, In,
}
use sigmascope.Base.{Python, member, eq_refl}
use sigmascope.Model.{Predicate}
use sigmascope.Catalog.{mappings_by_os}
use sigmascope.Evaluate.Auditd.Kernel.{All, HasOneArch, is_audited, NamesCalls, ExcludesNever}
use sigmascope.Evaluate.Auditd.ProcessCreation.{is_x86, x86_arches}
use sigmascope.Evaluate.Auditd.Rules.{target_syscalls}
use sigmascope.Evaluate.Resolver.{Finding}
use sigmascope.Parse.AuditdRules.{parse_auditd_rules}
use sigmascope.Api.Linux.{Outcome, linux_state, run_linux}
use sigmascope.Collect.Linux.{collect_auditd}
use sigmascope.Collect.Linux.Outputs.{Gave, collect_auditd-is_audited}
use sigmascope.Api.Run.{Environment, Report, outcome_of, report_of, report_by, run}
use mathlib.Core.Option.{some-injective}

outcome_of-run_linux :
    (py : Python) (env : Environment)
    → env.host.os ≡ lit "linux"
    → outcome_of py env
      ≡ run_linux py (mappings_by_os env.host.os) env.host.arch (collect_auditd env.linux)
unfolding outcome_of
outcome_of-run_linux py env on_linux =
    let is_linux : (env.host.os == lit "linux") ≡ true =
      ap (λ os. os == lit "linux") on_linux ∙ eq_refl (lit "linux") in
    rw (outcome_of, is_linux) refl

report_by-some :
    (env : Environment) (outcome : Option Outcome) {report : Report}
    → report_by env outcome ≡ some report
    → (o : Outcome) × (outcome ≡ some o) × (o.findings ≡ report.findings)
unfolding report_of
report_by-some env none h = ground arith
report_by-some env (some o) h = (o, refl, ap (λ r. r.findings) (some-injective _ _ h))

-- If a run on an x86-64 Linux host reports a satisfied finding, and of the rules that were read none
-- names two architectures or a system call by a number, and those for the exclude list have the
-- action `never`, then an `auditctl -l` ended on the host with exit code 0, and a kernel with the
-- rules of its output records every call of execve and execveat in both architectures, and its
-- exclude list drops none, whatever the other fields of the event are.
pub run-is_audited :
    (py : Python) (env : Environment) {report : Report} {f : Finding}
    → run py false env ≡ some report
    → env.host.os ≡ lit "linux"
    → In f report.findings
    → f.satisfied ≡ true
    → is_x86 env.host.arch ≡ true
    → All HasOneArch (linux_state py env.host.arch (collect_auditd env.linux)).parsed.rules
    → All NamesCalls (linux_state py env.host.arch (collect_auditd env.linux)).parsed.rules
    → All ExcludesNever (linux_state py env.host.arch (collect_auditd env.linux)).parsed.rules
    → (numbered : Text → Text → Text → Bool) (holds : Predicate → Bool) (a syscall : Text)
    → member a x86_arches ≡ true
    → member syscall target_syscalls ≡ true
    → (text : Text) × Gave env.linux (lit "-l") text
      × (is_audited numbered holds (parse_auditd_rules py (lit "auditctl -l") text).rules a syscall
          ≡ true)
unfolding run
run-is_audited py env ran on_linux m =
    let (o, e, same) = report_by-some env (outcome_of py env) ran in
    collect_auditd-is_audited py (mappings_by_os env.host.os) env.host.arch env.linux
      (sym (outcome_of-run_linux py env on_linux) ∙ e) (rw (← same) at m)
