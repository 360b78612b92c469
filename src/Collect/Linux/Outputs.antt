-- ===== src/Collect/Linux/Outputs.antt =====
-- sigmascope/collect/linux/auditd.py: what the collector's answer says of the host.
use sigmascope.Base.{Bool, true, false, not, List, [], ◌∷◌, ◌≡◌, refl, sym, ◌↔◌}
use sigmascope.Base.{Option, none, some, is_none, is_empty, Text, lit, find, arith, pos, ℕ, Bytes}
use sigmascope.Base.{
  decode_utf8, dirname, sorted_set, insert_sorted, text_le, map, any, ◌==◌, In, Python, member,
  ◌&&◌, ◌||◌,
}
use sigmascope.Model.{Predicate}
use sigmascope.Collect.Process.{ProcessResult, raised, completed}
use sigmascope.Collect.Linux.{LinuxHost, sbin_candidates, is_conclusive, locate_auditctl}
use sigmascope.Collect.Linux.{auditctl_result, auditctl, collect_from, collect_auditd}
use sigmascope.Api.Linux.{linux_state, Outcome, run_linux}
use sigmascope.Api.Linux.Conservative.{run_linux-satisfied, run_linux-is_audited}
use sigmascope.Evaluate.Auditd.ProcessCreation.{is_x86, x86_arches}
use sigmascope.Evaluate.Auditd.Rules.{target_syscalls}
use sigmascope.Evaluate.Auditd.Kernel.{All, HasOneArch, is_audited, NamesCalls, ExcludesNever}
use sigmascope.Parse.AuditdRules.{parse_auditd_rules}
use sigmascope.Evaluate.Resolver.{Finding}
use sigmascope.Catalog.{Requirement}
use mathlib.Core.Option.{some-injective}

-- `installed is False`
abbrev pub is_false : Option Bool → Bool
is_false (some false) = true
is_false _ = false

-- A directory that exists and is closed to the caller, who cannot see what it holds.
abbrev pub is_closed : LinuxHost → Text → Bool
is_closed host directory = host.is_dir directory && not (host.can_search directory)

-- `auditctl` is not on the host, as far as the caller can see, and the caller can see the standard
-- directories.
pub record IsAbsent (host : LinuxHost) : Type 0 where
  pub not_on_path : host.which (lit "auditctl") ≡ none
  pub not_in_usr_sbin : host.exists (lit "/usr/sbin/auditctl") ≡ false
  pub not_in_sbin : host.exists (lit "/sbin/auditctl") ≡ false
  pub not_in_usr_local_sbin : host.exists (lit "/usr/local/sbin/auditctl") ≡ false
  pub usr_sbin_open : is_closed host (lit "/usr/sbin") ≡ false
  pub sbin_open : is_closed host (lit "/sbin") ≡ false
  pub usr_local_sbin_open : is_closed host (lit "/usr/local/sbin") ≡ false

-- What one run of `auditctl` gave: its output when it ended with 0, and otherwise an error.
pub record Gave (host : LinuxHost) (argument text : Text) : Type 0 where
  pub executable : Text
  pub stdout : Bytes
  pub stderr : Bytes
  pub ended : host.run (executable ∷ argument ∷ []) ≡ completed (pos 0) stdout stderr
  pub decoded : text ≡ decode_utf8 stdout

module _ (host : LinuxHost) where
  collect_from-installed :
      (located : Option Text × Bool)
      → ((collect_from host located).installed ≡ some false) ↔ (located ≡ (none, true))
  collect_from-installed (none, true) = (λ _. refl, λ _. refl)
  collect_from-installed (none, false) = (λ e. ground arith, λ e. ground arith)
  collect_from-installed (some e, c) = (λ h. ground arith, λ h. ground arith)

  -- The directories of the candidates, sorted.
  sbin_directories :
      sorted_set (map dirname sbin_candidates)
      ≡ lit "/sbin" ∷ lit "/usr/local/sbin" ∷ lit "/usr/sbin" ∷ []
  unfolding dirname lit sorted_set insert_sorted text_le ◌==◌
  sbin_directories = refl

  is_conclusive-closed :
      is_conclusive host
      ≡ not (
          is_closed host (lit "/sbin")
          || (is_closed host (lit "/usr/local/sbin") || is_closed host (lit "/usr/sbin")))
  unfolding is_conclusive any
  is_conclusive-closed = rw sbin_directories (ground arith)

  locate_auditctl-IsAbsent : (locate_auditctl host ≡ (none, true)) ↔ IsAbsent host
  unfolding locate_auditctl find
  locate_auditctl-IsAbsent = (
    λ h. record {
      not_on_path = ground arith;
      not_in_usr_sbin = ground arith;
      not_in_sbin = ground arith;
      not_in_usr_local_sbin = ground arith;
      usr_sbin_open = ground (arith, is_conclusive-closed);
      sbin_open = ground (arith, is_conclusive-closed);
      usr_local_sbin_open = ground (arith, is_conclusive-closed);
    },
    λ a.
        rw
          (
            locate_auditctl, a.not_on_path, a.not_in_usr_sbin, a.not_in_sbin,
            a.not_in_usr_local_sbin, is_conclusive-closed, a.usr_sbin_open, a.sbin_open,
            a.usr_local_sbin_open,
          )
          refl,
  )

  auditctl_result-error :
      (command : List Text) (r : ProcessResult)
      → let out = auditctl_result host command r in is_none out.0 ≡ not (is_none out.1)
  auditctl_result-error command (raised m) = refl
  auditctl_result-error command (completed c o e) = ground arith

  auditctl_result-some :
      (command : List Text) (r : ProcessResult) {text : Text}
      → (auditctl_result host command r).0 ≡ some text
      → (o : Bytes) × (e : Bytes) × (r ≡ completed (pos 0) o e) × (text ≡ decode_utf8 o)
  auditctl_result-some command (raised m) h = ground arith
  auditctl_result-some command (completed (pos ℕ.zero) o e) h =
      (o, e, refl, sym (some-injective _ _ h))
  auditctl_result-some command (completed (pos (ℕ.suc n)) o e) h = ground arith
  auditctl_result-some command (completed c o e) h = ground arith

  auditctl-error :
      (executable argument : Text)
      → let out = auditctl host executable argument in is_none out.0 ≡ not (is_none out.1)
  unfolding auditctl
  auditctl-error executable argument =
      auditctl_result-error (executable ∷ argument ∷ []) (host.run (executable ∷ argument ∷ []))

  auditctl-Gave :
      (executable argument : Text) {text : Text}
      → (auditctl host executable argument).0 ≡ some text
      → Gave host argument text
  unfolding auditctl
  auditctl-Gave executable argument h =
      let (o, e, ended, decoded) =
        auditctl_result-some (executable ∷ argument ∷ []) (host.run (executable ∷ argument ∷ []))
          h in
      record { executable = executable; stdout = o; stderr = e; ended = ended; decoded = decoded }

  collect_from-errors :
      (located : Option Text × Bool)
      → let c = collect_from host located in
        is_empty c.errors
        ≡ (is_false c.installed || (not (is_none c.effective_rules) && not (is_none c.status)))
  collect_from-errors (none, true) = refl
  collect_from-errors (none, false) = refl
  collect_from-errors (some e, c) =
      ground (arith, auditctl-error e (lit "-l"), auditctl-error e (lit "-s"))

  collect_from-Gave :
      (located : Option Text × Bool) {text : Text}
      → (collect_from host located).effective_rules ≡ some text
      → Gave host (lit "-l") text
  collect_from-Gave (none, true) h = ground arith
  collect_from-Gave (none, false) h = ground arith
  collect_from-Gave (some e, c) h = auditctl-Gave e (lit "-l") h

  -- auditd is reported as not installed exactly when `auditctl` is not on the PATH and not in
  -- /usr/sbin, /sbin or /usr/local/sbin, and none of these three directories exists and is closed
  -- to the caller.
  pub collect_auditd-IsAbsent : ((collect_auditd host).installed ≡ some false) ↔ IsAbsent host
  unfolding collect_auditd
  collect_auditd-IsAbsent =
      let (a, b) = collect_from-installed (locate_auditctl host) in
      let (c, d) = locate_auditctl-IsAbsent in (λ h. c (a h), λ h. b (d h))

  -- The collector reports no error exactly when auditd is not installed or both outputs, the rules
  -- and the status, were read: nothing is missing without an error that says why.
  pub collect_auditd-errors :
      let c = collect_auditd host in
      is_empty c.errors
      ≡ (is_false c.installed || (not (is_none c.effective_rules) && not (is_none c.status)))
  unfolding collect_auditd
  collect_auditd-errors = collect_from-errors (locate_auditctl host)

  collect_auditd-Gave :
      {text : Text} → (collect_auditd host).effective_rules ≡ some text → Gave host (lit "-l") text
  unfolding collect_auditd
  collect_auditd-Gave h = collect_from-Gave (locate_auditctl host) h

is_none-some {ℓ} : {A : Type ℓ} (o : Option A) → is_none o ≡ false → (a : A) × (o ≡ some a)
is_none-some none h = ground arith
is_none-some (some a) h = (a, refl)

-- If a run on an x86-64 Linux host that collects from the host itself has a satisfied finding, then
-- an `auditctl -l` ended there with exit code 0, and its output has the rules of the run.
pub collect_auditd-is_audited :
    (py : Python) (requirements : List Requirement) (arch : Text) (host : LinuxHost) {o : Outcome}
    {f : Finding}
    → run_linux py requirements arch (collect_auditd host) ≡ some o
    → In f o.findings
    → f.satisfied ≡ true
    → is_x86 arch ≡ true
    → All HasOneArch (linux_state py arch (collect_auditd host)).parsed.rules
    → All NamesCalls (linux_state py arch (collect_auditd host)).parsed.rules
    → All ExcludesNever (linux_state py arch (collect_auditd host)).parsed.rules
    → (numbered : Text → Text → Text → Bool) (holds : Predicate → Bool) (a syscall : Text)
    → member a x86_arches ≡ true
    → member syscall target_syscalls ≡ true
    → (text : Text) × Gave host (lit "-l") text
      × (is_audited numbered holds (parse_auditd_rules py (lit "auditctl -l") text).rules a syscall
          ≡ true)
unfolding linux_state
collect_auditd-is_audited py requirements arch host run m h x86 single named never numbered holds a
      syscall ina ins =
    let c = collect_auditd host in
    let (ready, _) = run_linux-satisfied py requirements arch c run m h in
    let (text, e) = is_none-some c.effective_rules ready.rules_read in
    let audited =
      run_linux-is_audited py requirements arch c run m h x86 single named never numbered holds a
        syscall ina ins in
    (text, collect_auditd-Gave host e, rw (linux_state, e) at audited)
