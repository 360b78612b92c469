-- ===== src/Evaluate/Auditd/Coverage.antt =====
-- The dict `coverage` of `evaluate_process_creation` in sigmascope/evaluate/auditd.py: what its
-- entries stand for.
use sigmascope.Base.{Bool, true, false, ◌&&◌, List, [], ◌∷◌, ◌≡◌, refl, ◌⊎◌, inl, inr, arith}
use sigmascope.Base.{Text, ◌==◌, member, In, here, there, In-append}
use sigmascope.Base.{any-In, Bool-cases, eq_of_==, member_of_In, In-filter}
use sigmascope.Model.{Rule}
use sigmascope.Evaluate.Auditd.Rules.{selected_syscalls, arches, restrictive}
use sigmascope.Evaluate.Auditd.ProcessCreation.{Coverage, is_covered, setdefault, cover_syscalls}
use sigmascope.Evaluate.Auditd.ProcessCreation.{cover_arches, cover_rule, cover_candidates}
use sigmascope.Evaluate.Auditd.ProcessCreation.{x86_arches}

-- The rule is an unrestricted candidate that names the architecture and the system call.
pub record Supports (candidates : List Rule) (arch syscall : Text) (rule : Rule) : Type 0 where
  pub listed : In rule candidates
  pub free : restrictive rule ≡ false
  pub names_arch : member arch (arches rule) ≡ true
  pub names_syscall : member syscall (selected_syscalls rule) ≡ true

module _ (candidates : List Rule) where
  abbrev pub IsSupported : Coverage → Type 0
  IsSupported coverage = (e : Text × Text × Rule) → In e coverage → Supports candidates e.0 e.1 e.2

  setdefault-IsSupported :
      (arch syscall : Text) (rule : Rule) (coverage : Coverage)
      → Supports candidates arch syscall rule
      → IsSupported coverage
      → IsSupported (setdefault arch syscall rule coverage)
  unfolding setdefault
  setdefault-IsSupported arch syscall rule coverage s inv =
      elim (Bool-cases (is_covered coverage arch syscall)) [
        | inl old ↦ rw old inv
        | inr new ↦ rw new (λ e m. added e (In-append coverage m))
      ]
    where
      added :
          (e : Text × Text × Rule)
          → In e coverage ⊎ In e ((arch, syscall, rule) ∷ [])
          → Supports candidates e.0 e.1 e.2
      added e (inl before) = inv e before
      added e (inr (here same)) = rw same s
      added e (inr (there m)) = elim m [ ]

  cover_syscalls-IsSupported :
      (rule : Rule) (arch : Text) (syscalls : List Text) (coverage : Coverage)
      → ((syscall : Text) → In syscall syscalls → Supports candidates arch syscall rule)
      → IsSupported coverage
      → IsSupported (cover_syscalls rule arch syscalls coverage)
  unfolding cover_syscalls
  cover_syscalls-IsSupported rule arch [] coverage s inv = inv
  cover_syscalls-IsSupported rule arch (syscall ∷ rest) coverage s inv =
      cover_syscalls-IsSupported rule arch rest _ (λ t m. s t (there m))
        (setdefault-IsSupported arch syscall rule coverage (s syscall (here refl)) inv)

  module _ (rule : Rule) (listed : In rule candidates) (free : restrictive rule ≡ false) where
    cover_arches-IsSupported :
        (archs : List Text) (coverage : Coverage)
        → ((arch : Text) → In arch archs → member arch (arches rule) ≡ true)
        → IsSupported coverage
        → IsSupported (cover_arches rule archs coverage)
    unfolding cover_arches
    cover_arches-IsSupported [] coverage named inv = inv
    cover_arches-IsSupported (arch ∷ rest) coverage named inv =
        cover_arches-IsSupported rest _ (λ a m. named a (there m))
          (cover_syscalls-IsSupported rule arch _ coverage
            (λ t m. record {
              listed = listed;
              free = free;
              names_arch = named arch (here refl);
              names_syscall = member_of_In m;
            })
            inv)

    cover_rule-IsSupported :
        (coverage : Coverage) → IsSupported coverage → IsSupported (cover_rule rule coverage)
    unfolding cover_rule
    cover_rule-IsSupported coverage inv =
        cover_arches-IsSupported _ coverage
          (λ a m. (In-filter (λ arch. member arch (arches rule)) x86_arches m).1) inv

  cover_candidates-IsSupported_from :
      (rest : List Rule) (coverage : Coverage) (narrowed : Bool)
      → ((rule : Rule) → In rule rest → In rule candidates)
      → IsSupported coverage
      → IsSupported (cover_candidates rest (coverage, narrowed)).0
  unfolding cover_candidates
  cover_candidates-IsSupported_from [] coverage narrowed listed inv = inv
  cover_candidates-IsSupported_from (rule ∷ rest) coverage narrowed listed inv =
      elim (Bool-cases (restrictive rule)) [
        | inl narrow ↦
            rw (narrow, cover_candidates)
              (cover_candidates-IsSupported_from rest coverage true (λ r m. listed r (there m)) inv)
        | inr free ↦
            rw (free, cover_candidates)
              (cover_candidates-IsSupported_from rest _ narrowed (λ r m. listed r (there m))
                (cover_rule-IsSupported rule (listed rule (here refl)) free coverage inv))
      ]

  -- Every entry that the loop over the candidates makes is supported by its rule.
  pub cover_candidates-IsSupported : IsSupported (cover_candidates candidates ([], false)).0
  cover_candidates-IsSupported =
      cover_candidates-IsSupported_from candidates [] false (λ r m. m) (λ e m. elim m [ ])

-- What `is_covered` finds.
pub is_covered-In :
    (coverage : Coverage) (arch syscall : Text)
    → is_covered coverage arch syscall ≡ true
    → (rule : Rule) × In (arch, syscall, rule) coverage
unfolding is_covered
is_covered-In coverage arch syscall h =
    let (e, m, q) = any-In (λ (a, s, _). a == arch && s == syscall) coverage h in
    let same_arch : e.0 ≡ arch = eq_of_== (ground arith) in
    let same_syscall : e.1 ≡ syscall = eq_of_== (ground arith) in
    (e.2, rw (← same_arch, ← same_syscall) m)
