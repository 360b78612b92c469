-- ===== src/Scripts/TestPypi/Attempts.antt =====
-- scripts/install_from_testpypi.py: the number of attempts.
use sigmascope.Base.{
  ℕ, ℤ, pos, false, List, [], ◌∷◌, ◌≡◌, arith, Text, Option, none, some, find, is_empty,
}
use sigmascope.Collect.Process.{is_success}
use sigmascope.Scripts.TestPypi.{Step, ran, slept, code, drop_v, install_command, attempts, install}

-- `k` attempts that fail, each with a sleep behind it, and then one attempt.
unfoldable pub schedule : List Text → ℕ → List Step
schedule command ℕ.zero = ran command ∷ []
schedule command (ℕ.suc k) = ran command ∷ slept ∷ schedule command k

-- The first attempt of six that succeeds.
abbrev pub first_success : (ℕ → ℤ) → Option ℕ
first_success run = find (λ k. is_success (run k)) (0 ∷ 1 ∷ 2 ∷ 3 ∷ 4 ∷ 5 ∷ [])

abbrev pub final_code : (ℕ → ℤ) → Option ℕ → ℤ
final_code run none = run 5
final_code run (some k) = pos 0

abbrev pub failures_until : Option ℕ → ℕ
failures_until none = 5
failures_until (some k) = k

-- With a tag that names a version the script ends: after the first attempt that succeeds, with 0,
-- or after six attempts, with the code of the last. Its steps are the runs of the command for that
-- version, with one sleep between two attempts and none before the first or after the last.
pub install-first_success :
    (tag executable : Text) (run : ℕ → ℤ)
    → is_empty (drop_v tag) ≡ false
    → let (ending, steps) = install tag executable run in
      (ending ≡ code (final_code run (first_success run)))
      × (steps
          ≡ schedule (install_command executable (drop_v tag)) (failures_until (first_success run)))
unfolding install attempts schedule find
install-first_success tag executable run h = (ground arith, ground arith)
