-- ===== src/Scripts/TestPypi.antt =====
-- scripts/install_from_testpypi.py: installation with repeated attempts, over what `subprocess.run`
-- returns at each attempt.
pub mod Attempts
use sigmascope.Base.{
  ℕ, ℤ, pos, Bool, true, false, not, List, [], ◌∷◌, ◌++◌, if◌then◌else◌, nat_beq, is_empty, ◌+◌,
}
use sigmascope.Base.{Text, lit}
use sigmascope.Collect.Process.{is_success}

-- What the script does, in its order.
pub data Step : Type 0 where
  -- `subprocess.run(command)`
  ran : List Text → Step
  -- `time.sleep(10)`
  slept : Step

-- How it ends: with a message (`SystemExit`) or with the result of `main`.
pub data Ending : Type 0 where
  message : Text → Ending
  code : ℤ → Ending

-- `tag.removeprefix("v")`
abbrev pub drop_v : Text → Text
drop_v [] = []
drop_v (c ∷ s) = if nat_beq c b'v' then s else c ∷ s

abbrev pub install_command : Text → Text → List Text
install_command executable version =
    executable
    ∷ lit "-m"
    ∷ lit "pip"
    ∷ lit "install"
    ∷ lit "--no-deps"
    ∷ lit "--index-url"
    ∷ lit "https://test.pypi.org/simple"
    ∷ (lit "sigmascope==" ++ version)
    ∷ []

abbrev pub pause : ℕ → List Step
pause attempt = if not (nat_beq attempt 5) then slept ∷ [] else []

-- The loop, with the attempts that are left, the number of the next one, and the last result.
unfoldable pub attempts : List Text → (ℕ → ℤ) → ℕ → ℕ → ℤ → ℤ × List Step
attempts command run ℕ.zero attempt last = (last, [])
attempts command run (ℕ.suc left) attempt last =
    let result = run attempt in
    let (final, steps) = attempts command run left (attempt + 1) result in
    if is_success result
    then (pos 0, ran command ∷ [])
    else (final, ran command ∷ (pause attempt ++ steps))

-- `main`, by the environment's tag and `sys.executable`.
unfoldable pub install : Text → Text → (ℕ → ℤ) → Ending × List Step
unfolding attempts
install tag executable run =
    let version = drop_v tag in
    let (result, steps) = attempts (install_command executable version) run 6 0 (pos 0) in
    if is_empty version
    then (message (lit "SIGMASCOPE_RELEASE_TAG is empty"), [])
    else (code result, steps)
