-- ===== src/Collect/Process.antt =====
-- `subprocess.run` as the collectors call it, with `check=False`, both outputs captured and a
-- timeout: it raises an OSError or a TimeoutExpired, or the process has ended.
use sigmascope.Base.{ℕ, ℤ, pos, Bytes, Text, Bool, true, false, [], ◌∷◌}

pub data ProcessResult : Type 0 where
  -- `str(exc)`
  raised : Text → ProcessResult
  -- `returncode`, `stdout` and `stderr`
  completed : ℤ → Bytes → Bytes → ProcessResult

-- `returncode != 0` is false.
abbrev pub is_success : ℤ → Bool
is_success (pos ℕ.zero) = true
is_success _ = false

-- `message or other`
abbrev pub or_text : Text → Text → Text
or_text [] other = other
or_text (c ∷ s) other = c ∷ s
