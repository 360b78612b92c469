-- ===== src/Collect/Windows/Calls.antt =====
-- The calls of the Windows libraries that open and close objects, in the order they are made. A
-- library answers by what was called before, so that its answers may change from call to call.
use sigmascope.Base.{ℕ, Bool, true, ◌&&◌, List, [], ◌∷◌, if◌then◌else◌, nat_beq, any, ◌+◌}

pub data Call : Type 0 where
  -- A handle or a buffer that a call gave, with its value.
  opened : ℕ → Call
  -- One that a call was given.
  used : ℕ → Call
  -- One that was closed or freed.
  closed : ℕ → Call
  -- A query of the audit policy.
  queried : Call

-- The last call first.
abbrev pub Calls : Type 0
Calls = List Call

unfoldable pub remove : ℕ → List ℕ → List ℕ
remove h [] = []
remove h (x ∷ xs) = let rest = remove h xs in if nat_beq x h then xs else x ∷ rest

-- What is open.
unfoldable pub open_handles : Calls → List ℕ
unfolding remove
open_handles [] = []
open_handles (opened h ∷ s) = h ∷ open_handles s
open_handles (used h ∷ s) = open_handles s
open_handles (queried ∷ s) = open_handles s
open_handles (closed h ∷ s) = remove h (open_handles s)

-- Nothing was used or closed that was not open.
unfoldable pub is_legal : Calls → Bool
unfolding open_handles
is_legal [] = true
is_legal (opened h ∷ s) = is_legal s
is_legal (queried ∷ s) = is_legal s
is_legal (used h ∷ s) = any (nat_beq h) (open_handles s) && is_legal s
is_legal (closed h ∷ s) = any (nat_beq h) (open_handles s) && is_legal s

unfoldable pub count_queries : Calls → ℕ
count_queries [] = 0
count_queries (opened h ∷ s) = count_queries s
count_queries (used h ∷ s) = count_queries s
count_queries (closed h ∷ s) = count_queries s
count_queries (queried ∷ s) = count_queries s + 1
