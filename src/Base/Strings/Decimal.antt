-- ===== src/Base/Strings/Decimal.antt =====
-- `str(n)` of an integer.
use Prim.Native.Nat.{ℕ, zero, suc, ◌+◌, ◌/◌, ◌%◌}
use mathlib.Core.List.{[], ◌∷◌}
use sigmascope.Base.Tests.{ltb, if◌then◌else◌}
use sigmascope.Base.Int.{ℤ, pos, negsuc}
use sigmascope.Base.Strings.Defs.{Text}

-- The fuel bounds the digits; a number has fewer digits than its successor.
unfoldable pub digits_onto : ℕ → ℕ → Text → Text
digits_onto zero n out = out
digits_onto (suc fuel) n out =
    let digit = b'0' + n % 10 in
    let rest = digits_onto fuel (n / 10) (digit ∷ out) in if ltb n 10 then digit ∷ out else rest

unfoldable pub nat_text : ℕ → Text
unfolding digits_onto
nat_text n = digits_onto (suc n) n []

unfoldable pub int_text : ℤ → Text
unfolding nat_text
int_text (pos n) = nat_text n
int_text (negsuc n) = b'-' ∷ nat_text (n + 1)
