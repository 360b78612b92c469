-- ===== src/Base/Strings/Defs.antt =====
-- Texts, literals, equality, `in`, `join`, and the order of `sorted`.
use Prim.Native.Nat.{ℕ}
use Prim.Native.Char.{code}
use Prim.Native.String.{String}
use mathlib.Core.Bool.{Bool, true, false, ◌&&◌, ◌||◌}
use mathlib.Core.List.{List, [], ◌∷◌, ◌++◌}
use sigmascope.Base.Tests.{ltb, nat_beq, if◌then◌else◌}

abbrev pub Text : Type 0
Text = List ℕ

-- A literal of the source. It is shut in proofs, and runs in tests.
unfoldable pub lit : String → Text
lit String.[] = []
lit (String.◌∷◌ c s) = code c ∷ lit s

infix 50 ◌==◌
unfoldable pub ◌==◌ : Text → Text → Bool
[] == [] = true
[] == (y ∷ ys) = false
(x ∷ xs) == [] = false
(x ∷ xs) == (y ∷ ys) = nat_beq x y && (xs == ys)

-- `s in (a, b, …)`
abbrev pub member : Text → List Text → Bool
member s [] = false
member s (x ∷ xs) = s == x || member s xs

-- `c in s`, for one character.
unfoldable pub has_char : ℕ → Text → Bool
has_char c [] = false
has_char c (x ∷ xs) = nat_beq c x || has_char c xs

-- `sep.join(parts)`
unfoldable pub join : Text → List Text → Text
join sep [] = []
join sep (x ∷ []) = x
join sep (x ∷ y ∷ rest) = x ++ (sep ++ join sep (y ∷ rest))

-- `s <= t` on texts goes by code points.
unfoldable pub text_le : Text → Text → Bool
text_le [] t = true
text_le (x ∷ s) [] = false
text_le (x ∷ s) (y ∷ t) = let rest = text_le s t in if nat_beq x y then rest else ltb x y

unfoldable pub insert_sorted : Text → List Text → List Text
insert_sorted s [] = s ∷ []
insert_sorted s (t ∷ ts) =
    let rest = insert_sorted s ts in if text_le s t then s ∷ t ∷ ts else t ∷ rest

-- `sorted(set(parts))`: each text once, in order.
unfoldable pub sorted_set : List Text → List Text
unfolding insert_sorted text_le
sorted_set [] = []
sorted_set (s ∷ parts) =
    let rest = sorted_set parts in if member s parts then rest else insert_sorted s rest
