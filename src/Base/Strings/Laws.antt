-- ===== src/Base/Strings/Laws.antt =====
-- Equality and membership of texts.
use mathlib.Core.Path.{◌≡◌, refl}
use mathlib.Core.Logic.{◌↔◌, inl, inr}
use mathlib.Core.Bool.{true}
use mathlib.Core.List.{List, [], ◌∷◌}
use native.Mathlib.Omega.{arith}
use sigmascope.Base.Tests.{Bool-cases}
use sigmascope.Base.Lists.{In, here, there}
use sigmascope.Base.Strings.Defs.{Text, ◌==◌, member}

pub eq_iff : (s t : Text) → ((s == t) ≡ true) ↔ (s ≡ t)
unfolding ◌==◌
eq_iff (x ∷ s) (y ∷ t) = ground (arith, eq_iff s t)
eq_iff _ _ = ground arith

pub eq_refl : (s : Text) → (s == s) ≡ true
eq_refl s = (eq_iff s s).1 refl

pub eq_of_== : {s t : Text} → (s == t) ≡ true → s ≡ t
eq_of_== {s} {t} h = (eq_iff s t).0 h

pub member-In : (s : Text) (xs : List Text) → member s xs ≡ true → In s xs
member-In s [] h = absurd (ground arith)
member-In s (x ∷ xs) h = elim (Bool-cases (s == x)) [
  | inl e ↦ here (eq_of_== e)
  | inr e ↦ there (member-In s xs (rw e at h))
]

pub member_of_In : {s : Text} {xs : List Text} → In s xs → member s xs ≡ true
member_of_In {s} (here {x} e) = ground (arith, eq_iff s x)
member_of_In (there m) = ground (arith, member_of_In m)
