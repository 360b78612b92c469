-- ===== src/Collect/Windows/Guid/Digits.antt =====
-- The digits of a number in a base, and back.
use sigmascope.Base.{ℕ, true, List, [], ◌∷◌, ◌≡◌, refl, ap, ◌∙◌, arith, all, ltb, length}
use sigmascope.Base.{◌+◌, ◌*◌, ◌/◌, ◌%◌, ◌<◌, ◌≤◌}
use native.Mathlib.Nat.{mod-lt, mod-eq_of_lt, mod-add-div, div-lt_iff_lt-mul, div-eq_of_lt}
use native.Mathlib.Nat.{add-mul-mod_self_left, add-mul-div_left, mul_comm, mul-le-mul_left}
use sigmascope.Base.{lt→ltb, ltb→lt}
use sigmascope.Collect.Windows.Guid.{to_digits, from_digits}

pub length-to_digits : (b k n : ℕ) → length (to_digits b k n) ≡ k
unfolding to_digits
length-to_digits b ℕ.zero n = refl
length-to_digits b (ℕ.suc k) n = ap ℕ.suc (length-to_digits b k (n / b))

abbrev pub power : ℕ → ℕ → ℕ
power b ℕ.zero = 1
power b (ℕ.suc k) = b * power b k

-- The digits of a number that they are enough for, back.
pub from_digits-to_digits :
    (b k n : ℕ) → 0 < b → n < power b k → from_digits b (to_digits b k n) ≡ n
unfolding to_digits from_digits
from_digits-to_digits b ℕ.zero n pos small = ground arith
from_digits-to_digits b (ℕ.suc k) n pos small =
    let smaller : n / b < power b k =
      (div-lt_iff_lt-mul pos).1 (rw (mul_comm b (power b k)) at small) in
    rw (from_digits-to_digits b k (n / b) pos smaller) (mod-add-div n b)

-- Digits of a base, as a number and back.
pub to_digits-from_digits :
    (b : ℕ) (ds : List ℕ)
    → all (λ d. ltb d b) ds ≡ true
    → to_digits b (length ds) (from_digits b ds) ≡ ds
unfolding to_digits from_digits all
to_digits-from_digits b [] h = refl
to_digits-from_digits b (d ∷ ds) h =
    let small : d < b = ltb→lt d b (ground arith) in
    let rest = to_digits-from_digits b ds (ground arith) in
    let first = add-mul-mod_self_left d b (from_digits b ds) ∙ mod-eq_of_lt small in
    let shifted : (d + b * from_digits b ds) / b ≡ d / b + from_digits b ds =
      add-mul-div_left d (from_digits b ds) (ground arith) in
    let none_left : d / b ≡ 0 = div-eq_of_lt small in
    let later : (d + b * from_digits b ds) / b ≡ from_digits b ds = omega arith in
    rw (first, later, rest) refl

pub from_digits-lt :
    (b : ℕ) (ds : List ℕ) → all (λ d. ltb d b) ds ≡ true → from_digits b ds < power b (length ds)
unfolding from_digits all
from_digits-lt b [] h = ground arith
from_digits-lt b (d ∷ ds) h =
    let small : d < b = ltb→lt d b (ground arith) in
    let rest = from_digits-lt b ds (ground arith) in
    let more : b * (from_digits b ds + 1) ≤ b * power b (length ds) =
      mul-le-mul_left b (ground arith) in
    omega arith

pub to_digits-lt : (b k n : ℕ) → 0 < b → all (λ d. ltb d b) (to_digits b k n) ≡ true
unfolding to_digits all
to_digits-lt b ℕ.zero n pos = refl
to_digits-lt b (ℕ.suc k) n pos =
    rw (lt→ltb (n % b) b (mod-lt n pos), to_digits-lt b k (n / b) pos) refl
