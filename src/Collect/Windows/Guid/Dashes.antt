-- ===== src/Collect/Windows/Guid/Dashes.antt =====
-- The text of a GUID: what holds of its characters, and its digits without the dashes.
use sigmascope.Base.{ℕ, Bool, true, not, List, [], ◌∷◌, ◌++◌, ◌≡◌, refl, sym, ap, ◌∙◌, arith}
use sigmascope.Base.{◌+◌, ◌<◌, some, Text, nat_beq, ltb, all, filter, take, drop, map}
use sigmascope.Base.{upper_char, Python, ltb→lt}
use sigmascope.Parse.AuditpolCsv.Guid.{all-append}
use sigmascope.Parse.SysmonCurrent.Patterns.{starts_with}
use sigmascope.Collect.Windows.Guid.{hex_char}
use sigmascope.Collect.Windows.Guid.{remove_onto, hex_digit}

-- The digits of a hexadecimal text as `as_string` writes it.
abbrev pub upper_digit : ℕ → ℕ
upper_digit d = upper_char (hex_char d)

pub hex_digit-upper_digit : (py : Python) (d : ℕ) → d < 16 → hex_digit py (upper_digit d) ≡ some d
unfolding hex_digit upper_char
hex_digit-upper_digit py d h = ground arith

-- What holds of the dash and of each digit holds of every character.
abbrev pub HoldsOfDigits : (ℕ → Bool) → Type 0
HoldsOfDigits q = (d : ℕ) → d < 16 → q (upper_digit d) ≡ true

pub all-digits :
    (q : ℕ → Bool)
    → HoldsOfDigits q
    → (ds : List ℕ) → all (λ d. ltb d 16) ds ≡ true
    → all (λ c. q (upper_char c)) (map hex_char ds) ≡ true
unfolding all
all-digits q f [] h = refl
all-digits q f (d ∷ ds) h =
    rw (f d (ltb→lt d 16 (ground arith)), all-digits q f ds (ground arith)) refl

all-take : (q : ℕ → Bool) (n : ℕ) (s : Text) → all q s ≡ true → all q (take n s) ≡ true
unfolding all
all-take q ℕ.zero s h = refl
all-take q (ℕ.suc n) [] h = refl
all-take q (ℕ.suc n) (c ∷ s) h = ground (arith, all-take q n s)

all-drop : (q : ℕ → Bool) (n : ℕ) (s : Text) → all q s ≡ true → all q (drop n s) ≡ true
unfolding all
all-drop q ℕ.zero s h = h
all-drop q (ℕ.suc n) [] h = refl
all-drop q (ℕ.suc n) (c ∷ s) h = ground (arith, all-drop q n s)

drop-nil : (n : ℕ) → drop {A = ℕ} n [] ≡ []
drop-nil ℕ.zero = refl
drop-nil (ℕ.suc n) = refl

drop-drop : (m n : ℕ) (s : Text) → drop m (drop n s) ≡ drop (n + m) s
drop-drop m ℕ.zero s = let same : m ≡ 0 + m = omega arith in ap (λ k. drop k s) same
drop-drop m (ℕ.suc n) [] = drop-nil m ∙ sym (drop-nil (ℕ.suc n + m))
drop-drop m (ℕ.suc n) (c ∷ s) =
    let same : ℕ.suc (n + m) ≡ ℕ.suc n + m = omega arith in
    drop-drop m n s ∙ ap (λ k. drop k (c ∷ s)) same

take-drop : (n : ℕ) (s : Text) → take n s ++ drop n s ≡ s
take-drop ℕ.zero s = refl
take-drop (ℕ.suc n) [] = refl
take-drop (ℕ.suc n) (c ∷ s) = ap (λ t. c ∷ t) (take-drop n s)

pub filter-all : (q : ℕ → Bool) (s : Text) → all q s ≡ true → filter q s ≡ s
unfolding filter all
filter-all q [] h = refl
filter-all q (c ∷ s) h = ground (arith, filter-all q s)

filter-append : (q : ℕ → Bool) (s t : Text) → filter q (s ++ t) ≡ filter q s ++ filter q t
unfolding filter
filter-append q [] t = refl
filter-append q (c ∷ s) t = ground (arith, filter-append q s t)

pub remove_onto-all :
    (n : ℕ) (needle : Text) (s : Text)
    → all (λ c. not (nat_beq n c)) s ≡ true
    → remove_onto (n ∷ needle) 0 s ≡ s
unfolding remove_onto all starts_with
remove_onto-all n needle [] h = refl
remove_onto-all n needle (c ∷ s) h = ground (arith, remove_onto-all n needle s)

-- The dashed text of 32 digits.
abbrev pub dashed : Text → Text
dashed h =
    take 8 h
    ++ b'-'
      ∷ (take 4 (drop 8 h)
          ++ b'-' ∷ (take 4 (drop 12 h) ++ b'-' ∷ (take 4 (drop 16 h) ++ b'-' ∷ drop 20 h)))

module _ (q : ℕ → Bool) (dash : q b'-' ≡ true) where
  all-dash : (a b : Text) → all q a ≡ true → all q b ≡ true → all q (a ++ b'-' ∷ b) ≡ true
  unfolding all
  all-dash a b h k = rw (all-append q a (b'-' ∷ b), h, k, dash) refl

  pub all-dashed : (h : Text) → all q h ≡ true → all q (dashed h) ≡ true
  all-dashed h k =
      let piece : (n m : ℕ) → all q (take m (drop n h)) ≡ true =
        λ n m. all-take q m (drop n h) (all-drop q n h k) in
      all-dash (take 8 h) _ (all-take q 8 h k) (
        all-dash (take 4 (drop 8 h)) _ (piece 8 4) (
          all-dash (take 4 (drop 12 h)) _ (piece 12 4)
            (all-dash (take 4 (drop 16 h)) _ (piece 16 4) (all-drop q 20 h k))))

abbrev pub no_dash : ℕ → Bool
no_dash c = not (nat_beq c b'-')

filter-dash :
    (a b : Text) → all no_dash a ≡ true → filter no_dash (a ++ b'-' ∷ b) ≡ a ++ filter no_dash b
unfolding filter
filter-dash a b h =
    filter-append no_dash a (b'-' ∷ b) ∙ ap (λ t. t ++ filter no_dash b) (filter-all no_dash a h)

pub filter-dashed : (h : Text) → all no_dash h ≡ true → filter no_dash (dashed h) ≡ h
filter-dashed h k =
    let piece : (n m : ℕ) → all no_dash (take m (drop n h)) ≡ true =
      λ n m. all-take no_dash m (drop n h) (all-drop no_dash n h k) in
    let tail : filter no_dash (drop 20 h) ≡ drop 20 h = filter-all _ _ (all-drop no_dash 20 h k) in
    filter-dash (take 8 h) _ (all-take no_dash 8 h k)
    ∙ ap (λ t. take 8 h ++ t)
        (filter-dash (take 4 (drop 8 h)) _ (piece 8 4)
          ∙ ap (λ t. take 4 (drop 8 h) ++ t)
              (filter-dash (take 4 (drop 12 h)) _ (piece 12 4)
                ∙ ap (λ t. take 4 (drop 12 h) ++ t)
                    (filter-dash (take 4 (drop 16 h)) _ (piece 16 4)
                      ∙ ap (λ t. take 4 (drop 16 h) ++ t) tail
                      ∙ rejoin 4 16)
                ∙ rejoin 4 12)
          ∙ rejoin 4 8)
    ∙ take-drop 8 h
  where
    rejoin : (m n : ℕ) → take m (drop n h) ++ drop (n + m) h ≡ drop n h
    rejoin m n = rw (sym (drop-drop m n h)) (take-drop m (drop n h))
