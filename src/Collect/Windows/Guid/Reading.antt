-- ===== src/Collect/Windows/Guid/Reading.antt =====
-- How `uuid.UUID` reads the text of 32 digits and four dashes.
use sigmascope.Base.{
  ℕ, Bool, true, false, not, ◌&&◌, ◌||◌, List, [], ◌∷◌, ◌≡◌, refl, ap, ◌∙◌, arith,
}
use sigmascope.Base.{◌<◌, some, Text, lit, nat_beq, ltb, all, filter, length, map}
use sigmascope.Base.{ascii_upper, upper_char, strip_chars, is_space, Python, ltb→lt, ◌⊎◌, inl, inr}
use sigmascope.Parse.AuditpolCsv.{is_brace}
use sigmascope.Parse.AuditpolCsv.Guid.{strip-all, drop_while-all, all-reverse}
use sigmascope.Collect.Windows.Guid.{from_digits, hex_char}
use sigmascope.Collect.Windows.Guid.{hex_digits}
use sigmascope.Collect.Windows.Guid.{drop_sign, prefixed_digits, hex_value, int_base16, uuid_int}
use mathlib.Core.List.{reverse, reverse-reverse}
use sigmascope.Collect.Windows.Guid.Dashes.{
  upper_digit, hex_digit-upper_digit, HoldsOfDigits, all-digits,
}
use sigmascope.Collect.Windows.Guid.Dashes.{
  dashed, all-dashed, no_dash, filter-dashed, remove_onto-all,
}

all-map : (q : ℕ → Bool) (f : ℕ → ℕ) (s : Text) → all q (map f s) ≡ all (λ c. q (f c)) s
unfolding all
all-map q f [] = refl
all-map q f (c ∷ s) = ap (λ b. q (f c) && b) (all-map q f s)

filter-map :
    (q : ℕ → Bool) (f : ℕ → ℕ) (s : Text)
    → ((c : ℕ) → q (f c) ≡ q c)
    → filter q (map f s) ≡ map f (filter q s)
unfolding filter
filter-map q f [] h = refl
filter-map q f (c ∷ s) h = ground (arith, h c, filter-map q f s h)

strip_chars-all : (s : Text) → all (λ c. not (is_brace c)) s ≡ true → strip_chars is_brace s ≡ s
unfolding strip_chars
strip_chars-all s h =
    rw (drop_while-all is_brace s h, drop_while-all is_brace (reverse s) (all-reverse _ s h))
      (reverse-reverse s)

-- The digits of a text, read.
hex_digits-upper :
    (py : Python) (after : Bool) (ds : List ℕ)
    → all (λ d. ltb d 16) ds ≡ true
    → (after ≡ true) ⊎ (0 < length ds)
    → hex_digits py after (map upper_digit ds) ≡ some ds
unfolding hex_digits all upper_char
hex_digits-upper py after [] h k = ground arith
hex_digits-upper py after (d ∷ ds) h k =
    let small = ltb→lt d 16 (ground arith) in
    let rest = hex_digits-upper py true ds (ground arith) (inl refl) in
    rw (not_underscore d small, hex_digit-upper_digit py d small, rest) refl
  where
    not_underscore : (e : ℕ) → e < 16 → nat_beq (upper_digit e) b'_' ≡ false
    not_underscore e f = ground arith

-- What stands in the text of a UUID: digits and dashes.
abbrev pub text_of : List ℕ → Text
text_of ds = ascii_upper (dashed (map hex_char ds))

-- The 32 digits are below 16.
pub record IsHex (ds : List ℕ) : Type 0 where
  pub count : length ds ≡ 32
  pub small : all (λ d. ltb d 16) ds ≡ true

pub all-text_of :
    (q : ℕ → Bool)
    → q b'-' ≡ true
    → HoldsOfDigits q
    → (ds : List ℕ) → IsHex ds
    → all q (text_of ds) ≡ true
unfolding ascii_upper upper_char
all-text_of q dash f ds h =
    all-map q upper_char (dashed (map hex_char ds))
    ∙ all-dashed (λ c. q (upper_char c)) dash (map hex_char ds) (all-digits q f ds h.small)

all-no_dash : HoldsOfDigits no_dash
unfolding upper_char
all-no_dash d h = ground arith

pub all-no_brace : HoldsOfDigits (λ c. not (is_brace c))
unfolding upper_char
all-no_brace d h = ground arith

all-no_u : HoldsOfDigits (λ c. not (nat_beq b'u' c))
unfolding upper_char
all-no_u d h = ground arith

all-no_space : HoldsOfDigits (λ c. not (is_space c))
unfolding upper_char is_space
all-no_space d h = ground arith

hex-no_dash : (ds : List ℕ) → all (λ d. ltb d 16) ds ≡ true → all no_dash (map hex_char ds) ≡ true
unfolding all
hex-no_dash [] h = refl
hex-no_dash (d ∷ ds) h = ground (arith, hex-no_dash ds)

filter-text_of : (ds : List ℕ) → IsHex ds → filter no_dash (text_of ds) ≡ map upper_digit ds
unfolding ascii_upper upper_char
filter-text_of ds h =
    filter-map no_dash upper_char (dashed (map hex_char ds)) upper-dash
    ∙ ap (map upper_char) (filter-dashed (map hex_char ds) (hex-no_dash ds h.small))
    ∙ map-map ds
  where
    upper-dash : (c : ℕ) → no_dash (upper_char c) ≡ no_dash c
    upper-dash c = ground arith

    map-map : (es : List ℕ) → map upper_char (map hex_char es) ≡ map upper_digit es
    map-map [] = refl
    map-map (e ∷ es) = ap (λ t. upper_digit e ∷ t) (map-map es)

length-upper : (ds : List ℕ) → length (map upper_digit ds) ≡ length ds
length-upper [] = refl
length-upper (d ∷ ds) = ap ℕ.suc (length-upper ds)

all-upper :
    (q : ℕ → Bool)
    → HoldsOfDigits q
    → (ds : List ℕ) → all (λ d. ltb d 16) ds ≡ true
    → all q (map upper_digit ds) ≡ true
unfolding all
all-upper q f [] h = refl
all-upper q f (d ∷ ds) h =
    rw (f d (ltb→lt d 16 (ground arith)), all-upper q f ds (ground arith)) refl

-- No sign and no prefix stands before the digits.
prefixed_digits-upper :
    (py : Python) (ds : List ℕ)
    → IsHex ds
    → prefixed_digits py (drop_sign py (map upper_digit ds)) ≡ some ds
unfolding upper_char all
prefixed_digits-upper py [] h = absurd (ground (arith, h.count))
prefixed_digits-upper py (a ∷ []) h = absurd (ground (arith, h.count))
prefixed_digits-upper py (a ∷ b ∷ []) h = absurd (ground (arith, h.count))
prefixed_digits-upper py (a ∷ b ∷ c ∷ ds) h =
    let small = h.small in
    let read = hex_digits-upper py false (a ∷ b ∷ c ∷ ds) small (inr (omega arith)) in
    let sign = no_sign a (ground arith) in
    let prefix = no_prefix b (ground arith) in ground (arith, sign, prefix, read)
  where
    no_sign : (d : ℕ) → d < 16 → nat_beq (upper_digit d) b'+' ≡ false
    no_sign d k = ground arith

    no_prefix :
        (d : ℕ) → d < 16 → (nat_beq (upper_digit d) b'x' || nat_beq (upper_digit d) b'X') ≡ false
    no_prefix d k = ground arith

int_base16-upper :
    (py : Python) (ds : List ℕ)
    → IsHex ds
    → int_base16 py (map upper_digit ds) ≡ some (from_digits 16 (reverse ds))
unfolding int_base16
int_base16-upper py ds h =
    ap (λ t. hex_value py (prefixed_digits py (drop_sign py t)))
      (strip-all (map upper_digit ds) (all-upper _ all-no_space ds h.small))
    ∙ ap (hex_value py) (prefixed_digits-upper py ds h)

pub uuid_int-text_of :
    (py : Python) (ds : List ℕ)
    → IsHex ds
    → uuid_int py (text_of ds) ≡ some (from_digits 16 (reverse ds))
unfolding uuid_int lit
uuid_int-text_of py ds h =
    let no_u = all-text_of (λ c. not (nat_beq b'u' c)) refl all-no_u ds h in
    rw
      (
        remove_onto-all b'u' (lit "rn:") (text_of ds) no_u,
        remove_onto-all b'u' (lit "uid:") (text_of ds) no_u,
        strip_chars-all (text_of ds) (all-text_of _ refl all-no_brace ds h),
        filter-text_of ds h,
        length-upper ds,
        h.count,
      )
      (int_base16-upper py ds h)
