-- ===== src/Base/Interpreter.antt =====
-- What the program takes from Python's text tables, which are data of the interpreter: case
-- mapping, the digit properties of code points, and `repr` of a text.
use sigmascope.Base.Tests.{ltb, if◌then◌else◌}
use sigmascope.Base.Lists.{all}
use sigmascope.Base.Strings.{Text, ascii_lower, lower_char, within}
use Prim.Native.Nat.{ℕ, ◌-◌, ◌<◌}
use mathlib.Core.Path.{◌≡◌, refl}
use mathlib.Core.Bool.{Bool, true, false}
use mathlib.Core.Option.{Option, none, some}
use mathlib.Core.List.{[], ◌∷◌, ◌++◌}

pub record Python : Type 0 where
  -- `s.lower()`
  pub lower : Text → Text
  -- the representative of the characters that `re.IGNORECASE` takes for the same
  pub fold : ℕ → ℕ
  -- `repr(s)`, as `{s!r}` formats it
  pub repr : Text → Text
  -- `c.isdigit()` of one character
  pub is_digit : ℕ → Bool
  -- the value of a decimal digit, as `int` reads it
  pub decimal_value : ℕ → Option ℕ
  -- `sys.get_int_max_str_digits()`: the digits that `int` reads at most; 0 is no limit
  pub max_str_digits : ℕ

abbrev pub is_ascii : Text → Bool
is_ascii s = all (λ c. ltb c 128) s

abbrev pub ascii_digit : ℕ → Bool
ascii_digit c = within b'0' b'9' c

abbrev pub ascii_decimal : ℕ → Option ℕ
ascii_decimal c = if ascii_digit c then some (c - b'0') else none

-- On ASCII text the tables agree with the ASCII definitions.
pub record IsPython (py : Python) : Type 0 where
  pub lower_ascii : (s : Text) → is_ascii s ≡ true → py.lower s ≡ ascii_lower s
  pub fold_ascii : (c : ℕ) → c < 128 → py.fold c ≡ lower_char c
  pub is_digit_ascii : (c : ℕ) → c < 128 → py.is_digit c ≡ ascii_digit c
  pub decimal_ascii : (c : ℕ) → c < 128 → py.decimal_value c ≡ ascii_decimal c

-- An interpreter that knows of ASCII alone.
abbrev pub ascii_python : Python
ascii_python = record {
  lower = ascii_lower;
  fold = lower_char;
  repr = λ s. b'\'' ∷ s ++ b'\'' ∷ [];
  is_digit = λ c. ascii_digit c;
  decimal_value = λ c. ascii_decimal c;
  max_str_digits = 4300;
}

pub ascii_python-IsPython : IsPython ascii_python
ascii_python-IsPython = record {
  lower_ascii = λ s h. refl;
  fold_ascii = λ c h. refl;
  is_digit_ascii = λ c h. refl;
  decimal_ascii = λ c h. refl;
}

-- `s.isdigit()`
unfoldable pub isdigit : Python → Text → Bool
isdigit py [] = false
isdigit py (c ∷ s) = all py.is_digit (c ∷ s)
