-- ===== src/Collect/Windows/Guid.antt =====
-- sigmascope/collect/windows/auditpol_native.py: `GUID`, with what it takes from Python's `uuid`. A
-- structure is its 16 bytes of memory, which both methods read or write as a whole.
pub mod Digits
pub mod Dashes
pub mod Reading
pub mod RoundTrip
use sigmascope.Base.{
  ℕ, Bool, true, false, not, ◌&&◌, ◌||◌, List, [], ◌∷◌, ◌++◌, if◌then◌else◌, nat_beq, ltb,
}
use sigmascope.Base.{
  ◌+◌, ◌-◌, ◌*◌, ◌/◌, ◌%◌, Option, none, some, Text, lit, strip, strip_chars, ascii_upper,
}
use sigmascope.Base.{within, take, drop, length, filter, map, is_empty, Python}
use sigmascope.Parse.SysmonCurrent.Patterns.{starts_with}
use sigmascope.Parse.AuditpolCsv.{is_brace}
use mathlib.Core.List.{reverse}

abbrev pub Guid : Type 0
Guid = List ℕ

-- The digits of a number in base b, the last first: `n` of them.
unfoldable pub to_digits : ℕ → ℕ → ℕ → List ℕ
to_digits b ℕ.zero n = []
to_digits b (ℕ.suc k) n = (n % b) ∷ to_digits b k (n / b)

unfoldable pub from_digits : ℕ → List ℕ → ℕ
from_digits b [] = 0
from_digits b (d ∷ ds) = d + b * from_digits b ds

-- The order of the bytes in `bytes_le` and in `bytes`, each from the other.
abbrev pub swap : Guid → Guid
swap (a ∷ b ∷ c ∷ d ∷ e ∷ f ∷ g ∷ h ∷ rest) = d ∷ c ∷ b ∷ a ∷ f ∷ e ∷ h ∷ g ∷ rest
swap other = other

-- `UUID(bytes_le=raw).int`
unfoldable pub int_of_guid : Guid → ℕ
unfolding from_digits
int_of_guid raw = from_digits 256 (reverse (swap raw))

-- `UUID(int=n).bytes_le`
unfoldable pub guid_of_int : ℕ → Guid
unfolding to_digits
guid_of_int n = swap (reverse (to_digits 256 16 n))

abbrev pub hex_char : ℕ → ℕ
hex_char d = if ltb d 10 then b'0' + d else b'a' + (d - 10)

-- `"%032x" % n`
unfoldable pub hex_text : ℕ → Text
unfolding to_digits
hex_text n = map hex_char (reverse (to_digits 16 32 n))

-- `str(UUID(int=n))`
unfoldable pub uuid_text : ℕ → Text
unfolding hex_text
uuid_text n =
    let h = hex_text n in
    take 8 h
    ++ b'-'
      ∷ (take 4 (drop 8 h)
          ++ b'-' ∷ (take 4 (drop 12 h) ++ b'-' ∷ (take 4 (drop 16 h) ++ b'-' ∷ drop 20 h)))

-- `as_string`
unfoldable pub as_string : Guid → Text
unfolding int_of_guid uuid_text
as_string raw = b'{' ∷ (ascii_upper (uuid_text (int_of_guid raw)) ++ b'}' ∷ [])

-- `s.replace(needle, "")`, with the characters of a found needle that are still to be passed over.
unfoldable pub remove_onto : Text → ℕ → Text → Text
unfolding starts_with
remove_onto needle n [] = []
remove_onto needle (ℕ.suc n) (c ∷ s) = remove_onto needle n s
remove_onto needle ℕ.zero (c ∷ s) =
    let found = remove_onto needle (length needle - 1) s in
    let rest = remove_onto needle 0 s in if starts_with needle (c ∷ s) then found else c ∷ rest

module _ (py : Python) where
  unfoldable pub hex_digit : ℕ → Option ℕ
  hex_digit c =
      if within b'0' b'9' c
      then some (c - b'0')
      else if within b'a' b'f' c
      then some (c - b'a' + 10)
      else if within b'A' b'F' c
      then some (c - b'A' + 10)
      else py.decimal_value c

  abbrev pub add_digit : Option ℕ → Option (List ℕ) → Option (List ℕ)
  add_digit (some d) (some ds) = some (d ∷ ds)
  add_digit _ _ = none

  -- The digits of a literal, with single underscores between them.
  unfoldable pub hex_digits : Bool → Text → Option (List ℕ)
  unfolding hex_digit
  hex_digits after_digit [] = if after_digit then some [] else none
  hex_digits after_digit (c ∷ s) =
      let underscore = hex_digits false s in
      let digit = add_digit (hex_digit c) (hex_digits true s) in
      if nat_beq c b'_' then (if after_digit then underscore else none) else digit

  abbrev pub drop_sign : Text → Text
  drop_sign [] = []
  drop_sign (c ∷ s) = if nat_beq c b'+' then s else c ∷ s

  -- Behind "0x" an underscore may stand before the first digit.
  abbrev pub prefixed_digits : Text → Option (List ℕ)
  prefixed_digits (c ∷ d ∷ e ∷ s) =
      if nat_beq c b'0' && (nat_beq d b'x' || nat_beq d b'X')
      then (if nat_beq e b'_' then hex_digits false s else hex_digits false (e ∷ s))
      else hex_digits false (c ∷ d ∷ e ∷ s)
  prefixed_digits s = hex_digits false s

  abbrev pub hex_value : Option (List ℕ) → Option ℕ
  hex_value none = none
  hex_value (some ds) = some (from_digits 16 (reverse ds))

  -- `int(s, 16)` of a text without a minus; `none` is a ValueError.
  unfoldable pub int_base16 : Text → Option ℕ
  unfolding hex_digits from_digits
  int_base16 s = hex_value (prefixed_digits (drop_sign (strip s)))

  -- `UUID(s).int`
  unfoldable pub uuid_int : Text → Option ℕ
  unfolding remove_onto int_base16
  uuid_int s =
      let plain = remove_onto (lit "uuid:") 0 (remove_onto (lit "urn:") 0 s) in
      let hex = filter (λ c. not (nat_beq c b'-')) (strip_chars is_brace plain) in
      if nat_beq (length hex) 32 then int_base16 hex else none

  abbrev pub guid_from : Option ℕ → Option Guid
  guid_from none = none
  guid_from (some n) = some (guid_of_int n)

  -- `from_string`; `none` is a ValueError.
  unfoldable pub from_string : Text → Option Guid
  unfolding uuid_int guid_of_int
  from_string value = guid_from (uuid_int (strip_chars is_brace value))
