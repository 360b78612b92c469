-- ===== src/Collect/Windows/Guid/RoundTrip.antt =====
-- sigmascope/collect/windows/auditpol_native.py: `GUID.from_string` on what `GUID.as_string` gives.
use sigmascope.Base.{ℕ, true, List, [], ◌∷◌, ◌++◌, ◌≡◌, refl, sym, ap, ◌∙◌, arith}
use sigmascope.Base.{◌<◌, some, ltb, all, length}
use sigmascope.Base.{Python}
use sigmascope.Parse.AuditpolCsv.Guid.{strip_chars-braces, all-reverse}
use sigmascope.Collect.Windows.Guid.{Guid, to_digits, from_digits, swap, int_of_guid, guid_of_int}
use sigmascope.Collect.Windows.Guid.{hex_text, uuid_text, as_string}
use sigmascope.Collect.Windows.Guid.{uuid_int, guid_from, from_string}
use sigmascope.Collect.Windows.Guid.Digits.{length-to_digits, power, from_digits-to_digits}
use sigmascope.Collect.Windows.Guid.Digits.{to_digits-from_digits, from_digits-lt, to_digits-lt}
use mathlib.Core.List.{reverse, reverse-reverse, reverse-append}
use sigmascope.Collect.Windows.Guid.Reading.{
  text_of, IsHex, all-text_of, all-no_brace, uuid_int-text_of,
}

-- The 16 bytes of a structure.
pub record IsGuid (g : Guid) : Type 0 where
  pub count : length g ≡ 16
  pub bytes : all (λ b. ltb b 256) g ≡ true

swap-swap : (g : Guid) → swap (swap g) ≡ g
swap-swap [] = refl
swap-swap (a ∷ []) = refl
swap-swap (a ∷ b ∷ []) = refl
swap-swap (a ∷ b ∷ c ∷ []) = refl
swap-swap (a ∷ b ∷ c ∷ d ∷ []) = refl
swap-swap (a ∷ b ∷ c ∷ d ∷ e ∷ []) = refl
swap-swap (a ∷ b ∷ c ∷ d ∷ e ∷ f ∷ []) = refl
swap-swap (a ∷ b ∷ c ∷ d ∷ e ∷ f ∷ g ∷ []) = refl
swap-swap (a ∷ b ∷ c ∷ d ∷ e ∷ f ∷ g ∷ h ∷ rest) = refl

swap-IsGuid : (g : Guid) → IsGuid g → IsGuid (swap g)
unfolding all
swap-IsGuid (a ∷ b ∷ c ∷ d ∷ e ∷ f ∷ g ∷ h ∷ rest) i = record {
  count = i.count;
  bytes = let bytes = i.bytes in ground arith;
}
swap-IsGuid g i = i

length-reverse : (s : List ℕ) → length (reverse s) ≡ length s
length-reverse [] = refl
length-reverse (c ∷ s) =
    ap length (reverse-append (c ∷ []) s) ∙ length-snoc (reverse s) ∙ ap ℕ.suc (length-reverse s)
  where
    length-snoc : (t : List ℕ) → length (t ++ c ∷ []) ≡ ℕ.suc (length t)
    length-snoc [] = refl
    length-snoc (d ∷ t) = ap ℕ.suc (length-snoc t)

module _ (g : Guid) (i : IsGuid g) where
  abbrev big_endian : List ℕ
  big_endian = reverse (swap g)

  abbrev number : ℕ
  number = from_digits 256 big_endian

  big_endian-count : length big_endian ≡ 16
  big_endian-count = length-reverse (swap g) ∙ (swap-IsGuid g i).count

  big_endian-bytes : all (λ b. ltb b 256) big_endian ≡ true
  big_endian-bytes = all-reverse _ (swap g) (swap-IsGuid g i).bytes

  number-lt : number < power 16 32
  number-lt = rw big_endian-count at (from_digits-lt 256 big_endian big_endian-bytes)

  number-IsHex : IsHex (reverse (to_digits 16 32 number))
  number-IsHex = record {
    count = length-reverse (to_digits 16 32 number) ∙ length-to_digits 16 32 number;
    small = all-reverse _ (to_digits 16 32 number) (to_digits-lt 16 32 number (omega arith));
  }

  uuid_int-number :
      (py : Python) → uuid_int py (text_of (reverse (to_digits 16 32 number))) ≡ some number
  uuid_int-number py =
      uuid_int-text_of py (reverse (to_digits 16 32 number)) number-IsHex
      ∙ ap (λ ds. some (from_digits 16 ds)) (reverse-reverse (to_digits 16 32 number))
      ∙ ap some (from_digits-to_digits 16 32 number (omega arith) number-lt)

  guid_of_int-number : guid_of_int number ≡ g
  unfolding guid_of_int
  guid_of_int-number =
      ap (λ k. swap (reverse (to_digits 256 k number))) (sym big_endian-count)
      ∙ ap (λ ds. swap (reverse ds)) (to_digits-from_digits 256 big_endian big_endian-bytes)
      ∙ ap swap (reverse-reverse (swap g))
      ∙ swap-swap g

  -- `GUID.from_string` gives back the structure that `GUID.as_string` has written.
  pub from_string-as_string : (py : Python) → from_string py (as_string g) ≡ some g
  unfolding from_string as_string int_of_guid uuid_text hex_text
  from_string-as_string py =
      let text = text_of (reverse (to_digits 16 32 number)) in
      let bare = strip_chars-braces text (all-text_of _ refl all-no_brace _ number-IsHex) in
      ap (λ t. guid_from py (uuid_int py t)) bare
      ∙ ap (guid_from py) (uuid_int-number py)
      ∙ ap some guid_of_int-number
