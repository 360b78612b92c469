-- ===== src/Base/Decode.antt =====
-- Bytes, their decoding by `bytes.decode("utf-8", "surrogateescape")`, and paths.
use Prim.Native.Nat.{ℕ, ◌+◌, ◌-◌, ◌*◌}
use mathlib.Core.Bool.{Bool, not, ◌&&◌}
use mathlib.Core.List.{List, [], ◌∷◌, reverse}
use sigmascope.Base.Tests.{ltb, nat_beq, if◌then◌else◌}
use sigmascope.Base.Lists.{all}
use sigmascope.Base.Strings.{Text, within, drop_while}

abbrev pub Bytes : Type 0
Bytes = List ℕ

-- A byte that continues a sequence.
abbrev pub is_tail : ℕ → Bool
is_tail b = within 0x80 0xbf b

-- The first continuation byte of a sequence of three or four, by the lead byte: no overlong
-- form, no surrogate, and nothing above U+10FFFF.
abbrev pub is_second : ℕ → ℕ → Bool
is_second lead b =
    if nat_beq lead 0xe0
    then within 0xa0 0xbf b
    else if nat_beq lead 0xed
    then within 0x80 0x9f b
    else if nat_beq lead 0xf0
    then within 0x90 0xbf b
    else if nat_beq lead 0xf4
    then within 0x80 0x8f b
    else is_tail b

-- A byte that is part of no sequence.
abbrev pub escaped : ℕ → ℕ
escaped b = 0xdc00 + b

-- Each case goes on behind the bytes that it takes; a lead byte with a wrong sequence is escaped
-- alone.
unfoldable pub decode_utf8 : Bytes → Text
decode_utf8 [] = []
decode_utf8 (a ∷ []) = (if ltb a 0x80 then a else escaped a) ∷ []
decode_utf8 (a ∷ b ∷ []) =
    let one = (if ltb a 0x80 then a else escaped a) ∷ decode_utf8 (b ∷ []) in
    let two = ((a - 0xc0) * 64 + (b - 0x80)) ∷ [] in
    if within 0xc2 0xdf a && is_tail b then two else one
decode_utf8 (a ∷ b ∷ c ∷ []) =
    let one = (if ltb a 0x80 then a else escaped a) ∷ decode_utf8 (b ∷ c ∷ []) in
    let two = ((a - 0xc0) * 64 + (b - 0x80)) ∷ decode_utf8 (c ∷ []) in
    let three = (((a - 0xe0) * 64 + (b - 0x80)) * 64 + (c - 0x80)) ∷ [] in
    if within 0xc2 0xdf a && is_tail b
    then two
    else if within 0xe0 0xef a && is_second a b && is_tail c
    then three
    else one
decode_utf8 (a ∷ b ∷ c ∷ d ∷ s) =
    let one = (if ltb a 0x80 then a else escaped a) ∷ decode_utf8 (b ∷ c ∷ d ∷ s) in
    let two = ((a - 0xc0) * 64 + (b - 0x80)) ∷ decode_utf8 (c ∷ d ∷ s) in
    let three = (((a - 0xe0) * 64 + (b - 0x80)) * 64 + (c - 0x80)) ∷ decode_utf8 (d ∷ s) in
    let four =
      ((((a - 0xf0) * 64 + (b - 0x80)) * 64 + (c - 0x80)) * 64 + (d - 0x80)) ∷ decode_utf8 s in
    if within 0xc2 0xdf a && is_tail b
    then two
    else if within 0xe0 0xef a && is_second a b && is_tail c
    then three
    else if within 0xf0 0xf4 a && is_second a b && is_tail c && is_tail d
    then four
    else one

abbrev pub is_slash : ℕ → Bool
is_slash c = nat_beq c b'/'

-- `os.path.dirname` on POSIX.
unfoldable pub dirname : Text → Text
unfolding drop_while all
dirname path =
    let head = drop_while (λ c. not (is_slash c)) (reverse path) in
    reverse (if all is_slash head then head else drop_while is_slash head)
