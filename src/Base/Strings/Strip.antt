-- ===== src/Base/Strings/Strip.antt =====
-- White space, `strip`, `partition`, `split(",")`, `splitlines`, and the case of ASCII letters.
use Prim.Native.Nat.{ℕ, ◌+◌, ◌-◌}
use mathlib.Core.Bool.{Bool, true, false, ◌&&◌, ◌||◌}
use mathlib.Core.List.{List, [], ◌∷◌, ◌++◌, map, reverse}
use sigmascope.Base.Tests.{leb, nat_beq, if◌then◌else◌}
use sigmascope.Base.Strings.Defs.{Text}

abbrev pub within : ℕ → ℕ → ℕ → Bool
within lo hi c = leb lo c && leb c hi

-- `str.isspace` of one character, which is also what `\s` matches in a pattern over `str`.
unfoldable pub is_space : ℕ → Bool
is_space c =
    within 0x09 0x0d c
    || within 0x1c 0x20 c
    || nat_beq c 0x85
    || nat_beq c 0xa0
    || nat_beq c 0x1680
    || within 0x2000 0x200a c
    || within 0x2028 0x2029 c
    || nat_beq c 0x202f
    || nat_beq c 0x205f
    || nat_beq c 0x3000

unfoldable pub drop_space : Text → Text
unfolding is_space
drop_space [] = []
drop_space (c ∷ s) = let rest = drop_space s in if is_space c then rest else c ∷ s

-- `s.strip()`
unfoldable pub strip : Text → Text
unfolding drop_space
strip s = reverse (drop_space (reverse (drop_space s)))

unfoldable pub drop_while : (ℕ → Bool) → Text → Text
drop_while p [] = []
drop_while p (c ∷ s) = let rest = drop_while p s in if p c then rest else c ∷ s

-- `s.strip(chars)`, with the test for the characters.
unfoldable pub strip_chars : (ℕ → Bool) → Text → Text
unfolding drop_while
strip_chars p s = reverse (drop_while p (reverse (drop_while p s)))

-- `s.partition(sep)` for a separator of one character: what stands before it, whether it was
-- found, and what stands behind it.
unfoldable pub partition : ℕ → Text → Text × Bool × Text
partition sep [] = ([], false, [])
partition sep (c ∷ s) =
    let (before, found, after) = partition sep s in
    if nat_beq c sep then ([], true, s) else (c ∷ before, found, after)

unfoldable pub split_onto : ℕ → Text → Text → List Text
split_onto sep word [] = word ∷ []
split_onto sep word (c ∷ s) =
    let closed = word ∷ split_onto sep [] s in
    let longer = split_onto sep (word ++ c ∷ []) s in if nat_beq c sep then closed else longer

-- `s.split(sep)` for a separator of one character.
unfoldable pub split : ℕ → Text → List Text
unfolding split_onto
split sep s = split_onto sep [] s

-- What ends a line for `splitlines`, beside the pair "\r\n".
unfoldable pub is_line_end : ℕ → Bool
is_line_end c = within 0x0a 0x0d c || within 0x1c 0x1e c || nat_beq c 0x85 || within 0x2028 0x2029 c

unfoldable pub lines_onto : Text → Text → List Text
unfolding is_line_end
lines_onto [] [] = []
lines_onto (c ∷ line) [] = (c ∷ line) ∷ []
lines_onto line (c ∷ []) = if is_line_end c then line ∷ [] else (line ++ c ∷ []) ∷ []
lines_onto line (c ∷ d ∷ s) =
    let skipped = line ∷ lines_onto [] s in
    let closed = line ∷ lines_onto [] (d ∷ s) in
    let longer = lines_onto (line ++ c ∷ []) (d ∷ s) in
    if nat_beq c b'\r' && nat_beq d b'\n' then skipped else if is_line_end c then closed else longer

-- `s.splitlines()`
unfoldable pub splitlines : Text → List Text
unfolding lines_onto
splitlines s = lines_onto [] s

unfoldable pub lower_char : ℕ → ℕ
lower_char c = if within b'A' b'Z' c then c + 32 else c

unfoldable pub upper_char : ℕ → ℕ
upper_char c = if within b'a' b'z' c then c - 32 else c

-- `s.lower()` and `s.upper()` for texts of ASCII characters.
unfoldable pub ascii_lower : Text → Text
unfolding lower_char
ascii_lower = map lower_char

unfoldable pub ascii_upper : Text → Text
unfolding upper_char
ascii_upper = map upper_char
