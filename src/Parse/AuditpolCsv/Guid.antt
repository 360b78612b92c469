-- ===== src/Parse/AuditpolCsv/Guid.antt =====
-- sigmascope/parse/auditpol_csv.py: what `_canonical_guid` makes of a text that `_GUID` matches.
use sigmascope.Base.{ℕ, Bool, true, not, ◌&&◌, List, [], ◌∷◌, ◌++◌, ◌≡◌, refl, sym, ap, ◌∙◌}
use sigmascope.Base.{arith, Text, all, is_space, drop_space, strip, drop_while, strip_chars}
use sigmascope.Base.{ascii_upper, upper_char}
use mathlib.Core.List.{reverse, reverse-append, reverse-reverse, map-append}
use sigmascope.Parse.AuditpolCsv.{
  Piece, exactly, hex, is_hex, matches, guid_body, guid_pieces, is_guid,
}
use sigmascope.Parse.AuditpolCsv.{is_brace, canonical_guid}

-- The fixed characters of a pattern pass a test.
abbrev fixed_pass : (ℕ → Bool) → List Piece → Bool
fixed_pass q [] = true
fixed_pass q (exactly d ∷ pieces) = q d && fixed_pass q pieces
fixed_pass q (hex ∷ pieces) = fixed_pass q pieces

all-matches :
    (q : ℕ → Bool) (pieces : List Piece) (s : Text)
    → ((c : ℕ) → is_hex c ≡ true → q c ≡ true)
    → fixed_pass q pieces ≡ true
    → matches pieces s ≡ true
    → all q s ≡ true
unfolding matches all
all-matches q [] [] h f m = refl
all-matches q [] (c ∷ s) h f m = absurd (ground arith)
all-matches q (p ∷ ps) [] h f m = absurd (ground arith)
all-matches q (exactly d ∷ ps) (c ∷ s) h f m =
    let same : c ≡ d = ground arith in rw same (ground (arith, all-matches q ps s h))
all-matches q (hex ∷ ps) (c ∷ s) h f m = ground (arith, h c, all-matches q ps s h)

-- A text that ends in a fixed character.
matches-append :
    (pieces : List Piece) (d : ℕ) (s : Text)
    → matches (pieces ++ exactly d ∷ []) s ≡ true
    → (u : Text) × (s ≡ u ++ d ∷ []) × (matches pieces u ≡ true)
unfolding matches
matches-append [] d [] m = absurd (ground arith)
matches-append [] d (c ∷ []) m = ([], ground arith, refl)
matches-append [] d (c ∷ e ∷ s) m = absurd (ground arith)
matches-append (p ∷ ps) d [] m = absurd (ground arith)
matches-append (p ∷ ps) d (c ∷ s) m =
    let (u, e, n) = matches-append ps d s (ground arith) in (c ∷ u, ap (λ t. c ∷ t) e, ground arith)

pub drop_while-all : (p : ℕ → Bool) (s : Text) → all (λ c. not (p c)) s ≡ true → drop_while p s ≡ s
unfolding drop_while all
drop_while-all p [] h = refl
drop_while-all p (c ∷ s) h = ground arith

drop_space-all : (s : Text) → all (λ c. not (is_space c)) s ≡ true → drop_space s ≡ s
unfolding drop_space all
drop_space-all [] h = refl
drop_space-all (c ∷ s) h = ground arith

pub all-append : (q : ℕ → Bool) (s t : Text) → all q (s ++ t) ≡ (all q s && all q t)
unfolding all
all-append q [] t = refl
all-append q (c ∷ s) t = ground (arith, all-append q s t)

pub all-reverse : (q : ℕ → Bool) (s : Text) → all q s ≡ true → all q (reverse s) ≡ true
unfolding all
all-reverse q [] h = refl
all-reverse q (c ∷ s) h =
    rw (reverse-append (c ∷ []) s, all-append) (ground (arith, all-reverse q s))

pub strip-all : (s : Text) → all (λ c. not (is_space c)) s ≡ true → strip s ≡ s
unfolding strip
strip-all s h =
    rw (drop_space-all s h, drop_space-all (reverse s) (all-reverse _ s h)) (reverse-reverse s)

is_hex-space : (c : ℕ) → is_hex c ≡ true → not (is_space c) ≡ true
unfolding is_space
is_hex-space c h = ground arith

is_hex-brace : (c : ℕ) → is_hex c ≡ true → not (is_brace c) ≡ true
is_hex-brace c h = ground arith

drop_while-front :
    (c : ℕ) (v t : Text)
    → all (λ d. not (is_brace d)) (c ∷ v) ≡ true
    → drop_while is_brace ((c ∷ v) ++ t) ≡ (c ∷ v) ++ t
unfolding drop_while all
drop_while-front c v t k = ground arith

pub strip_chars-braces :
    (u : Text)
    → all (λ c. not (is_brace c)) u ≡ true
    → strip_chars is_brace (b'{' ∷ (u ++ b'}' ∷ [])) ≡ u
unfolding strip_chars drop_while
strip_chars-braces [] h = refl
strip_chars-braces (c ∷ v) h =
    rw
      (
        drop_while-front c v (b'}' ∷ []) h,
        reverse-append (c ∷ v) (b'}' ∷ []),
        drop_while-all is_brace (reverse (c ∷ v)) (all-reverse _ (c ∷ v) h),
      )
      (reverse-reverse (c ∷ v))

matches-cons :
    (d : ℕ) (pieces : List Piece) (s : Text)
    → matches (exactly d ∷ pieces) s ≡ true
    → (t : Text) × (s ≡ d ∷ t) × (matches pieces t ≡ true)
unfolding matches
matches-cons d pieces [] h = absurd (ground arith)
matches-cons d pieces (c ∷ t) h = (t, ground arith, ground arith)

is_guid-shape :
    (s : Text)
    → is_guid s ≡ true
    → (u : Text) × (s ≡ b'{' ∷ (u ++ b'}' ∷ [])) × (matches guid_body u ≡ true)
unfolding is_guid
is_guid-shape s h =
    let (t, first, inner) = matches-cons b'{' (guid_body ++ exactly b'}' ∷ []) s h in
    let (u, e, m) = matches-append guid_body b'}' t inner in (u, first ∙ ap (λ v. b'{' ∷ v) e, m)

-- A text that `_GUID` matches is its own canonical form but for the case of its letters.
pub canonical_guid-is_guid : (s : Text) → is_guid s ≡ true → canonical_guid s ≡ ascii_upper s
unfolding canonical_guid is_guid ascii_upper is_space
canonical_guid-is_guid s h =
    let plain = strip-all s (all-matches _ guid_pieces s is_hex-space refl h) in
    let (u, e, m) = is_guid-shape s h in
    let bare : strip_chars is_brace s ≡ u =
      ap (strip_chars is_brace) e
      ∙ strip_chars-braces u (all-matches _ guid_body u is_hex-brace refl m) in
    ap (λ t. b'{' ∷ (ascii_upper (strip_chars is_brace t) ++ b'}' ∷ [])) plain
    ∙ ap (λ t. b'{' ∷ (ascii_upper t ++ b'}' ∷ [])) bare
    ∙ sym (ap ascii_upper e ∙ ap (λ t. b'{' ∷ t) (map-append upper_char u (b'}' ∷ [])))
