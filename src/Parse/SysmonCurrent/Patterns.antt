-- ===== src/Parse/SysmonCurrent/Patterns.antt =====
-- sigmascope/parse/sysmon_current.py: the four patterns, read by hand, and the searches in a
-- line. Lines come from `splitlines`, so they hold no line break.
use sigmascope.Base.{ℕ, Bool, true, false, not, ◌&&◌, ◌||◌, [], ◌∷◌, if◌then◌else◌}
use sigmascope.Base.{Option, none, some, Text, lit, is_space, drop_space, strip}
use sigmascope.Base.{partition, is_empty, within, nat_beq, map, Python}
use mathlib.Core.List.{reverse}

-- What follows white space, if there is some: `\s+`.
abbrev pub some_space : Text → Option Text
some_space [] = none
some_space (c ∷ s) = if is_space c then some (drop_space s) else none

abbrev pub after_dash : Text → Option Text
after_dash [] = none
after_dash (c ∷ s) = if nat_beq c b'-' then some s else none

-- `_SUMMARY`: the stripped key and the value.
abbrev pub summary_parts : Text × Bool × Text → Option (Text × Text)
summary_parts (key, found, value) =
    if found && not (is_empty key) then some (strip key, value) else none

unfoldable pub match_summary : Text → Option (Text × Text)
match_summary line = elim (after_dash (drop_space line)) [
  | none ↦ none
  | some s ↦ summary_parts (partition b':' s)
]

-- `:\s*$`
abbrev pub ends_with_colon : Text → Bool
ends_with_colon [] = false
ends_with_colon (c ∷ s) = nat_beq c b':' && is_empty (drop_space s)

-- `[^)]+\):\s*$`
abbrev pub closes_version : Text × Bool × Text → Bool
closes_version (version, found, rest) = found && not (is_empty version) && ends_with_colon rest

abbrev pub ends_in_space : Text → Bool
ends_in_space [] = false
ends_in_space (c ∷ []) = is_space c
ends_in_space (c ∷ d ∷ s) = ends_in_space (d ∷ s)

abbrev pub take : ℕ → Text → Text
take ℕ.zero s = []
take (ℕ.suc n) [] = []
take (ℕ.suc n) (c ∷ s) = c ∷ take n s

infixl 5 ◌>>=◌
abbrev pub ◌>>=◌ {ℓ κ} : {A : Type ℓ} {B : Type κ} → Option A → (A → Option B) → Option B
none >>= f = none
some a >>= f = f a

abbrev pub is_quote : ℕ → Bool
is_quote c = nat_beq c b'\'' || nat_beq c b'"'

module _ (py : Python) where
  -- What follows the literal, in any case: `literal` under re.IGNORECASE.
  unfoldable pub after_literal : Text → Text → Option Text
  after_literal [] s = some s
  after_literal (l ∷ literal) [] = none
  after_literal (l ∷ literal) (c ∷ s) =
      let rest = after_literal literal s in if nat_beq (py.fold l) (py.fold c) then rest else none

  abbrev pub is_letter : ℕ → Bool
  is_letter c = within b'a' b'z' (py.fold c)

  abbrev pub is_alnum : ℕ → Bool
  is_alnum c = is_letter c || within b'0' b'9' c

  unfoldable pub take_alnum : Text → Text × Text
  take_alnum [] = ([], [])
  take_alnum (c ∷ s) =
      let (word, rest) = take_alnum s in if is_alnum c then (c ∷ word, rest) else ([], c ∷ s)

  -- `[A-Za-z][A-Za-z0-9]+`
  unfoldable pub take_event : Text → Option (Text × Text)
  unfolding take_alnum
  take_event [] = none
  take_event (c ∷ s) =
      let (word, rest) = take_alnum s in
      if is_letter c && not (is_empty word) then some (c ∷ word, rest) else none

  abbrev pub quote : Text → Option Text
  quote [] = none
  quote (c ∷ s) = if is_quote c then some s else none

  abbrev pub or_else : Option Text → Option Text → Option Text
  or_else none other = other
  or_else (some s) other = some s

  -- `include|exclude`: the text that was matched, and what follows it.
  unfoldable pub take_effect : Text → Option (Text × Text)
  unfolding after_literal
  take_effect s = do
    rest ← or_else (after_literal (lit "include") s) (after_literal (lit "exclude") s)
    some (take 7 s, rest)

  -- `_RULE_HEADER`: the event and the text of the effect.
  unfoldable pub match_header : Text → Option (Text × Text)
  unfolding take_event take_effect
  match_header line = do
    dashed ← after_dash (drop_space line)
    (event, r1) ← take_event (drop_space dashed)
    r2 ← some_space r1
    r3 ← after_literal (lit "onmatch:") r2
    (effect, r4) ← take_effect (drop_space r3)
    r5 ← some_space r4
    r6 ← after_literal (lit "combine rules using ") r5
    r7 ← quote r6
    r8 ← or_else (after_literal (lit "And") r7) (after_literal (lit "Or") r7)
    r9 ← quote r8
    some (event, effect)

  -- `_RULE_VERSION`
  unfoldable pub is_rule_version : Text → Bool
  unfolding after_literal
  is_rule_version line =
      elim (after_literal (lit "Rule configuration (version ") (drop_space line)) [
        | none ↦ false
        | some s ↦ closes_version (partition b')' s)
      ]

  -- `\s+value:` here: what follows it.
  unfoldable pub value_here : Text → Option Text
  unfolding after_literal
  value_here s = do rest ← some_space s; after_literal (lit "value:") rest

  -- The first such place.
  unfoldable pub find_value : Text → Option Text
  unfolding value_here
  find_value [] = none
  find_value (c ∷ s) =
      let later = find_value s in elim (value_here (c ∷ s)) [ none ↦ later | some v ↦ some v ]

  -- `\s*.+?\s+value:`: one character at least stands in front of the white space. If all in front
  -- is white space, two such characters do.
  abbrev pub value_at_start : Text → Option Text
  value_at_start (c ∷ d ∷ s) = if is_space c && is_space d then value_here (d ∷ s) else none
  value_at_start _ = none

  abbrev pub find_after_first : Text → Option Text
  find_after_first [] = none
  find_after_first (c ∷ s) = find_value s

  unfoldable pub filter_value : Text → Option Text
  unfolding find_value
  filter_value s = or_else (find_after_first (drop_space s)) (value_at_start s)

  -- A text that ends, in any case, in the literal: what stands before it.
  unfoldable pub before_literal : Text → Text → Option Text
  unfolding after_literal
  before_literal literal s = elim (after_literal (reverse literal) (reverse s)) [
    | none ↦ none
    | some rest ↦ some (reverse rest)
  ]

  abbrev pub drop_quote : Text → Text
  drop_quote [] = []
  drop_quote (c ∷ s) = if is_quote c then s else c ∷ s

  -- `['"]?(?P<value>.*?)['"]?\s*$`, with the value stripped.
  unfoldable pub unquote : Text → Text
  unquote s = strip (reverse (drop_quote (drop_space (reverse (drop_quote (drop_space s))))))

  -- `\s+(?P<field>[^:]+?)\s+` is all of the text: the field, stripped.
  unfoldable pub padded_field : Text → Option Text
  padded_field [] = none
  padded_field (c ∷ []) = none
  padded_field (c ∷ d ∷ []) = none
  padded_field (c ∷ d ∷ e ∷ s) =
      if is_space c && ends_in_space (e ∷ s) then some (strip (c ∷ d ∷ e ∷ s)) else none

  -- `_FILTER`: the stripped field and the stripped value.
  unfoldable pub match_filter : Text → Option (Text × Text)
  unfolding filter_value before_literal padded_field unquote
  match_filter line = do
    let (before, found, after) = partition b':' line
    padded ← if found then before_literal (lit "filter") before else none
    field ← padded_field padded
    tail ← filter_value after
    some (field, unquote tail)

-- `needle in s`
unfoldable pub starts_with : Text → Text → Bool
starts_with [] s = true
starts_with (x ∷ needle) [] = false
starts_with (x ∷ needle) (c ∷ s) = nat_beq x c && starts_with needle s

unfoldable pub contains_text : Text → Text → Bool
unfolding starts_with
contains_text needle [] = is_empty needle
contains_text needle (c ∷ s) = starts_with needle (c ∷ s) || contains_text needle s

-- `s.replace(" ", "_")`
abbrev pub underscored : Text → Text
underscored = map (λ c. if nat_beq c b' ' then b'_' else c)
