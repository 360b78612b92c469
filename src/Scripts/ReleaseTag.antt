-- ===== src/Scripts/ReleaseTag.antt =====
-- scripts/verify_release_tag.py
use sigmascope.Base.{ℕ, Bool, not, ◌&&◌, ◌||◌, [], ◌∷◌, ◌++◌, if◌then◌else◌, nat_beq, is_empty}
use sigmascope.Base.{Text, lit, ◌==◌, Option, none, some, drop, drop_space, Python}
use sigmascope.Parse.SysmonCurrent.Patterns.{starts_with}

abbrev pub is_quotation : ℕ → Bool
is_quotation c = nat_beq c b'"' || nat_beq c b'\''

-- The longest text without a quotation mark, and what follows it.
unfoldable pub until_quotation : Text → Text × Text
until_quotation [] = ([], [])
until_quotation (c ∷ s) =
    let (inside, rest) = until_quotation s in
    if is_quotation c then ([], c ∷ s) else (c ∷ inside, rest)

-- A text between quotation marks, which is not empty.
abbrev pub quoted_version : Text → Option Text
quoted_version [] = none
quoted_version (c ∷ s) =
    let (inside, rest) = until_quotation s in
    if is_quotation c && not (is_empty inside) && not (is_empty rest) then some inside else none

abbrev pub after_equals : Text → Option Text
after_equals [] = none
after_equals (c ∷ s) = if nat_beq c b'=' then quoted_version (drop_space s) else none

-- `_VERSION` at the start of a line.
unfoldable pub match_version : Text → Option Text
unfolding starts_with until_quotation drop_space
match_version s =
    if starts_with (lit "__version__") s then after_equals (drop_space (drop 11 s)) else none

abbrev pub or_else : Option Text → Option Text → Option Text
or_else none later = later
or_else (some version) later = some version

-- `_VERSION.search(text)` behind a line end.
unfoldable pub search_lines : Text → Option Text
unfolding match_version
search_lines [] = none
search_lines (c ∷ s) =
    let rest = search_lines s in if nat_beq c b'\n' then or_else (match_version s) rest else rest

-- `read_source_version`, of the text of the file; `none` is its ValueError.
unfoldable pub read_source_version : Text → Option Text
unfolding search_lines
read_source_version text = or_else (match_version text) (search_lines text)

-- `read_text`: the text of an OSError, or that of the file.
pub data SourceFile : Type 0 where
  unreadable readable : Text → SourceFile

-- A version, or the text of a ValueError.
pub data Validated : Type 0 where
  valid : Text → Validated
  invalid : Text → Validated

module _ (py : Python) where
  abbrev pub check_version : Text → Text → Text → Validated
  check_version tag tagged_version version =
      if not (tagged_version == version)
      then invalid (
          lit "release tag "
          ++ (py.repr tag ++ (lit " does not match package version " ++ py.repr version)))
      else valid tagged_version

  unfoldable pub validate_tag : Text → Text → Validated
  validate_tag [] version = invalid (lit "release tag must start with 'v'")
  validate_tag (c ∷ s) version =
      if not (nat_beq c b'v')
      then invalid (lit "release tag must start with 'v'")
      else check_version (c ∷ s) s version

  abbrev pub verify_version : Text → Option Text → ℕ × Text
  verify_version tag none = (1, lit "sigmascope: could not locate sigmascope.__version__")
  verify_version tag (some version) = elim (validate_tag tag version) [
    | valid _ ↦ (0, version)
    | invalid message ↦ (1, lit "sigmascope: " ++ message)
  ]

  -- `main`, by the file of the version: its result, and the line that it prints.
  unfoldable pub verify : Text → SourceFile → ℕ × Text
  unfolding validate_tag read_source_version
  verify tag (unreadable message) = (1, lit "sigmascope: " ++ message)
  verify tag (readable text) = verify_version tag (read_source_version text)
