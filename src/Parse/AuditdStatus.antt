-- ===== src/Parse/AuditdStatus.antt =====
-- sigmascope/parse/auditd_status.py
pub mod Gates
use sigmascope.Base.{ℕ, Bool, true, false, not, ◌&&◌, List, [], ◌∷◌, ◌++◌, if◌then◌else◌}
use sigmascope.Base.{Option, none, some, ◌+◌, ◌*◌, ℤ, pos, negsuc, nat_beq, is_space}
use sigmascope.Base.{Text, lit, ◌==◌, member, strip, partition, splitlines, drop_space, nat_text}
use sigmascope.Base.{join, filter, map, any, Python, ltb}
use sigmascope.Model.{Origin, Gate, int_value, Diagnostic, warn, error, ParseResult}
use sigmascope.Model.{determinacy_of}

-- `raw.split()[0]`; empty if there is no word, which is the source's IndexError.
unfoldable pub take_until_space : Text → Text
take_until_space [] = []
take_until_space (c ∷ s) = let rest = take_until_space s in if is_space c then [] else c ∷ rest

unfoldable pub first_word : Text → Text
unfolding take_until_space
first_word raw = take_until_space (drop_space raw)

module _ (py : Python) where
  -- The digits of an integer literal, with single underscores between them: the value, and the
  -- number of digits. The flag says that the last character was a digit.
  unfoldable pub read_digits : ℕ → ℕ → Bool → Text → Option (ℕ × ℕ)
  read_digits value count after_digit [] = if after_digit then some (value, count) else none
  read_digits value count after_digit (c ∷ s) =
      let underscore = read_digits value count false s in
      if nat_beq c b'_'
      then (if after_digit then underscore else none)
      else elim (py.decimal_value c) [
        | none ↦ none
        | some d ↦ read_digits (value * 10 + d) (count + 1) true s
      ]

  -- The digits with the limit on their number.
  abbrev pub within_limit : Option (ℕ × ℕ) → Option ℕ
  within_limit none = none
  within_limit (some (value, count)) =
      if ltb 0 py.max_str_digits && ltb py.max_str_digits count then none else some value

  abbrev pub negate : ℕ → ℤ
  negate ℕ.zero = pos 0
  negate (ℕ.suc n) = negsuc n

  abbrev pub signed : (ℕ → ℤ) → Option ℕ → Option ℤ
  signed sign none = none
  signed sign (some n) = some (sign n)

  abbrev pub read_natural : Text → Option ℕ
  read_natural s = within_limit (read_digits 0 0 false s)

  -- `int(word)` of a word without white space; `none` is its ValueError.
  unfoldable pub int_of : Text → Option ℤ
  unfolding read_digits
  int_of [] = none
  int_of (c ∷ s) =
      if nat_beq c b'-'
      then signed negate (read_natural s)
      else if nat_beq c b'+'
      then signed pos (read_natural s)
      else signed pos (read_natural (c ∷ s))

-- The dict `values`, in the order of insertion.
pub record Value : Type 0 where
  pub key : Text
  pub number : ℤ
  pub origin : Origin

-- `values[key] = (number, origin)`
unfoldable pub set_value : Value → List Value → List Value
set_value v [] = v ∷ []
set_value v (w ∷ values) =
    let rest = set_value v values in if w.key == v.key then v ∷ values else w ∷ rest

unfoldable pub has_value : List Value → Text → Bool
has_value values key = any (λ v. v.key == key) values

abbrev pub status_keys : List Text
status_keys = lit "enabled" ∷ lit "pid" ∷ []

module _ (py : Python) (source_id : Text) where
  abbrev pub status_origin : ℕ → Origin
  status_origin n = record { resource = source_id; locator = lit "line " ++ nat_text n }

  abbrev pub complain : Text → Text → Text → ℕ → Diagnostic
  complain key problem line n = record {
    severity = warn;
    message = lit "auditctl -s " ++ key ++ problem;
    origin = status_origin n;
    raw = line;
  }

  abbrev pub add_number :
      Option ℤ → Text → Text → ℕ → List Value × List Diagnostic → List Value × List Diagnostic
  add_number none key line n (values, diagnostics) =
      (values, diagnostics ++ complain key (lit " is not numeric") line n ∷ [])
  add_number (some number) key line n (values, diagnostics) = (
    set_value (record { key = key; number = number; origin = status_origin n }) values,
    diagnostics,
  )

  -- The body of the loop, for one line.
  unfoldable pub read_line : Text → ℕ → List Value × List Diagnostic → List Value × List Diagnostic
  unfolding set_value first_word int_of
  read_line line n (values, diagnostics) =
      let (key, separator, raw) = partition b' ' (strip line) in
      if not (member key status_keys)
      then (values, diagnostics)
      else if not separator
      then (values, diagnostics ++ complain key (lit " has no value") line n ∷ [])
      else add_number (int_of py (first_word raw)) key line n (values, diagnostics)

  unfoldable pub read_lines :
      List Text → ℕ → List Value × List Diagnostic → List Value × List Diagnostic
  unfolding read_line
  read_lines [] n state = state
  read_lines (line ∷ rest) n state = read_lines rest (n + 1) (read_line line n state)

  abbrev pub missing_keys : List Value → List Text
  missing_keys values = filter (λ key. not (has_value values key)) status_keys

  abbrev pub missing_diagnostics : List Text → Text → List Diagnostic
  missing_diagnostics [] text = []
  missing_diagnostics (key ∷ keys) text =
      record {
        severity = error;
        message = lit "auditctl -s did not contain valid " ++ join (lit " and ") (key ∷ keys);
        origin = record { resource = source_id; locator = lit "output" };
        raw = text;
      }
      ∷ []

  abbrev pub status_gate : Value → Gate
  status_gate v = record {
    key = lit "auditd." ++ v.key;
    value = int_value v.number;
    origin = v.origin;
  }

  unfoldable pub parse_auditd_status : Text → ParseResult
  unfolding read_lines has_value
  parse_auditd_status text =
      let (values, issues) = read_lines (splitlines text) 1 ([], []) in
      let diagnostics = issues ++ missing_diagnostics (missing_keys values) text in
      record {
        determinacy = determinacy_of diagnostics;
        gates = map status_gate values;
        rules = [];
        diagnostics = diagnostics;
      }
