-- ===== src/Parse/AuditpolCsv.antt =====
-- sigmascope/parse/auditpol_csv.py
pub mod Guid
pub mod Locate
pub mod States
use sigmascope.Base.{ℕ, Bool, true, false, not, ◌&&◌, ◌||◌, List, [], ◌∷◌, ◌++◌, if◌then◌else◌}
use sigmascope.Base.{Option, none, some, ◌+◌, Text, lit, ◌==◌, member, strip, ascii_upper, is_empty}
use sigmascope.Base.{
  nat_beq, nat_text, join, Python, length, leb, within, any, get_or, drop, csv_rows,
}
use sigmascope.Base.{strip_chars}
use sigmascope.Model.{Origin, Gate, GateValue, text_value, Diagnostic, warn, error, ParseResult}
use sigmascope.Model.{Determinacy, effective, unknown}

-- A character of `_GUID`.
pub data Piece : Type 0 where
  exactly : ℕ → Piece
  hex : Piece

abbrev pub is_hex : ℕ → Bool
is_hex c = within b'0' b'9' c || within b'A' b'F' c || within b'a' b'f' c

abbrev pub fits : Piece → ℕ → Bool
fits (exactly d) c = nat_beq c d
fits hex c = is_hex c

unfoldable pub matches : List Piece → Text → Bool
matches [] [] = true
matches [] (c ∷ s) = false
matches (piece ∷ pieces) [] = false
matches (piece ∷ pieces) (c ∷ s) = fits piece c && matches pieces s

abbrev pub hexes : ℕ → List Piece → List Piece
hexes ℕ.zero rest = rest
hexes (ℕ.suc n) rest = hex ∷ hexes n rest

abbrev pub guid_body : List Piece
guid_body = hexes 8 (
    exactly b'-'
    ∷ hexes 4 (exactly b'-' ∷ hexes 4 (exactly b'-' ∷ hexes 4 (exactly b'-' ∷ hexes 12 []))))

abbrev pub guid_pieces : List Piece
guid_pieces = exactly b'{' ∷ (guid_body ++ exactly b'}' ∷ [])

-- `_GUID.fullmatch(s)`
unfoldable pub is_guid : Text → Bool
unfolding matches
is_guid s = matches guid_pieces s

-- `_STATES.get(s)`
unfoldable pub state_of : Text → Option Text
state_of s =
    if s == lit "1"
    then some (lit "success")
    else if s == lit "2"
    then some (lit "failure")
    else if s == lit "3"
    then some (lit "both")
    else if s == lit ""
    then some (lit "unknown")
    else none

abbrev pub setting_values : List Text
setting_values = lit "1" ∷ lit "2" ∷ lit "3" ∷ lit "0" ∷ []

abbrev pub is_brace : ℕ → Bool
is_brace c = nat_beq c b'{' || nat_beq c b'}'

-- `_canonical_guid`; the texts that it is given are ASCII.
unfoldable pub canonical_guid : Text → Text
canonical_guid value = b'{' ∷ (ascii_upper (strip_chars is_brace (strip value)) ++ b'}' ∷ [])

-- `candidates[0]`: the first column that holds a GUID.
unfoldable pub guid_column : ℕ → List Text → Option ℕ
guid_column i [] = none
guid_column i (cell ∷ row) =
    let later = guid_column (i + 1) row in if is_guid (strip cell) then some i else later

-- The last column but that of the GUID which holds a setting.
unfoldable pub setting_column : ℕ → ℕ → List Text → Option ℕ
setting_column guid_index i [] = none
setting_column guid_index i (cell ∷ row) = elim (setting_column guid_index (i + 1) row) [
  | some later ↦ some later
  | none ↦ if not (nat_beq i guid_index) && member (strip cell) setting_values then some i else none
]

-- The three indices that the first loop finds.
pub record Columns : Type 0 where
  pub first_data_index : ℕ
  pub guid_index : ℕ
  pub setting_index : ℕ

abbrev pub first_of : Option ℕ → ℕ → ℕ
first_of none i = i
first_of (some first) i = first

-- The first loop, from a row index, with `first_guid_index`.
unfoldable pub find_columns : List (List Text) → ℕ → Option ℕ → Option Columns
unfolding guid_column setting_column
find_columns [] i first = none
find_columns (row ∷ rest) i first = elim (guid_column 0 row) [
  | none ↦ find_columns rest (i + 1) first
  | some guid_index ↦ elim (setting_column guid_index 0 row) [
    | none ↦ find_columns rest (i + 1) (some (first_of first i))
    | some setting_index ↦ some (record {
      first_data_index = first_of first i;
      guid_index = guid_index;
      setting_index = setting_index;
    })
  ]
]

module _ (py : Python) (source_id : Text) where
  abbrev pub row_origin : ℕ → Origin
  row_origin n = record { resource = source_id; locator = lit "row " ++ nat_text n }

  abbrev pub row_warning : Text → ℕ → List Text → Diagnostic
  row_warning message n row = record {
    severity = warn;
    message = message;
    origin = row_origin n;
    raw = join (lit ",") row;
  }

  -- The state of a setting, and the diagnostic for it.
  unfoldable pub read_state : Text → ℕ → List Text → Text × List Diagnostic
  unfolding state_of
  read_state raw_state n row =
      if raw_state == lit "0"
      then (
        lit "unknown",
        row_warning
              (lit "auditpol setting value 0 is ambiguous between no auditing and not specified") n
              row
            ∷ [],
      )
      else elim (state_of raw_state) [
        | none ↦ (
          lit "unknown",
          row_warning (lit "unknown auditpol setting value " ++ py.repr raw_state) n row ∷ [],
        )
        | some state ↦ (state, [])
      ]

  abbrev pub state_gate : Text → Text → ℕ → Gate
  state_gate guid_text state n = record {
    key = lit "windows.audit." ++ canonical_guid guid_text;
    value = text_value state;
    origin = row_origin n;
  }

  -- The body of the second loop: what a row adds to the gates and to the diagnostics.
  unfoldable pub read_row : Columns → ℕ → List Text → List Gate × List Diagnostic
  unfolding read_state
  read_row columns n row =
      let guid_text = strip (get_or row columns.guid_index []) in
      let (state, issues) = read_state (strip (get_or row columns.setting_index [])) n row in
      if leb (length row) columns.guid_index || leb (length row) columns.setting_index
      then ([], row_warning (lit "short auditpol CSV row") n row ∷ [])
      else if not (is_guid guid_text)
      then ([], [])
      else (state_gate guid_text state n ∷ [], issues)

  unfoldable pub read_rows : Columns → ℕ → List (List Text) → List Gate × List Diagnostic
  unfolding read_row
  read_rows columns n [] = ([], [])
  read_rows columns n (row ∷ rest) =
      let (gates, diagnostics) = read_row columns n row in
      let (more, others) = read_rows columns (n + 1) rest in (gates ++ more, diagnostics ++ others)

  -- `gate.value == "unknown"`
  abbrev pub is_unknown_value : GateValue → Bool
  is_unknown_value (text_value s) = s == lit "unknown"
  is_unknown_value _ = false

  abbrev pub rows_determinacy : List Gate → List Diagnostic → Determinacy
  rows_determinacy gates diagnostics =
      if not (is_empty diagnostics) || any (λ gate. is_unknown_value gate.value) gates
      then unknown
      else effective

  abbrev pub no_columns : Text → ParseResult
  no_columns text = record {
    determinacy = unknown;
    gates = [];
    rules = [];
    diagnostics =
        record {
          severity = error;
          message = lit "could not locate GUID and setting-value columns in auditpol CSV";
          origin = record { resource = source_id; locator = lit "CSV" };
          raw = text;
        }
        ∷ [];
  }

  -- What follows `csv.reader`.
  unfoldable pub read_table : List (List Text) → Text → ParseResult
  unfolding find_columns read_rows
  read_table rows text = elim (find_columns rows 0 none) [
    | none ↦ no_columns text
    | some columns ↦
        let (gates, diagnostics) =
          read_rows columns (columns.first_data_index + 1) (drop columns.first_data_index rows) in
        record {
          determinacy = rows_determinacy gates diagnostics;
          gates = gates;
          rules = [];
          diagnostics = diagnostics;
        }
  ]

  -- `none` is a csv.Error.
  unfoldable pub parse_auditpol_csv : Text → Option ParseResult
  unfolding read_table
  parse_auditpol_csv text = elim (csv_rows text) [
    | none ↦ none
    | some rows ↦ some (read_table rows text)
  ]
