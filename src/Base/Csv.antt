-- ===== src/Base/Csv.antt =====
-- `csv.reader` with its default dialect (delimiter ",", quote character "\"" that is doubled
-- inside a quoted field, not strict), over the lines of `StringIO(text)`.
use sigmascope.Base.Tests.{leb, nat_beq, if◌then◌else◌}
use sigmascope.Base.Lists.{length, is_empty}
use sigmascope.Base.Strings.{Text}
use Prim.Native.Nat.{ℕ}
use mathlib.Core.Bool.{Bool, true, false, not, ◌||◌}
use mathlib.Core.Option.{Option, none, some}
use mathlib.Core.List.{List, [], ◌∷◌, ◌++◌}

pub data CsvState : Type 0 where
  start_record start_field in_field in_quoted_field quote_in_quoted_field eat_line_end : CsvState

-- The reader within a record: the fields that are closed, and the one that is open.
pub record CsvReader : Type 0 where
  pub state : CsvState
  pub field : Text
  pub fields : List Text

abbrev pub new_record : CsvReader
new_record = record { state = start_record; field = []; fields = [] }

-- `csv.field_size_limit()`
abbrev pub field_size_limit : ℕ
field_size_limit = 131072

-- `none` is a csv.Error.
abbrev pub add_char : ℕ → CsvState → CsvReader → Option CsvReader
add_char c next r =
    if leb field_size_limit (length r.field)
    then none
    else some (record r { state = next; field = r.field ++ c ∷ [] })

abbrev pub save_field : CsvState → CsvReader → CsvReader
save_field next r = record { state = next; field = []; fields = r.fields ++ r.field ∷ [] }

abbrev pub is_csv_end : ℕ → Bool
is_csv_end c = nat_beq c b'\n' || nat_beq c b'\r'

abbrev pub read_unquoted : ℕ → CsvReader → Option CsvReader
read_unquoted c r =
    if is_csv_end c
    then some (save_field eat_line_end r)
    else if nat_beq c b','
    then some (save_field start_field r)
    else add_char c in_field r

abbrev pub read_field_start : ℕ → CsvReader → Option CsvReader
read_field_start c r =
    if nat_beq c b'"' then some (record r { state = in_quoted_field }) else read_unquoted c r

abbrev pub read_in_state : CsvState → ℕ → CsvReader → Option CsvReader
read_in_state start_record c r =
    if is_csv_end c then some (record r { state = eat_line_end }) else read_field_start c r
read_in_state start_field c r = read_field_start c r
read_in_state in_field c r = read_unquoted c r
read_in_state in_quoted_field c r =
    if nat_beq c b'"'
    then some (record r { state = quote_in_quoted_field })
    else add_char c in_quoted_field r
read_in_state quote_in_quoted_field c r =
    if nat_beq c b'"' then add_char c in_quoted_field r else read_unquoted c r
read_in_state eat_line_end c r = if is_csv_end c then some r else none

unfoldable pub read_chars : Text → CsvReader → Option CsvReader
read_chars [] r = some r
read_chars (c ∷ s) r = elim (read_in_state r.state c r) [
  | none ↦ none
  | some next ↦ read_chars s next
]

-- What the end of a line does in each state.
abbrev pub end_in_state : CsvState → CsvReader → CsvReader
end_in_state start_record r = r
end_in_state in_quoted_field r = r
end_in_state eat_line_end r = record r { state = start_record }
end_in_state start_field r = save_field start_record r
end_in_state in_field r = save_field start_record r
end_in_state quote_in_quoted_field r = save_field start_record r

abbrev pub is_closed : CsvState → Bool
is_closed start_record = true
is_closed _ = false

-- A record goes on while the reader is inside a quoted field.
unfoldable pub read_records : List Text → CsvReader → Option (List (List Text))
unfolding read_chars
read_records [] r =
    if not (is_closed r.state) || not (is_empty r.field)
    then some ((r.fields ++ r.field ∷ []) ∷ [])
    else some []
read_records (line ∷ rest) r = elim (read_chars line r) [
  | none ↦ none
  | some read ↦
      let ended = end_in_state read.state read in
      elim (is_closed ended.state) [
        | false ↦ read_records rest ended
        | true ↦ elim (read_records rest new_record) [
          | none ↦ none
          | some rows ↦ some (ended.fields ∷ rows)
        ]
      ]
]

-- The lines of `StringIO(text)`, each with its "\n".
unfoldable pub io_lines_onto : Text → Text → List Text
io_lines_onto [] [] = []
io_lines_onto (c ∷ line) [] = (c ∷ line) ∷ []
io_lines_onto line (c ∷ s) =
    let closed = (line ++ c ∷ []) ∷ io_lines_onto [] s in
    let longer = io_lines_onto (line ++ c ∷ []) s in if nat_beq c b'\n' then closed else longer

-- `list(csv.reader(StringIO(text)))`; `none` is a csv.Error.
unfoldable pub csv_rows : Text → Option (List (List Text))
unfolding read_records io_lines_onto
csv_rows text = read_records (io_lines_onto [] text) new_record
