-- ===== src/Parse/AuditpolCsv/States.antt =====
-- sigmascope/parse/auditpol_csv.py: the gates of a table that was read safely.
use sigmascope.Base.{ℕ, Bool, true, false, ◌||◌, List, [], ◌∷◌, ◌++◌, ◌≡◌, refl}
use sigmascope.Base.{
  arith, ◌+◌, ◌<◌, ◌⊎◌, Text, lit, ◌==◌, eq_of_==, eq_refl, strip, any, Python, length, leb, get_or,
  drop,
}
use sigmascope.Base.{none, some, Option-cases, Bool-cases, inl, inr}
use sigmascope.Model.{Gate, text_value, Diagnostic, effective, unknown}
use sigmascope.Parse.AuditpolCsv.{is_guid, state_of, Columns, find_columns, read_state}
use sigmascope.Parse.AuditpolCsv.{
  row_origin, read_row, read_rows, is_unknown_value, rows_determinacy,
}
use sigmascope.Parse.AuditpolCsv.{read_table, canonical_guid}

-- The states that a setting can be read as for certain.
abbrev pub IsState : Text → Text → Type 0
IsState setting state =
    ((setting ≡ lit "1") × (state ≡ lit "success"))
    ⊎ ((setting ≡ lit "2") × (state ≡ lit "failure"))
    ⊎ ((setting ≡ lit "3") × (state ≡ lit "both"))

module _ (py : Python) (source_id : Text) (columns : Columns) where
  abbrev pub guid_cell : List Text → Text
  guid_cell row = strip (get_or row columns.guid_index [])

  abbrev pub setting_cell : List Text → Text
  setting_cell row = strip (get_or row columns.setting_index [])

  -- Both columns are there.
  abbrev pub IsLong : List Text → Type 0
  IsLong row = (columns.guid_index < length row) × (columns.setting_index < length row)

  -- The gates of the rows from a row number on: one for each row with a GUID, in their order.
  pub data Reads : ℕ → List (List Text) → List Gate → Type 0 where
    no_rows : {n : ℕ} → Reads n [] []
    passed :
        {n : ℕ} {row : List Text} {rest : List (List Text)} {gates : List Gate}
        → IsLong row
        → is_guid (guid_cell row) ≡ false
        → Reads (n + 1) rest gates
        → Reads n (row ∷ rest) gates
    gate :
        {n : ℕ} {row : List Text} {rest : List (List Text)} {gates : List Gate} {g : Gate}
        (state : Text)
        → IsLong row
        → is_guid (guid_cell row) ≡ true
        → IsState (setting_cell row) state
        → g.key ≡ lit "windows.audit." ++ canonical_guid (guid_cell row)
        → g.value ≡ text_value state
        → g.origin ≡ row_origin py source_id n
        → Reads (n + 1) rest gates
        → Reads n (row ∷ rest) (g ∷ gates)

  pub state_of-IsState :
      (s : Text) {state : Text}
      → state_of s ≡ some state
      → (state == lit "unknown") ≡ false
      → IsState s state
  unfolding state_of
  state_of-IsState s {state} e known = elim (Bool-cases (s == lit "1")) [
    | inl h ↦ inl (eq_of_== h, ground arith)
    | inr h ↦ elim (Bool-cases (s == lit "2")) [
      | inl k ↦ inr (inl (eq_of_== k, ground arith))
      | inr k ↦ elim (Bool-cases (s == lit "3")) [
        | inl l ↦ inr (inr (eq_of_== l, ground arith))
        | inr l ↦ absurd (ground (arith, eq_refl (lit "unknown")))
      ]
    ]
  ]

  read_state-clean :
      (s : Text) (n : ℕ) (row : List Text)
      → (read_state py source_id s n row).1 ≡ []
      → state_of s ≡ some (read_state py source_id s n row).0
  unfolding read_state
  read_state-clean s n row h = elim (Bool-cases (s == lit "0")) [
    | inl e ↦ absurd (ground arith)
    | inr e ↦ elim (Option-cases (state_of s)) [
      | inl k ↦ absurd (ground arith)
      | inr (state, k) ↦ rw (e, k, read_state) refl
    ]
  ]

  append-eq-nil : (xs ys : List Diagnostic) → xs ++ ys ≡ [] → (xs ≡ []) × (ys ≡ [])
  append-eq-nil [] ys h = (refl, h)
  append-eq-nil (x ∷ xs) ys h = absurd (ground arith)

  any-append : (p : Gate → Bool) (xs ys : List Gate) → any p (xs ++ ys) ≡ (any p xs || any p ys)
  unfolding any
  any-append p [] ys = refl
  any-append p (x ∷ xs) ys = ground (arith, any-append p xs ys)

  abbrev is_unknown_gate : Gate → Bool
  is_unknown_gate g = is_unknown_value py source_id g.value

  -- The rows that gave no diagnostic and no unknown state.
  read_rows-Reads :
      (n : ℕ) (rows : List (List Text))
      → (read_rows py source_id columns n rows).1 ≡ []
      → any is_unknown_gate (read_rows py source_id columns n rows).0 ≡ false
      → Reads n rows (read_rows py source_id columns n rows).0
  unfolding read_rows read_row any
  read_rows-Reads n [] clean known = no_rows
  read_rows-Reads n (row ∷ rest) clean known =
      let (one, others) =
        append-eq-nil (read_row py source_id columns n row).1
          (read_rows py source_id columns (n + 1) rest).1 clean in
      let split =
        any-append is_unknown_gate (read_row py source_id columns n row).0
          (read_rows py source_id columns (n + 1) rest).0 in
      let first : any is_unknown_gate (read_row py source_id columns n row).0 ≡ false =
        ground arith in
      let later = read_rows-Reads (n + 1) rest others (ground arith) in
      elim (Bool-cases
        (leb (length row) columns.guid_index || leb (length row) columns.setting_index)) [
          | inl short ↦ absurd (no_issue (rw (short, read_row) at one))
          | inr long ↦ elim (Bool-cases (is_guid (guid_cell row))) [
            | inr other ↦ rw (long, other, read_row) (passed (ground arith) other later)
            | inl guid ↦
                rw (long, guid, read_row)
                  (let settled =
                      read_state-clean (setting_cell row) n row
                        (rw (long, guid, read_row) at one) in
                    let certain : ((read_state py source_id (setting_cell row) n row).0
                          == lit "unknown")
                        ≡ false =
                      ground (arith, rw (long, guid, read_row) at first) in
                    gate _ (ground arith) guid (state_of-IsState (setting_cell row) settled certain)
                      refl refl refl later)
          ]
        ]
    where
      no_issue : {d : Diagnostic} → d ∷ [] ≡ [] → ⊥
      no_issue e = cc

-- An effective result has the columns that the first loop found, and a gate for each row with a
-- GUID from the first data row on, in their order: its key names the GUID in canonical form, its
-- value is success, failure or both as the setting is 1, 2 or 3, and its origin is the row. No such
-- row is short, and no setting is any other text.
pub read_table-Reads :
    (py : Python) (source_id : Text) (rows : List (List Text)) (text : Text)
    → (read_table py source_id rows text).determinacy ≡ effective
    → (columns : Columns) × (find_columns rows 0 none ≡ some columns)
      × Reads py source_id columns
          (columns.first_data_index + 1)
          (drop columns.first_data_index rows)
          (read_table py source_id rows text).gates
unfolding read_table
read_table-Reads py source_id rows text h = elim (Option-cases (find_columns rows 0 none)) [
  | inl e ↦ absurd (not_effective (rw (e, read_table) at h))
  | inr (columns, e) ↦
      let (clean, known) = safe _ _ (rw (e, read_table) at h) in
      (columns, e, rw (e, read_table) (read_rows-Reads py source_id columns _ _ clean known))
]
  where
    not_effective : unknown ≡ effective → ⊥
    not_effective k = cc

    safe :
        (gates : List Gate) (diagnostics : List Diagnostic)
        → rows_determinacy py source_id gates diagnostics ≡ effective
        → (diagnostics ≡ []) × (any (λ g. is_unknown_value py source_id g.value) gates ≡ false)
    safe gates [] k = (refl, ground arith)
    safe gates (d ∷ ds) k = absurd (ground arith)
