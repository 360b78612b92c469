-- ===== src/Collect/Windows/CliRows.antt =====
-- sigmascope/parse/auditpol_csv.py: the rows of a report behind a verdict of sigmascope/evaluate/windows_gates.py.
use sigmascope.Base.{ℕ, true, false, ◌||◌, List, [], ◌∷◌, ◌++◌, ◌≡◌, refl, sym, ap, ◌∙◌}
use sigmascope.Base.{arith, ◌+◌, inl, inr, Text, lit, ◌==◌, member, Python, length, leb, drop}
use sigmascope.Base.{
  Option, none, some, Option-cases, Bool-cases, In, In-cons, In-append, here, there, find-In,
}
use sigmascope.Base.{eq_of_==, eq_refl, find, ◌≢◌}
use sigmascope.Model.{Gate, text_value, gate_text}
use sigmascope.Parse.AuditpolCsv.{
  is_guid, state_of, Columns, find_columns, read_state, read_row, read_rows,
}
use sigmascope.Parse.AuditpolCsv.{read_table, canonical_guid}
use sigmascope.Parse.AuditpolCsv.States.{IsState, guid_cell, setting_cell, state_of-IsState}
use sigmascope.Evaluate.WindowsGates.{AuditProvider, find_gate, says, guid}
use sigmascope.Evaluate.WindowsGates.Decision.{policy_state, found_policy, absent, right}

module _ (py : Python) (source_id : Text) (columns : Columns) where
  -- A row that a gate comes from.
  pub record Comes (rows : List (List Text)) (g : Gate) : Type 0 where
    pub row : List Text
    pub number : ℕ
    pub listed : In row rows
    pub has_guid : is_guid (guid_cell py source_id columns row) ≡ true
    pub key_is : g.key ≡ lit "windows.audit." ++ canonical_guid (guid_cell py source_id columns row)
    pub value_is :
        g.value
        ≡ text_value (read_state py source_id (setting_cell py source_id columns row) number row).0

  read_row-Comes :
      (n : ℕ) (row : List Text) (rest : List (List Text)) {g : Gate}
      → In g (read_row py source_id columns n row).0
      → Comes (row ∷ rest) g
  unfolding read_row
  read_row-Comes n row rest {g} m =
      let short = leb (length row) columns.guid_index || leb (length row) columns.setting_index in
      elim (Bool-cases short) [
        | inl e ↦ elim (rw (e, read_row) at m) [ ]
        | inr e ↦ elim (Bool-cases (is_guid (guid_cell py source_id columns row))) [
          | inr f ↦ elim (rw (e, f, read_row) at m) [ ]
          | inl f ↦ elim (In-cons (rw (e, f, read_row) at m)) [
            | inr nothing ↦ elim nothing [ ]
            | inl same ↦ record {
              row = row;
              number = n;
              listed = here refl;
              has_guid = f;
              key_is = ap (λ gate. gate.key) same;
              value_is = ap (λ gate. gate.value) same;
            }
          ]
        ]
      ]

  read_rows-Comes :
      (n : ℕ) (rows : List (List Text)) {g : Gate}
      → In g (read_rows py source_id columns n rows).0
      → Comes rows g
  unfolding read_rows
  read_rows-Comes n [] m = elim m [ ]
  read_rows-Comes n (row ∷ rest) m = elim (In-append (read_row py source_id columns n row).0 m) [
    | inl a ↦ read_row-Comes n row rest a
    | inr b ↦
        let c = read_rows-Comes (n + 1) rest b in
        record {
          row = c.row;
          number = c.number;
          listed = there c.listed;
          has_guid = c.has_guid;
          key_is = c.key_is;
          value_is = c.value_is;
        }
  ]

  read_state-certain :
      (s : Text) (n : ℕ) (row : List Text)
      → ((read_state py source_id s n row).0 == lit "unknown") ≡ false
      → state_of s ≡ some (read_state py source_id s n row).0
  unfolding read_state
  read_state-certain s n row h = ground (arith, eq_refl (lit "unknown"), Option-cases (state_of s))

says-certain :
    (s : Text)
    → says (text_value s) (lit "unknown" ∷ lit "unchanged" ∷ []) ≡ false
    → (s == lit "unknown") ≡ false
says-certain s h = ground arith

In-drop {ℓ} : {A : Type ℓ} {a : A} (n : ℕ) (xs : List A) → In a (drop n xs) → In a xs
unfolding drop
In-drop ℕ.zero xs m = m
In-drop (ℕ.suc n) [] m = m
In-drop (ℕ.suc n) (x ∷ xs) m = there (In-drop n xs m)

pub append-injective : (prefix : Text) {s t : Text} → prefix ++ s ≡ prefix ++ t → s ≡ t
append-injective [] e = e
append-injective (c ∷ prefix) e = append-injective prefix (ground arith)

pub found_policy-right :
    (provider : AuditProvider) (found : Option Gate)
    → found_policy provider found ≡ right
    → (g : Gate) × (found ≡ some g)
      × (says g.value (lit "unknown" ∷ lit "unchanged" ∷ []) ≡ false)
      × (member (gate_text g.value) provider.required_states ≡ true)
found_policy-right provider none h = ground arith
found_policy-right provider (some g) h = (g, refl, ground arith, ground arith)

-- A row of the report that sets the subcategory of a provider to a state that it requires.
pub record IsRequired (py : Python) (provider : AuditProvider) (rows : List (List Text))
    : Type 0 where
  pub columns : Columns
  pub row : List Text
  pub state : Text
  pub listed : In row rows
  pub located : find_columns rows 0 none ≡ some columns
  pub guid_is : canonical_guid (guid_cell py [] columns row) ≡ guid provider
  pub setting_is : IsState (setting_cell py [] columns row) state
  pub required : member state provider.required_states ≡ true

module _ (py : Python) (source_id : Text) (provider : AuditProvider) where
  Comes-IsRequired :
      (rows : List (List Text)) (columns : Columns) {g : Gate}
      → find_columns rows 0 none ≡ some columns
      → Comes py source_id columns rows g
      → (g.key == lit "windows.audit." ++ guid provider) ≡ true
      → says g.value (lit "unknown" ∷ lit "unchanged" ∷ []) ≡ false
      → member (gate_text g.value) provider.required_states ≡ true
      → IsRequired py provider rows
  unfolding gate_text
  Comes-IsRequired rows columns located c key known required =
      let state =
        (read_state py source_id (setting_cell py source_id columns c.row) c.number c.row).0 in
      let certain : (state == lit "unknown") ≡ false =
        says-certain state (rw c.value_is at known) in
      record {
        columns = columns;
        row = c.row;
        state = state;
        listed = c.listed;
        located = located;
        guid_is = append-injective (lit "windows.audit.") (sym c.key_is ∙ eq_of_== key);
        setting_is =
            state_of-IsState py source_id columns _
              (read_state-certain py source_id columns _ _ _ certain) certain;
        required = rw c.value_is at required;
      }

  Comes-drop :
      (columns : Columns) (n : ℕ) (rows : List (List Text)) {g : Gate}
      → Comes py source_id columns (drop n rows) g
      → Comes py source_id columns rows g
  Comes-drop columns n rows c = record {
    row = c.row;
    number = c.number;
    listed = In-drop n rows c.listed;
    has_guid = c.has_guid;
    key_is = c.key_is;
    value_is = c.value_is;
  }

  pub read_table-IsRequired :
      (rows : List (List Text)) (text : Text)
      → policy_state provider (read_table py source_id rows text).gates ≡ right
      → IsRequired py provider rows
  unfolding read_table find_gate find
  read_table-IsRequired rows text h = elim (Option-cases (find_columns rows 0 none)) [
    | inl e ↦ absurd (absent-ne-right (rw (e, read_table) at h))
    | inr (columns, e) ↦
        let (g, found, known, required) = found_policy-right provider _ (rw (e, read_table) at h) in
        let (m, key) = find-In _ _ found in
        let c = Comes-drop columns _ rows (read_rows-Comes py source_id columns _ _ m) in
        Comes-IsRequired rows columns e c key known required
  ]
    where
      absent-ne-right : absent ≢ right
      absent-ne-right e = cc
