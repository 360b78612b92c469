-- ===== src/Parse/AuditpolCsv/Locate.antt =====
-- sigmascope/parse/auditpol_csv.py: the columns that the first loop finds.
use sigmascope.Base.{
  ℕ, zero, suc, Bool, true, false, not, ◌&&◌, List, [], ◌∷◌, ◌≡◌, refl, sym, ap, ◌∙◌,
}
use sigmascope.Base.{
  arith, ◌+◌, ◌≢◌, Text, lit, strip, member, member-In, any, In, here, there, In-cons,
}
use sigmascope.Base.{Option, none, some, Option-cases, Bool-cases, inl, inr, is_none, get_elem?}
use sigmascope.Base.{take}
use mathlib.Core.Option.{some-injective}
use sigmascope.Parse.AuditpolCsv.{is_guid, setting_values, guid_column, setting_column}
use sigmascope.Parse.AuditpolCsv.{Columns, find_columns, first_of}

abbrev pub is_guid_cell : Text → Bool
is_guid_cell cell = is_guid (strip cell)

abbrev pub is_setting_cell : Text → Bool
is_setting_cell cell = member (strip cell) setting_values

-- No GUID is a setting.
not_both : (s : Text) → is_guid s ≡ true → member s setting_values ≡ true → ⊥
unfolding is_guid lit
not_both s g m = elim (In-cons (member-In s setting_values m)) [
  | inl e ↦ cc (rw e at g)
  | inr n ↦ elim (In-cons n) [
    | inl e ↦ cc (rw e at g)
    | inr k ↦ elim (In-cons k) [
      | inl e ↦ cc (rw e at g)
      | inr j ↦ elim (In-cons j) [ inl e ↦ cc (rw e at g) | inr i ↦ elim i [ ] ]
    ]
  ]
]

guid_column-none :
    (i : ℕ) (row : List Text) → is_none (guid_column i row) ≡ not (any is_guid_cell row)
unfolding guid_column any
guid_column-none i [] = refl
guid_column-none i (cell ∷ row) = ground (arith, guid_column-none (i + 1) row)

guid_column-some :
    (i : ℕ) (row : List Text) {k : ℕ}
    → guid_column i row ≡ some k
    → (j : ℕ) × (cell : Text) × (k ≡ i + j)
      × (get_elem? row j ≡ some cell)
      × (is_guid_cell cell ≡ true)
unfolding guid_column
guid_column-some i [] h = absurd (ground arith)
guid_column-some i (cell ∷ row) {k} h = elim (Bool-cases (is_guid_cell cell)) [
  | inl e ↦ (0, cell, ground arith, refl, e)
  | inr e ↦
      let (j, c, at_, found, g) = guid_column-some (i + 1) row (rw (e, guid_column) at h) in
      (suc j, c, omega arith, found, g)
]

setting_column-some :
    (g i : ℕ) (row : List Text) {k : ℕ}
    → setting_column g i row ≡ some k
    → (j : ℕ) × (cell : Text) × (k ≡ i + j)
      × (k ≢ g)
      × (get_elem? row j ≡ some cell)
      × (is_setting_cell cell ≡ true)
unfolding setting_column
setting_column-some g i [] h = absurd (ground arith)
setting_column-some g i (cell ∷ row) {k} h = elim (Option-cases (setting_column g (i + 1) row)) [
  | inr (later, e) ↦
      let (j, c, at_, other, found, s) = setting_column-some g (i + 1) row e in
      (suc j, c, ground arith, ground arith, found, s)
  | inl e ↦ (0, cell, ground arith, ground arith, refl, ground arith)
]

setting_column-none :
    (g i : ℕ) (row : List Text) (j : ℕ) {cell : Text}
    → setting_column g i row ≡ none
    → get_elem? row j ≡ some cell
    → is_setting_cell cell ≡ true
    → i + j ≡ g
unfolding setting_column
setting_column-none g i [] j h e s = absurd (ground arith)
setting_column-none g i (c ∷ row) zero {cell} h e s =
    let same : c ≡ cell = ground arith in
    elim (Option-cases (setting_column g (i + 1) row)) [
      | inr (later, k) ↦ absurd (ground arith)
      | inl k ↦ ground arith
    ]
setting_column-none g i (c ∷ row) (suc j) h e s =
    elim (Option-cases (setting_column g (i + 1) row)) [
      | inr (later, k) ↦ absurd (ground arith)
      | inl k ↦ omega (arith, setting_column-none g (i + 1) row j k e s)
    ]

any-get_elem? :
    (p : Text → Bool) (row : List Text)
    → any p row ≡ true
    → (j : ℕ) × (cell : Text) × (get_elem? row j ≡ some cell) × (p cell ≡ true)
unfolding any
any-get_elem? p [] h = absurd (ground arith)
any-get_elem? p (c ∷ row) h = elim (Bool-cases (p c)) [
  | inl e ↦ (0, c, refl, e)
  | inr e ↦ let (j, d, found, q) = any-get_elem? p row (ground arith) in (suc j, d, found, q)
]

any_of_get_elem? :
    (p : Text → Bool) (row : List Text) (j : ℕ) {cell : Text}
    → get_elem? row j ≡ some cell
    → p cell ≡ true
    → any p row ≡ true
unfolding any
any_of_get_elem? p [] j e h = absurd (ground arith)
any_of_get_elem? p (c ∷ row) zero {cell} e h =
    let same : c ≡ cell = ground arith in rw (same, h) refl
any_of_get_elem? p (c ∷ row) (suc j) e h = ground (arith, any_of_get_elem? p row j e h)

-- The row holds a GUID and a setting.
abbrev pub is_complete : List Text → Bool
is_complete row = any is_guid_cell row && any is_setting_cell row

-- A row with a GUID has a setting column if it holds a setting.
setting_column-any :
    (row : List Text) {g : ℕ}
    → guid_column 0 row ≡ some g
    → is_none (setting_column g 0 row) ≡ not (any is_setting_cell row)
setting_column-any row {g} e = elim (Option-cases (setting_column g 0 row)) [
  | inr (k, s) ↦
      let (j, cell, _, _, found, h) = setting_column-some g 0 row s in
      rw (s, any_of_get_elem? is_setting_cell row j found h) refl
  | inl s ↦ elim (Bool-cases (any is_setting_cell row)) [
    | inr n ↦ rw (s, n) refl
    | inl a ↦
        let (j, cell, found, h) = any-get_elem? is_setting_cell row a in
        let (i, other, at_, there_found, guid) = guid_column-some 0 row e in
        let same = setting_column-none g 0 row j s found h in
        absurd (clash j cell i other found h there_found guid (omega arith))
  ]
]
  where
    clash :
        (j : ℕ) (cell : Text) (i : ℕ) (other : Text)
        → get_elem? row j ≡ some cell
        → is_setting_cell cell ≡ true
        → get_elem? row i ≡ some other
        → is_guid_cell other ≡ true
        → i ≡ j
        → ⊥
    clash j cell i other found h there_found guid same =
        let eq : cell ≡ other = cc in not_both (strip cell) (rw (← eq) at guid) h

-- The first loop finds its columns exactly if some row holds a GUID and a setting.
pub find_columns-none :
    (rows : List (List Text)) (i : ℕ) (first : Option ℕ)
    → is_none (find_columns rows i first) ≡ not (any is_complete rows)
unfolding find_columns any
find_columns-none [] i first = refl
find_columns-none (row ∷ rest) i first = elim (Option-cases (guid_column 0 row)) [
  | inl e ↦
      let nowhere = guid_column-none 0 row in
      rw (e, find_columns) (ground (arith, find_columns-none rest (i + 1) first))
  | inr (g, e) ↦
      let somewhere = guid_column-none 0 row in
      let settled = setting_column-any row e in
      elim (Option-cases (setting_column g 0 row)) [
        | inl s ↦
            rw (e, s, find_columns)
              (ground (arith, find_columns-none rest (i + 1) (some (first_of first i))))
        | inr (k, s) ↦ rw (e, s, find_columns) (ground arith)
      ]
]

-- A row with a GUID in the one column and a setting in the other.
pub record Anchors (columns : Columns) (row : List Text) : Type 0 where
  pub guid : Text
  pub setting : Text
  pub guid_at : get_elem? row columns.guid_index ≡ some guid
  pub setting_at : get_elem? row columns.setting_index ≡ some setting
  pub guid_is : is_guid (strip guid) ≡ true
  pub setting_is : member (strip setting) setting_values ≡ true
  pub apart : columns.setting_index ≢ columns.guid_index

row-Anchors :
    (row : List Text) (columns : Columns)
    → guid_column 0 row ≡ some columns.guid_index
    → setting_column columns.guid_index 0 row ≡ some columns.setting_index
    → Anchors columns row
row-Anchors row columns e s =
    let (i, guid, at_, found, g) = guid_column-some 0 row e in
    let (j, setting, there_, other, found', h) = setting_column-some columns.guid_index 0 row s in
    let same : columns.guid_index ≡ i = omega arith in
    let same' : columns.setting_index ≡ j = omega arith in
    record {
      guid = guid;
      setting = setting;
      guid_at = ap (get_elem? row) same ∙ found;
      setting_at = ap (get_elem? row) same' ∙ found';
      guid_is = g;
      setting_is = h;
      apart = other;
    }

-- Some row anchors the columns.
abbrev Anchored : List (List Text) → Columns → Type 0
Anchored rows columns = (row : List Text) × In row rows × Anchors columns row

find_columns-first :
    (rows : List (List Text)) (i f : ℕ) {columns : Columns}
    → find_columns rows i (some f) ≡ some columns
    → (columns.first_data_index ≡ f) × Anchored rows columns
unfolding find_columns
find_columns-first [] i f h = absurd (ground arith)
find_columns-first (row ∷ rest) i f {columns} h = elim (Option-cases (guid_column 0 row)) [
  | inl e ↦
      let (same, (r, m, a)) = find_columns-first rest (i + 1) f (rw (e, find_columns) at h) in
      (same, (r, there m, a))
  | inr (g, e) ↦ elim (Option-cases (setting_column g 0 row)) [
    | inl s ↦
        let (same, (r, m, a)) = find_columns-first rest (i + 1) f (rw (e, s, find_columns) at h) in
        (same, (r, there m, a))
    | inr (k, s) ↦
        let made = some-injective _ _ (rw (e, s, find_columns) at h) in
        (
          sym (ap (λ c. c.first_data_index) made),
          (
            row,
            here refl,
            rw (← made) (
                row-Anchors row (record { first_data_index = f; guid_index = g; setting_index = k })
                  e s),
          ),
        )
  ]
]

-- A row with a GUID and a setting in the two columns, and rows without a GUID in front of the first
-- data row.
pub record IsLocated (rows : List (List Text)) (i : ℕ) (columns : Columns) : Type 0 where
  pub count : ℕ
  pub starts : columns.first_data_index ≡ i + count
  pub skipped : (row : List Text) → In row (take count rows) → any is_guid_cell row ≡ false
  pub anchor : List Text
  pub listed : In anchor rows
  pub anchors : Anchors columns anchor

-- The columns that the first loop finds are those of a row with a GUID and a setting, and the first
-- data row is one in front of which no row holds a GUID.
pub find_columns-IsLocated :
    (rows : List (List Text)) (i : ℕ) {columns : Columns}
    → find_columns rows i none ≡ some columns
    → IsLocated rows i columns
unfolding find_columns
find_columns-IsLocated [] i h = absurd (ground arith)
find_columns-IsLocated (row ∷ rest) i {columns} h = elim (Option-cases (guid_column 0 row)) [
  | inl e ↦
      let later = find_columns-IsLocated rest (i + 1) (rw (e, find_columns) at h) in
      let nowhere = guid_column-none 0 row in
      record {
        count = suc later.count;
        starts = omega (arith, later.starts);
        skipped = λ r m. elim (In-cons m) [
          | inl same ↦ rw same (ground arith)
          | inr n ↦ later.skipped r n
        ];
        anchor = later.anchor;
        listed = there later.listed;
        anchors = later.anchors;
      }
  | inr (g, e) ↦ elim (Option-cases (setting_column g 0 row)) [
    | inl s ↦
        let (same, (r, m, a)) = find_columns-first rest (i + 1) i (rw (e, s, find_columns) at h) in
        record {
          count = 0;
          starts = omega arith;
          skipped = λ q n. elim n [ ];
          anchor = r;
          listed = there m;
          anchors = a;
        }
    | inr (k, s) ↦
        let made = some-injective _ _ (rw (e, s, find_columns) at h) in
        record {
          count = 0;
          starts = omega (arith, ap (λ c. c.first_data_index) made);
          skipped = λ q n. elim n [ ];
          anchor = row;
          listed = here refl;
          anchors = rw (← made) (
              row-Anchors row (record { first_data_index = i; guid_index = g; setting_index = k }) e
                s);
        }
  ]
]
