-- ===== src/Report.antt =====
-- sigmascope/report/table_out.py: `render_table`. A finding is typed, so that its keys are there.
use sigmascope.Base.{ℕ, zero, suc, not, List, [], ◌∷◌, ◌++◌, if◌then◌else◌, ◌-◌, length, filter}
use sigmascope.Base.{Option, none, some, Text, lit, join, map, is_empty, drop_space, leb}
use sigmascope.Evaluate.Resolver.{Logsource, Finding}
use mathlib.Core.List.{reverse}

abbrev pub Row : Type 0
Row = Text × Text × Text

abbrev pub service_parts : Option Text → List Text
service_parts none = []
service_parts (some s) = s ∷ []

-- `"/".join(…)` of the parts that are not empty.
unfoldable pub logsource_name : Logsource → Text
logsource_name logsource = join (lit "/") (
    filter (λ s. not (is_empty s))
      (logsource.category ∷ logsource.product ∷ service_parts logsource.service))

unfoldable pub table_rows : List Finding → List Row
unfolding logsource_name
table_rows findings =
    (lit "LOGSOURCE", lit "VERDICT", lit "EXPLANATION")
    ∷ map (λ item. (logsource_name item.logsource, item.verdict, item.explanation)) findings

abbrev pub larger : ℕ → ℕ → ℕ
larger a b = if leb a b then b else a

-- `max(len(cell) for …)`
unfoldable pub width : List Text → ℕ
width [] = 0
width (cell ∷ rest) = larger (length cell) (width rest)

abbrev pub replicate : ℕ → ℕ → Text
replicate zero c = []
replicate (suc n) c = c ∷ replicate n c

-- `cell.ljust(n)`
unfoldable pub ljust : ℕ → Text → Text
ljust n cell = cell ++ replicate (n - length cell) b' '

-- `s.rstrip()`
unfoldable pub rstrip : Text → Text
rstrip s = reverse (drop_space (reverse s))

abbrev pub Widths : Type 0
Widths = ℕ × ℕ × ℕ

unfoldable pub table_widths : List Row → Widths
unfolding width
table_widths rows =
    (width (map (λ r. r.0) rows), width (map (λ r. r.1) rows), width (map (λ r. r.2) rows))

unfoldable pub table_line : Widths → Row → Text
unfolding ljust rstrip
table_line (a, b, c) (x, y, z) = rstrip (join (lit "  ") (ljust a x ∷ ljust b y ∷ ljust c z ∷ []))

abbrev pub rule_line : Widths → Text
rule_line (a, b, c) = join (lit "  ") (replicate a b'-' ∷ replicate b b'-' ∷ replicate c b'-' ∷ [])

-- The line of dashes follows the first row.
abbrev pub table_lines : Widths → List Row → List Text
table_lines widths [] = []
table_lines widths (head ∷ rows) =
    table_line widths head ∷ rule_line widths ∷ map (table_line widths) rows

unfoldable pub render_table : List Finding → Text
unfolding table_rows table_widths table_line
render_table findings =
    let rows = table_rows findings in
    join (lit "\n") (table_lines (table_widths rows) rows) ++ lit "\n"
