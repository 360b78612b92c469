-- ===== src/Collect/Windows/Reported.antt =====
-- sigmascope/collect/windows/auditpol_cli.py and what follows from its answer: the report behind a
-- verdict of sigmascope/evaluate/windows_gates.py.
use sigmascope.Base.{ℕ, Bool, true, false, List, ◌≡◌, refl, ap, ◌∙◌}
use sigmascope.Base.{arith, inl, inr, Text, lit, Python}
use sigmascope.Base.{Option, none, some, Option-cases, csv_rows, pos, Bytes}
use sigmascope.Model.{ParseResult, covered}
use sigmascope.Parse.AuditpolCsv.{parse_auditpol_csv}
use sigmascope.Evaluate.WindowsGates.{ChannelConfig, AuditProvider, evaluate_windows_audit}
use sigmascope.Evaluate.WindowsGates.Decision.{policy_state, right}
use sigmascope.Evaluate.WindowsGates.Decision.{evaluate_windows_audit-covered}
use sigmascope.Collect.Process.{ProcessResult, raised, completed}
use sigmascope.Collect.Windows.AuditpolCli.{
  auditpol_command, policy_of, parsed_policy, collect_cli_policy,
}
use sigmascope.Api.Policy.{AuditpolCliCollection}
use mathlib.Core.Option.{some-injective}
use sigmascope.Collect.Windows.CliRows.{IsRequired, read_table-IsRequired}

-- The report that a verdict rests on: what auditpol wrote, and a row of it.
pub record IsReported (py : Python) (oem : Bytes → Text) (run : List Text → ProcessResult)
    (provider : AuditProvider) : Type 0 where
  pub stdout : Bytes
  pub stderr : Bytes
  pub ended : run auditpol_command ≡ completed (pos 0) stdout stderr
  pub rows : List (List Text)
  pub read : csv_rows (oem stdout) ≡ some rows
  pub row : IsRequired py provider rows

parsed_policy-some :
    (table : Option ParseResult) {c : AuditpolCliCollection} {parsed : ParseResult}
    → parsed_policy table ≡ some c
    → c.parsed ≡ some parsed
    → table ≡ some parsed
parsed_policy-some none h has = ground arith
parsed_policy-some (some t) h has = ap (λ c. c.parsed) (some-injective _ _ h) ∙ has

module _ (py : Python) (oem : Bytes → Text) (provider : AuditProvider) where
  parse_auditpol_csv-IsRequired :
      (source_id text : Text) {parsed : ParseResult}
      → parse_auditpol_csv py source_id text ≡ some parsed
      → policy_state provider parsed.gates ≡ right
      → (rows : List (List Text)) × (csv_rows text ≡ some rows) × IsRequired py provider rows
  unfolding parse_auditpol_csv
  parse_auditpol_csv-IsRequired source_id text h p = elim (Option-cases (csv_rows text)) [
    | inl e ↦ absurd (ground arith)
    | inr (rows, e) ↦
        let same = some-injective _ _ (rw (e, parse_auditpol_csv) at h) in
        (rows, e, read_table-IsRequired py source_id provider rows text (rw (← same) at p))
  ]

  policy_of-IsReported :
      (run : List Text → ProcessResult) (answer : ProcessResult)
      → run auditpol_command ≡ answer
      → {c : AuditpolCliCollection} {parsed : ParseResult} → policy_of py oem answer ≡ some c
      → c.parsed ≡ some parsed
      → policy_state provider parsed.gates ≡ right
      → IsReported py oem run provider
  policy_of-IsReported run (raised m) ran h has p = absurd (ground arith)
  policy_of-IsReported run (completed (pos ℕ.zero) out err) ran h has p =
      let (rows, read, row) =
        parse_auditpol_csv-IsRequired (lit "auditpol /r") (oem out) (parsed_policy-some _ h has)
          p in
      record { stdout = out; stderr = err; ended = ran; rows = rows; read = read; row = row }
  policy_of-IsReported run (completed (pos (ℕ.suc n)) out err) ran h has p = absurd (ground arith)
  policy_of-IsReported run (completed code out err) ran h has p = absurd (ground arith)

-- If the collector's policy makes an entry of the catalogue COVERED, then the platform is Windows,
-- `auditpol /get /category:* /r` ended with 0, and a row of the CSV that it wrote has the GUID of the
-- entry's subcategory and a setting, 1, 2 or 3, whose state is one that the entry requires.
pub collect_cli_policy-IsReported :
    (py : Python) (oem : Bytes → Text) (provider : AuditProvider) (is_windows : Bool)
    (run : List Text → ProcessResult) {c : AuditpolCliCollection} {parsed : ParseResult}
    → collect_cli_policy py oem is_windows run ≡ some c
    → c.parsed ≡ some parsed
    → (registry : ParseResult) (channel : ChannelConfig)
    → (evaluate_windows_audit provider parsed registry channel).0 ≡ covered
    → (is_windows ≡ true) × IsReported py oem run provider
unfolding collect_cli_policy
collect_cli_policy-IsReported py oem provider false run h has registry channel v =
    absurd (ground arith)
collect_cli_policy-IsReported py oem provider true run h has registry channel v =
    let (_, _, state, _, _) = (evaluate_windows_audit-covered provider _ registry channel).0 v in
    (refl, policy_of-IsReported py oem provider run _ refl h has state)
