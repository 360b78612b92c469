-- ===== src/Collect/Windows/AuditpolCli.antt =====
-- sigmascope/collect/windows/auditpol_cli.py, over the platform, `subprocess.run` and
-- `bytes.decode("oem", "replace")`.
use sigmascope.Base.{Bool, not, List, [], ◌∷◌, ◌++◌, if◌then◌else◌, Option, none, some}
use sigmascope.Base.{Text, lit, strip, int_text, Bytes, Python, ℤ}
use sigmascope.Model.{ParseResult}
use sigmascope.Collect.Process.{ProcessResult, raised, completed, is_success, or_text}
use sigmascope.Parse.AuditpolCsv.{parse_auditpol_csv}
use sigmascope.Api.Policy.{AuditpolCliCollection}

abbrev pub auditpol_command : List Text
auditpol_command = lit "auditpol" ∷ lit "/get" ∷ lit "/category:*" ∷ lit "/r" ∷ []

abbrev pub no_policy : Text → AuditpolCliCollection
no_policy message = record {
  parsed = none;
  error = some (record {
    source_id = lit "windows.audit_policy";
    message = message;
    resource = lit "auditpol /get /category:* /r";
  });
}

-- `stderr.decode("oem", "replace").strip() or f"{name} exited {code}"`
abbrev pub exit_message : (Bytes → Text) → Text → ℤ → Bytes → Text
exit_message oem name code stderr =
    or_text (strip (oem stderr)) (name ++ lit " exited " ++ int_text code)

abbrev pub parsed_policy : Option ParseResult → Option AuditpolCliCollection
parsed_policy none = none
parsed_policy (some parsed) = some (record { parsed = some parsed; error = none })

module _ (py : Python) (oem : Bytes → Text) where
  -- `none` is the csv.Error of the parser.
  abbrev pub policy_of : ProcessResult → Option AuditpolCliCollection
  policy_of (raised message) = some (no_policy message)
  policy_of (completed code stdout stderr) =
      if is_success code
      then parsed_policy (parse_auditpol_csv py (lit "auditpol /r") (oem stdout))
      else some (no_policy (exit_message oem (lit "auditpol") code stderr))

  unfoldable pub collect_cli_policy :
      Bool → (List Text → ProcessResult) → Option AuditpolCliCollection
  collect_cli_policy is_windows run =
      if not is_windows
      then some (no_policy (lit "auditpol is only available on Windows"))
      else policy_of (run auditpol_command)
