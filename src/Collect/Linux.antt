-- ===== src/Collect/Linux.antt =====
-- sigmascope/collect/linux/auditd.py, over the file system and the processes of the host.
pub mod Outputs
use sigmascope.Base.{
  Bool, true, false, not, ◌&&◌, List, [], ◌∷◌, ◌++◌, if◌then◌else◌, Option, none, some,
}
use sigmascope.Base.{Text, lit, any, find, map, join, strip, sorted_set, is_empty, int_text, Bytes}
use sigmascope.Base.{decode_utf8, dirname}
use sigmascope.Model.{CollectionError}
use sigmascope.Collect.Process.{ProcessResult, raised, completed, is_success, or_text}
use sigmascope.Api.Linux.{AuditdCollection}

-- What the collector asks of the host: `shutil.which`, `os.path.exists`, `os.path.isdir`,
-- `os.access(…, os.X_OK)` and `subprocess.run`.
pub record LinuxHost : Type 0 where
  pub which : Text → Option Text
  pub exists : Text → Bool
  pub is_dir : Text → Bool
  pub can_search : Text → Bool
  pub run : List Text → ProcessResult

abbrev pub sbin_candidates : List Text
sbin_candidates =
    lit "/usr/sbin/auditctl" ∷ lit "/sbin/auditctl" ∷ lit "/usr/local/sbin/auditctl" ∷ []

module _ (host : LinuxHost) where
  -- Whether none of the directories is closed to the caller.
  unfoldable pub is_conclusive : Bool
  unfolding dirname
  is_conclusive = not (
      any (λ d. host.is_dir d && not (host.can_search d))
        (sorted_set (map dirname sbin_candidates)))

  unfoldable pub locate_auditctl : Option Text × Bool
  unfolding is_conclusive find
  locate_auditctl = elim (host.which (lit "auditctl")) [
    | some executable ↦ (some executable, true)
    | none ↦ elim (find host.exists sbin_candidates) [
      | some candidate ↦ (some candidate, true)
      | none ↦ (none, is_conclusive)
    ]
  ]

  abbrev pub auditd_error : Text → List Text → CollectionError
  auditd_error message command = record {
    source_id = lit "auditd";
    message = message;
    resource = join (lit " ") command;
  }

  abbrev pub auditctl_result : List Text → ProcessResult → Option Text × Option CollectionError
  auditctl_result command (raised message) = (none, some (auditd_error message command))
  auditctl_result command (completed code stdout stderr) =
      if is_success code then (some (decode_utf8 stdout), none) else (
        none,
        some (
            auditd_error
              (or_text (strip (decode_utf8 stderr)) (lit "auditctl exited " ++ int_text code))
              command),
      )

  -- `_auditctl`, with one argument.
  unfoldable pub auditctl : Text → Text → Option Text × Option CollectionError
  auditctl executable argument =
      auditctl_result (executable ∷ argument ∷ []) (host.run (executable ∷ argument ∷ []))

  abbrev pub add_error : Option CollectionError → List CollectionError
  add_error none = []
  add_error (some e) = e ∷ []

  abbrev pub collect_from : Option Text × Bool → AuditdCollection
  collect_from (none, true) = record {
    installed = some false;
    effective_rules = none;
    status = none;
    errors = [];
  }
  collect_from (none, false) = record {
    installed = none;
    effective_rules = none;
    status = none;
    errors =
        record {
          source_id = lit "auditd";
          message =
              lit
                "auditctl is absent from PATH and the standard sbin directories could not be searched";
          resource = lit "auditctl";
        }
        ∷ [];
  }
  collect_from (some executable, conclusive) =
      let (rules, rules_error) = auditctl executable (lit "-l") in
      let (status, status_error) = auditctl executable (lit "-s") in
      record {
        installed = some true;
        effective_rules = rules;
        status = status;
        errors = add_error rules_error ++ add_error status_error;
      }

  unfoldable pub collect_auditd : AuditdCollection
  unfolding locate_auditctl auditctl
  collect_auditd = collect_from locate_auditctl
