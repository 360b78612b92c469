-- ===== src/Evaluate/Auditd/FileWatch.antt =====
-- sigmascope/evaluate/auditd.py: `evaluate_file_watch`.
use sigmascope.Base.{Bool, not, ◌&&◌, List, [], ◌∷◌, ◌++◌, if◌then◌else◌, length}
use sigmascope.Base.{Option, none, some}
use sigmascope.Base.{Text, lit, member, has_char, join, any, is_empty, nat_text}
use sigmascope.Model.{Predicate, Rule, is_include, has_scope, ParseResult}
use sigmascope.Model.{Verdict, degraded, not_covered, indeterminate}
use sigmascope.Evaluate.Auditd.Rules.{predicate}
use sigmascope.Evaluate.Auditd.Suppression.{suppression}
use sigmascope.Evaluate.Auditd.ProcessCreation.{is_unknown}

-- A rule that watches writes and attribute changes.
unfoldable pub is_watch : Rule → Bool
is_watch rule =
    is_include rule.effect
    && any (λ p. has_char b'w' p.value && has_char b'a' p.value) (predicate rule (lit "perm"))

abbrev pub path_fields : List Text
path_fields = lit "path" ∷ lit "dir" ∷ []

unfoldable pub add_targets : List Predicate → List Text → List Text
add_targets [] targets = targets
add_targets (target ∷ rest) targets = add_targets rest (
    if member target.field path_fields && not (member target.value targets)
    then targets ++ target.value ∷ []
    else targets)

unfoldable pub watch_targets : List Rule → List Text → List Text
watch_targets [] targets = targets
watch_targets (rule ∷ rest) targets =
    watch_targets rest (if is_watch rule then add_targets rule.predicates targets else targets)

unfoldable pub is_exit_exclusion : Rule → Bool
is_exit_exclusion rule = not (is_include rule.effect) && has_scope (lit "exit") rule.selector

-- The notes from `_suppression`, and the last note.
abbrev pub suppression_notes : Option (Verdict × Text) → List Text
suppression_notes none = []
suppression_notes (some (_, note)) = note ∷ []

unfoldable pub scoped_result : List Rule → List Text → List Text → Verdict × Text
scoped_result rules targets notes =
    let last =
      if any is_exit_exclusion rules
      then lit "An auditd never,exit rule can suppress matching watch events." ∷ []
      else [] in
    let message =
      lit "auditd file monitoring is path-scoped ("
      ++ nat_text (length targets)
      ++ lit " target(s)); generic file_event coverage is not global." in
    (degraded, join (lit " ") (message ∷ (notes ++ last)))

unfoldable pub evaluate_watches : List Rule → List Text → Option (Verdict × Text) → Verdict × Text
evaluate_watches rules targets (some (not_covered, note)) = (not_covered, note)
evaluate_watches rules targets suppressed =
    scoped_result rules targets (suppression_notes suppressed)

unfoldable pub evaluate_file_watch : ParseResult → Verdict × Text
evaluate_file_watch parsed =
    let rules = parsed.rules in
    let targets = watch_targets rules [] in
    if is_unknown parsed.determinacy
    then (
      indeterminate,
      lit "auditd file watch rules are incomplete or could not be parsed safely.",
    )
    else if is_empty targets
    then (not_covered, lit "No active auditd watch with write and attribute permissions was found.")
    else evaluate_watches rules targets (suppression rules)
