-- ===== src/Parse/AuditdRules.antt =====
-- sigmascope/parse/auditd_rules.py
pub mod Tokens
pub mod Line
pub mod Order
pub mod Complete
use sigmascope.Base.{ℕ, Bool, not, List, [], ◌∷◌, ◌++◌, if◌then◌else◌, ◌+◌, length, filter, map}
use sigmascope.Base.{Option, none, some, Text, lit, strip, splitlines, nat_text, is_empty, Python}
use sigmascope.Model.{Origin, Rule, Diagnostic, ParseResult, determinacy_of}
use Tokens.{split_options}
use Line.{parse_rule}

abbrev pub is_blank : Text → Bool
is_blank line = is_empty (strip line)

-- The tokens of a line.
unfoldable pub tokens_of : Text → List Text
unfolding split_options
tokens_of line = filter (λ part. not (is_empty part)) (map strip (split_options line))

abbrev pub line_origin : Text → ℕ → Origin
line_origin source_id n = record { resource = source_id; locator = lit "line " ++ nat_text n }

abbrev pub add_rule : Option Rule → List Rule → List Rule
add_rule none rules = rules
add_rule (some rule) rules = rules ++ rule ∷ []

module _ (py : Python) (source_id : Text) where
  -- The loop over the lines that are left, from a line number, with the rules and the
  -- diagnostics so far.
  unfoldable pub parse_lines :
      List Text → ℕ → List Rule → List Diagnostic → List Rule × List Diagnostic
  parse_lines [] n rules diagnostics = (rules, diagnostics)
  parse_lines (line ∷ rest) n rules diagnostics =
      let (rule, issues) =
        parse_rule py line (tokens_of line) (length rules + 1) (line_origin source_id n) in
      let skipped = parse_lines rest (n + 1) rules diagnostics in
      let read = parse_lines rest (n + 1) (add_rule rule rules) (diagnostics ++ issues) in
      if is_blank line then skipped else read

  unfoldable pub parse_auditd_rules : Text → ParseResult
  unfolding parse_lines
  parse_auditd_rules text =
      let (rules, diagnostics) = parse_lines (splitlines text) 1 [] [] in
      record {
        determinacy = determinacy_of diagnostics;
        gates = [];
        rules = rules;
        diagnostics = diagnostics;
      }
