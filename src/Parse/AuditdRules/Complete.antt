-- ===== src/Parse/AuditdRules/Complete.antt =====
-- sigmascope/parse/auditd_rules.py: the lines that the rules of `parse_auditd_rules` carry.
use sigmascope.Base.{ℕ, Bool, not, List, [], ◌∷◌, ◌++◌, ◌≡◌, refl, sym, ap, ◌∙◌}
use sigmascope.Base.{arith, ◌+◌, Text, Option, none, some, Python, length, map, filter}
use sigmascope.Base.{Bool-cases, inl, inr, splitlines}
use mathlib.Core.List.{append_assoc, append-nil, map-append}
use sigmascope.Model.{Rule, Diagnostic, effective, determinacy_of}
use sigmascope.Parse.AuditdRules.{is_blank, tokens_of, line_origin, add_rule, parse_lines}
use sigmascope.Parse.AuditdRules.{parse_auditd_rules}
use sigmascope.Parse.AuditdRules.Line.{parse_rule}
use sigmascope.Parse.AuditdRules.Order.{parse_rule-some, parse_rule-eq_some}

append-eq-nil : (xs ys : List Diagnostic) → xs ++ ys ≡ [] → (xs ≡ []) × (ys ≡ [])
append-eq-nil [] ys h = (refl, h)
append-eq-nil (x ∷ xs) ys h = absurd (ground arith)

abbrev raws : List Rule → List Text
raws = map (λ rule. rule.raw)

abbrev is_filled : Text → Bool
is_filled line = not (is_blank line)

raws-add_rule :
    (found : Option Rule) (rules : List Rule) {rule : Rule} {line : Text}
    → found ≡ some rule
    → rule.raw ≡ line
    → raws (add_rule found rules) ≡ raws rules ++ line ∷ []
raws-add_rule none rules e h = absurd (ground arith)
raws-add_rule (some r) rules {rule} {line} e h =
    map-append (λ rule. rule.raw) rules (r ∷ []) ∙ ap (λ t. raws rules ++ t ∷ []) (ground arith)

module _ (py : Python) (source_id : Text) where
  parse_lines_clean :
      (lines : List Text) (n : ℕ) (rules : List Rule) (diagnostics : List Diagnostic)
      → (parse_lines py source_id lines n rules diagnostics).1 ≡ []
      → (diagnostics ≡ [])
        × (raws (parse_lines py source_id lines n rules diagnostics).0
            ≡ raws rules ++ filter is_filled lines)
  unfolding parse_lines filter
  parse_lines_clean [] n rules diagnostics h = (h, sym (append-nil (raws rules)))
  parse_lines_clean (line ∷ rest) n rules diagnostics h = elim (Bool-cases (is_blank line)) [
    | inl e ↦ rw e (parse_lines_clean rest (n + 1) rules diagnostics (rw e at h))
    | inr e ↦
        let result =
          parse_rule py line (tokens_of line) (length rules + 1) (line_origin source_id n) in
        let (clean, same) =
          parse_lines_clean rest (n + 1) (add_rule result.0 rules) (diagnostics ++ result.1)
            (rw e at h) in
        let (before, here_clean) = append-eq-nil diagnostics result.1 clean in
        let (rule, found) = parse_rule-eq_some py line (tokens_of line) _ _ here_clean in
        let (_, raw_is) = parse_rule-some py line (tokens_of line) _ _ found in
        (
          before,
          rw e (
              same
              ∙ ap (λ t. t ++ filter is_filled rest) (raws-add_rule result.0 rules found raw_is)
              ∙ append_assoc (raws rules) (line ∷ []) (filter is_filled rest)),
        )
  ]

-- If the result is effective, then each line that is not blank gave one rule, in the order of the
-- lines, and the rule carries its line.
pub parse_auditd_rules-raw :
    (py : Python) (source_id text : Text)
    → (parse_auditd_rules py source_id text).determinacy ≡ effective
    → map (λ rule. rule.raw) (parse_auditd_rules py source_id text).rules
      ≡ filter (λ line. not (is_blank line)) (splitlines text)
unfolding parse_auditd_rules
parse_auditd_rules-raw py source_id text h =
    (parse_lines_clean py source_id (splitlines text) 1 [] [] (no_diagnostics _ h)).1
  where
    no_diagnostics : (ds : List Diagnostic) → determinacy_of ds ≡ effective → ds ≡ []
    no_diagnostics [] e = refl
    no_diagnostics (d ∷ ds) e = absurd (ground arith)
