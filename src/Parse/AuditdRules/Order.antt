-- ===== src/Parse/AuditdRules/Order.antt =====
-- sigmascope/parse/auditd_rules.py: the rules of `parse_auditd_rules`, their numbers and their
-- lines.
use sigmascope.Base.{ℕ, List, [], ◌∷◌, ◌++◌, ◌≡◌, refl}
use sigmascope.Base.{arith, ◌+◌, ◌≤◌, ◌<◌, Text, Option, none, some, Python, length}
use sigmascope.Base.{Bool-cases, inl, inr, splitlines, ◌≢◌}
use sigmascope.Model.{Rule, Effect, Diagnostic, Origin}
use sigmascope.Evaluate.Auditd.Kernel.{All, IsOrdered}
use sigmascope.Parse.AuditdRules.{is_blank, tokens_of, line_origin, add_rule, parse_lines}
use sigmascope.Parse.AuditdRules.{parse_auditd_rules}
use sigmascope.Parse.AuditdRules.Line.{State, make_rule, parse_rule}

-- The rules are numbered from `n + 1` on.
abbrev pub Numbered : ℕ → List Rule → Type 0
Numbered n [] = Unit
Numbered n (rule ∷ rest) = (rule.order ≡ n + 1) × Numbered (n + 1) rest

pub Numbered-append :
    (n : ℕ) (rules : List Rule) (rule : Rule)
    → Numbered n rules
    → rule.order ≡ n + length rules + 1
    → Numbered n (rules ++ rule ∷ [])
Numbered-append n [] rule h e = (omega arith, tt)
Numbered-append n (r ∷ rest) rule (e₁, h) e =
    (e₁, Numbered-append (n + 1) rest rule h (omega arith))

Numbered-All :
    (k n : ℕ) (rules : List Rule) → k ≤ n → Numbered n rules → All (λ r. k < r.order) rules
Numbered-All k n [] le h = tt
Numbered-All k n (r ∷ rest) le (e, h) = (omega arith, Numbered-All k (n + 1) rest (omega arith) h)

Numbered-IsOrdered : (n : ℕ) (rules : List Rule) → Numbered n rules → IsOrdered rules
Numbered-IsOrdered n [] h = tt
Numbered-IsOrdered n (r ∷ rest) (e, h) =
    (Numbered-All r.order (n + 1) rest (omega arith) h, Numbered-IsOrdered (n + 1) rest h)

-- A rule that is made carries the number and the line that it was given.
make_rule-some :
    (py : Python) (origin : Origin) (effect : Option Effect) (raw : Text) (order : ℕ) (s : State)
    {rule : Rule}
    → (make_rule py origin effect raw order s).0 ≡ some rule
    → (rule.order ≡ order) × (rule.raw ≡ raw)
make_rule-some py origin none raw order s h = absurd (ground arith)
make_rule-some py origin (some effect) raw order s h = ground arith

append-ne-nil : (xs : List Diagnostic) (x : Diagnostic) → xs ++ x ∷ [] ≢ []
append-ne-nil [] x h = cc
append-ne-nil (y ∷ xs) x h = cc

-- Without a diagnostic there is a rule.
make_rule-eq_some :
    (py : Python) (origin : Origin) (effect : Option Effect) (raw : Text) (order : ℕ) (s : State)
    → (make_rule py origin effect raw order s).1 ≡ []
    → (rule : Rule) × ((make_rule py origin effect raw order s).0 ≡ some rule)
make_rule-eq_some py origin none raw order s h = absurd (append-ne-nil _ _ h)
make_rule-eq_some py origin (some effect) raw order s h = (_, refl)

pub parse_rule-some :
    (py : Python) (raw : Text) (tokens : List Text) (order : ℕ) (origin : Origin) {rule : Rule}
    → (parse_rule py raw tokens order origin).0 ≡ some rule
    → (rule.order ≡ order) × (rule.raw ≡ raw)
unfolding parse_rule
parse_rule-some py raw tokens order origin h = make_rule-some py origin _ raw order _ h

pub parse_rule-eq_some :
    (py : Python) (raw : Text) (tokens : List Text) (order : ℕ) (origin : Origin)
    → (parse_rule py raw tokens order origin).1 ≡ []
    → (rule : Rule) × ((parse_rule py raw tokens order origin).0 ≡ some rule)
unfolding parse_rule
parse_rule-eq_some py raw tokens order origin h = make_rule-eq_some py origin _ raw order _ h

module _ (py : Python) (source_id : Text) where
  -- The rule and the diagnostics of a line.
  abbrev line_result : Text → ℕ → List Rule → Option Rule × List Diagnostic
  line_result line n rules =
      parse_rule py line (tokens_of line) (length rules + 1) (line_origin source_id n)

  add_rule-Numbered :
      (found : Option Rule) (rules : List Rule)
      → ((rule : Rule) → found ≡ some rule → rule.order ≡ length rules + 1)
      → Numbered 0 rules
      → Numbered 0 (add_rule found rules)
  add_rule-Numbered none rules e h = h
  add_rule-Numbered (some rule) rules e h =
      Numbered-append 0 rules rule h (omega (arith, e rule refl))

  parse_lines-Numbered :
      (lines : List Text) (n : ℕ) (rules : List Rule) (diagnostics : List Diagnostic)
      → Numbered 0 rules
      → Numbered 0 (parse_lines py source_id lines n rules diagnostics).0
  unfolding parse_lines
  parse_lines-Numbered [] n rules diagnostics h = h
  parse_lines-Numbered (line ∷ rest) n rules diagnostics h = elim (Bool-cases (is_blank line)) [
    | inl e ↦ rw e (parse_lines-Numbered rest (n + 1) rules diagnostics h)
    | inr e ↦ rw e (
        parse_lines-Numbered rest (n + 1) _ _ (
          add_rule-Numbered (line_result line n rules).0 rules
            (λ rule k. (parse_rule-some py line (tokens_of line) _ _ k).0) h))
  ]

-- The rules are numbered 1, 2, … in the order in which they stand.
pub parse_auditd_rules-Numbered :
    (py : Python) (source_id text : Text) → Numbered 0 (parse_auditd_rules py source_id text).rules
unfolding parse_auditd_rules
parse_auditd_rules-Numbered py source_id text =
    parse_lines-Numbered py source_id (splitlines text) 1 [] [] tt

pub parse_auditd_rules-IsOrdered :
    (py : Python) (source_id text : Text) → IsOrdered (parse_auditd_rules py source_id text).rules
parse_auditd_rules-IsOrdered py source_id text =
    Numbered-IsOrdered 0 _ (parse_auditd_rules-Numbered py source_id text)
