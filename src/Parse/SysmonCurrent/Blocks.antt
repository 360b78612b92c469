-- ===== src/Parse/SysmonCurrent/Blocks.antt =====
-- sigmascope/parse/sysmon_current.py: the rules that the blocks give.
use sigmascope.Base.{ℕ, true, List, [], ◌∷◌, ◌++◌, ◌≡◌, refl, ap, inl, inr}
use sigmascope.Base.{arith, ◌+◌, Text, lit, Option, none, some, Option-cases, Bool-cases, Python}
use sigmascope.Base.{splitlines, nat_text}
use mathlib.Core.Option.{some-injective}
use sigmascope.Model.{Rule, Origin, ParseResult, Effect}
use sigmascope.Parse.AuditdRules.Order.{Numbered, Numbered-append}
use sigmascope.Parse.SysmonCurrent.{State, Block, close_block, finish, add_summary, read_summary}
use sigmascope.Parse.SysmonCurrent.{read_in_block, read_content, open_block, read_rule_line}
use sigmascope.Parse.SysmonCurrent.{read_line, read_lines, initial, parse_sysmon_current, effect_of}
use sigmascope.Parse.SysmonCurrent.Patterns.{match_summary, match_header, match_filter}
use sigmascope.Parse.SysmonCurrent.Patterns.{is_rule_version}

close_block-Numbered :
    (block : Option Block) (rules : List Rule)
    → Numbered 0 rules
    → Numbered 0 (close_block block rules)
close_block-Numbered none rules h = h
close_block-Numbered (some b) rules h = Numbered-append 0 rules _ h (omega arith)

module _ (py : Python) where
  rules-add_summary :
      (found : Option (Text × Text)) (line : Text) (origin : Origin) (s : State)
      → (add_summary py found line origin s).rules ≡ s.rules
  rules-add_summary none line origin s = refl
  rules-add_summary (some (key, text)) line origin s = ground arith

  rules-read_summary :
      (line : Text) (origin : Origin) (s : State) → (read_summary py line origin s).rules ≡ s.rules
  unfolding read_summary
  rules-read_summary line origin s =
      ground (arith, rules-add_summary (match_summary line) line origin s)

  rules-read_content :
      (block : Option Block) (line : Text) (origin : Origin) (s : State)
      → (read_content py block line origin s).rules ≡ s.rules
  rules-read_content none line origin s = refl
  rules-read_content (some b) line origin s = in_block (match_filter py line)
    where
      in_block :
          (found : Option (Text × Text)) → (read_in_block py found b line origin s).rules ≡ s.rules
      in_block none = ground arith
      in_block (some (field, value)) = refl

  open_block-Numbered :
      (event : Text) (effect : Option Effect) (line : Text) (origin : Origin) (s : State)
      {next : State}
      → open_block py event effect line origin s ≡ some next
      → Numbered 0 s.rules
      → Numbered 0 next.rules
  unfolding finish
  open_block-Numbered event none line origin s e h = absurd (ground arith)
  open_block-Numbered event (some effect) line origin s e h =
      rw (← ap (λ n. n.rules) (some-injective _ _ e)) (close_block-Numbered s.block s.rules h)

  read_rule_line-Numbered :
      (found : Option (Text × Text)) (line : Text) (origin : Origin) (s : State) {next : State}
      → read_rule_line py found line origin s ≡ some next
      → Numbered 0 s.rules
      → Numbered 0 next.rules
  read_rule_line-Numbered (some (event, effect)) line origin s e h =
      open_block-Numbered event (effect_of (py.lower effect)) line origin s e h
  read_rule_line-Numbered none line origin s {next} e h =
      let same : next.rules ≡ s.rules = ground (arith, rules-read_content s.block line origin s) in
      rw same h

  read_line-Numbered :
      (line : Text) (origin : Origin) (s : State) {next : State}
      → read_line py line origin s ≡ some next
      → Numbered 0 s.rules
      → Numbered 0 next.rules
  unfolding read_line finish
  read_line-Numbered line origin s {next} e h = elim (Bool-cases (is_rule_version py line)) [
    | inl v ↦
        rw (← ap (λ n. n.rules) (some-injective _ _ (rw (v, read_line) at e)))
          (close_block-Numbered s.block s.rules h)
    | inr v ↦ elim (Bool-cases s.in_rules) [
      | inl inside ↦
          read_rule_line-Numbered (match_header py line) line origin (record s { in_rules = true })
            {next = next} (rw (v, inside, read_line) at e) h
      | inr outside ↦
          rw
            (
              ← ap (λ n. n.rules) (some-injective _ _ (rw (v, outside, read_line) at e)),
              rules-read_summary,
            )
            h
    ]
  ]

  read_lines-Numbered :
      (source_id : Text) (lines : List Text) (n : ℕ) (s : State) {last : State}
      → read_lines py source_id lines n s ≡ some last
      → Numbered 0 s.rules
      → Numbered 0 last.rules
  unfolding read_lines
  read_lines-Numbered source_id [] n s e h = rw (← some-injective _ _ e) h
  read_lines-Numbered source_id (line ∷ rest) n s e h =
      let origin : Origin = record { resource = source_id; locator = lit "line " ++ nat_text n } in
      elim (Option-cases (read_line py line origin s)) [
        | inl stop ↦ absurd (none-ne-some (rw (stop, read_lines) at e))
        | inr (next, go) ↦
            read_lines-Numbered source_id rest (n + 1) next (rw (go, read_lines) at e)
              (read_line-Numbered line origin s go h)
      ]
    where
      none-ne-some : {t : State} → none ≡ some t → ⊥
      none-ne-some k = absurd (ground arith)

-- The rules of a configuration that is parsed without a ValueError are numbered 1, 2, … in the
-- order in which they stand.
pub parse_sysmon_current-Numbered :
    (py : Python) (source_id text : Text) {result : ParseResult}
    → parse_sysmon_current py source_id text ≡ some result
    → Numbered 0 result.rules
unfolding parse_sysmon_current finish
parse_sysmon_current-Numbered py source_id text e =
    elim (Option-cases (read_lines py source_id (splitlines text) 1 initial)) [
      | inl stop ↦ absurd (no_result (rw (stop, parse_sysmon_current) at e))
      | inr (last, go) ↦
          rw (← ap (λ r. r.rules) (some-injective _ _ (rw (go, parse_sysmon_current) at e))) (
            close_block-Numbered last.block last.rules
              (read_lines-Numbered py source_id (splitlines text) 1 initial go tt))
    ]
  where
    no_result : {r : ParseResult} → none ≡ some r → ⊥
    no_result k = absurd (ground arith)
