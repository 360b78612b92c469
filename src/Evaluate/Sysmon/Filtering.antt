-- ===== src/Evaluate/Sysmon/Filtering.antt =====
-- sigmascope/evaluate/sysmon.py against Sysmon's filtering: an event is logged if an include
-- block matches it, or there is none, and no exclude block does. A block without filters
-- matches no event (V2), and an event type without blocks is logged (V1). Which events a block
-- with filters matches is unknown to the program, and is the argument `matches` here.
pub mod Reported
use sigmascope.Base.{Bool, true, false, not, ◌&&◌, ◌||◌, List, [], ◌∷◌, ◌≡◌, refl, arith}
use sigmascope.Base.{Text, lit, ◌==◌, member, any, find, filter, is_empty, Option, none, some}
use sigmascope.Base.{◌++◌, if◌then◌else◌, ap, ◌∙◌, sym, inl, inr, Bool-cases, eq_of_==, eq_iff}
use sigmascope.Evaluate.Sysmon.Filtering.Reported.{
  reported_gate, blocks_of, summary_value-reported_gate, matching_rules-blocks_of,
}
use sigmascope.Model.{Gate, GateValue, Selector, syscall_selector, event_type_selector}
use sigmascope.Evaluate.Sysmon.{summary_events, gate_value, selects_event}
use sigmascope.Base.{◌↔◌, ◌⊎◌, ◌≢◌}
use sigmascope.Model.{Rule, is_include, ParseResult, unknown}
use sigmascope.Model.{Verdict, covered, degraded, not_covered, indeterminate}
use sigmascope.Evaluate.Sysmon.{has_predicates, summary_value, is_false, says_unknown}
use sigmascope.Evaluate.Sysmon.{matching_rules, evaluate_blocks, evaluate_event_type, is_unparsed}

abbrev pub includes : List Rule → List Rule
includes = filter (λ rule. is_include rule.effect)

abbrev pub excludes : List Rule → List Rule
excludes = filter (λ rule. not (is_include rule.effect))

module _ (matches : Rule → Bool) where
  abbrev pub takes : Rule → Bool
  takes rule = has_predicates rule && matches rule

  unfoldable pub passes_blocks : List Rule → Bool
  passes_blocks rules =
      (is_empty (includes rules) || any takes (includes rules)) && not (any takes (excludes rules))

  unfoldable pub is_logged : ParseResult → Text → Bool
  is_logged parsed event_type =
      not (is_false (reported_gate parsed event_type))
      && passes_blocks (blocks_of event_type parsed.rules)

-- What a verdict says of the events: all are logged, none is, or some are and some are not.
abbrev pub Promise : ((Rule → Bool) → Bool) → Verdict → Type 0
Promise logged covered = (matches : Rule → Bool) → logged matches ≡ true
Promise logged not_covered = (matches : Rule → Bool) → logged matches ≡ false
Promise logged degraded =
    ((matches : Rule → Bool) × (logged matches ≡ true))
    × ((matches : Rule → Bool) × (logged matches ≡ false))
Promise logged indeterminate = Unit

-- No block takes an event if none has filters.
takes_none :
    (matches : Rule → Bool) (rules : List Rule)
    → any has_predicates rules ≡ false
    → any (takes matches) rules ≡ false
unfolding any
takes_none matches [] h = refl
takes_none matches (rule ∷ rest) h = ground (arith, takes_none matches rest)

-- The two extreme ways in which the blocks can match.
abbrev only_includes : Rule → Bool
only_includes rule = is_include rule.effect

abbrev only_excludes : Rule → Bool
only_excludes rule = not (is_include rule.effect)

includes_take :
    (rules : List Rule)
    → any (takes only_includes) (includes rules) ≡ any has_predicates (includes rules)
unfolding any filter
includes_take [] = refl
includes_take (rule ∷ rest) = ground (arith, includes_take rest)

includes_spared : (rules : List Rule) → any (takes only_excludes) (includes rules) ≡ false
unfolding any filter
includes_spared [] = refl
includes_spared (rule ∷ rest) = ground (arith, includes_spared rest)

excludes_take :
    (rules : List Rule)
    → any (takes only_excludes) (excludes rules) ≡ any has_predicates (excludes rules)
unfolding any filter
excludes_take [] = refl
excludes_take (rule ∷ rest) = ground (arith, excludes_take rest)

excludes_spared : (rules : List Rule) → any (takes only_includes) (excludes rules) ≡ false
unfolding any filter
excludes_spared [] = refl
excludes_spared (rule ∷ rest) = ground (arith, excludes_spared rest)

nonempty_any :
    (rules : List Rule)
    → (not (is_empty rules) && any has_predicates rules) ≡ any has_predicates rules
unfolding any
nonempty_any [] = refl
nonempty_any (rule ∷ rest) = refl

-- The verdict by three tests: no include block, an include block with filters, and an exclude
-- block with filters.
abbrev verdict_of_blocks : Bool → Bool → Bool → Verdict
verdict_of_blocks true some_include true = degraded
verdict_of_blocks true some_include false = covered
verdict_of_blocks false true some_exclude = degraded
verdict_of_blocks false false some_exclude = not_covered

evaluate_blocks-verdict_of_blocks :
    (event_type : Text) (rules : List Rule)
    → (evaluate_blocks event_type rules).0
      ≡ verdict_of_blocks
          (is_empty (includes rules))
          (any has_predicates (includes rules))
          (any has_predicates (excludes rules))
unfolding evaluate_blocks
evaluate_blocks-verdict_of_blocks event_type rules = ground (arith, nonempty_any (excludes rules))

verdict_of_blocks-Promise :
    (rules : List Rule) (no_include some_include some_exclude : Bool)
    → is_empty (includes rules) ≡ no_include
    → any has_predicates (includes rules) ≡ some_include
    → any has_predicates (excludes rules) ≡ some_exclude
    → Promise
        (λ matches. passes_blocks matches rules)
        (verdict_of_blocks no_include some_include some_exclude)
unfolding passes_blocks
verdict_of_blocks-Promise rules true some_include true i s e = (
  (only_includes, ground (arith, excludes_spared rules)),
  (only_excludes, ground (arith, excludes_take rules)),
)
verdict_of_blocks-Promise rules true some_include false i s e =
    λ matches. ground (arith, takes_none matches (excludes rules))
verdict_of_blocks-Promise rules false true some_exclude i s e = (
  (only_includes, ground (arith, includes_take rules, excludes_spared rules)),
  (only_excludes, ground (arith, includes_spared rules)),
)
verdict_of_blocks-Promise rules false false some_exclude i s e =
    λ matches. ground (arith, takes_none matches (includes rules))

evaluate_blocks-Promise :
    (event_type : Text) (rules : List Rule)
    → Promise (λ matches. passes_blocks matches rules) (evaluate_blocks event_type rules).0
evaluate_blocks-Promise event_type rules =
    rw evaluate_blocks-verdict_of_blocks (verdict_of_blocks-Promise rules _ _ _ refl refl refl)

no_blocks :
    (matches : Rule → Bool) (rules : List Rule)
    → is_empty rules ≡ true
    → passes_blocks matches rules ≡ true
unfolding passes_blocks filter any
no_blocks matches [] h = refl
no_blocks matches (rule ∷ rest) h = absurd (ground arith)

-- A gate that is open leaves the decision to the blocks.
open_gate-Promise :
    (parsed : ParseResult) (event_type : Text) (v : Verdict)
    → is_false (reported_gate parsed event_type) ≡ false
    → Promise (λ matches. passes_blocks matches (blocks_of event_type parsed.rules)) v
    → Promise (λ matches. is_logged matches parsed event_type) v
unfolding is_logged
open_gate-Promise parsed event_type covered g h = λ m. ground (arith, h m)
open_gate-Promise parsed event_type not_covered g h = λ m. ground (arith, h m)
open_gate-Promise parsed event_type degraded g h = ((h.0.0, ground arith), (h.1.0, ground arith))
open_gate-Promise parsed event_type indeterminate g h = tt

shut_gate :
    (parsed : ParseResult) (event_type : Text)
    → is_false (reported_gate parsed event_type) ≡ true
    → (matches : Rule → Bool) → is_logged matches parsed event_type ≡ false
unfolding is_logged
shut_gate parsed event_type shut matches = rw shut refl

-- The verdict by the tests in front of the blocks.
abbrev verdict_of_event : Bool → Bool → Bool → Bool → Verdict → Verdict
verdict_of_event true says_unknown unparsed absent v = not_covered
verdict_of_event false true unparsed absent v = indeterminate
verdict_of_event false false true absent v = indeterminate
verdict_of_event false false false true v = covered
verdict_of_event false false false false v = v

module _ (parsed : ParseResult) (event_type : Text) where
  verdict_of_event_lem :
      (evaluate_event_type parsed event_type).0
      ≡ verdict_of_event
          (is_false (reported_gate parsed event_type))
          (says_unknown (reported_gate parsed event_type))
          (is_unparsed parsed.determinacy)
          (is_empty (blocks_of event_type parsed.rules))
          (evaluate_blocks event_type (blocks_of event_type parsed.rules)).0
  unfolding evaluate_event_type
  verdict_of_event_lem = ground (
    arith,
    summary_value-reported_gate parsed event_type,
    matching_rules-blocks_of parsed event_type,
  )

  verdict_of_event-Promise :
      (shut says_unknown unparsed absent : Bool)
      → is_false (reported_gate parsed event_type) ≡ shut
      → is_empty (blocks_of event_type parsed.rules) ≡ absent
      → Promise
          (λ matches. is_logged matches parsed event_type)
          (verdict_of_event shut says_unknown unparsed absent
            (evaluate_blocks event_type (blocks_of event_type parsed.rules)).0)
  verdict_of_event-Promise true _ _ _ g e = shut_gate parsed event_type g
  verdict_of_event-Promise false true _ _ g e = tt
  verdict_of_event-Promise false false true _ g e = tt
  verdict_of_event-Promise false false false true g e =
      open_gate-Promise parsed event_type covered g (λ m. no_blocks m _ e)
  verdict_of_event-Promise false false false false g e =
      open_gate-Promise parsed event_type _ g (evaluate_blocks-Promise event_type _)

  -- For every configuration and event type: COVERED means that every event of the type is
  -- logged whatever the filters match, NOT_COVERED that none is, and DEGRADED that with some filters
  -- it is logged and with others it is not. INDETERMINATE promises nothing.
  pub evaluate_event_type-Promise :
      Promise
        (λ matches. is_logged matches parsed event_type)
        (evaluate_event_type parsed event_type).0
  evaluate_event_type-Promise = rw verdict_of_event_lem (verdict_of_event-Promise _ _ _ _ refl refl)

evaluate_blocks-ne-indeterminate :
    (event_type : Text) (rules : List Rule) → (evaluate_blocks event_type rules).0 ≢ indeterminate
unfolding evaluate_blocks
evaluate_blocks-ne-indeterminate event_type rules = ground arith

-- The verdict is INDETERMINATE exactly when the event's gate is not off and either the gate or
-- the whole configuration is unknown: a known gate that is off wins over a parser gap.
pub evaluate_event_type-eq-indeterminate :
    (parsed : ParseResult) (event_type : Text)
    → ((evaluate_event_type parsed event_type).0 ≡ indeterminate) ↔ (
        (is_false (reported_gate parsed event_type) ≡ false)
        × ((says_unknown (reported_gate parsed event_type) ≡ true)
            ⊎ (parsed.determinacy ≡ unknown)))
unfolding evaluate_event_type
evaluate_event_type-eq-indeterminate parsed event_type = ground (
  arith,
  summary_value-reported_gate parsed event_type,
  evaluate_blocks-ne-indeterminate event_type (matching_rules parsed event_type),
)
