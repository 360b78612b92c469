-- ===== src/Parse/SysmonCurrent.antt =====
-- sigmascope/parse/sysmon_current.py
pub mod Patterns
pub mod Blocks
use sigmascope.Base.{ℕ, Bool, true, false, not, ◌||◌, List, [], ◌∷◌, ◌++◌, if◌then◌else◌, ◌+◌}
use sigmascope.Base.{
  Option, none, some, Text, lit, ◌==◌, strip, splitlines, nat_text, is_empty, join,
}
use sigmascope.Base.{length, Python, member}
use sigmascope.Model.{Origin, Gate, bool_value, Predicate, contains, Effect, include, exclude}
use sigmascope.Model.{event_type_selector, Rule, Diagnostic, warn, ParseResult, determinacy_of}
use Patterns.{
  match_summary, match_header, is_rule_version, match_filter, contains_text, underscored,
}

-- The block that is open: the event, the effect and the origin are set together.
pub record Block : Type 0 where
  pub event : Text
  pub effect : Effect
  pub origin : Origin
  pub raw : List Text
  pub predicates : List Predicate

-- The local variables of `parse_sysmon_current`.
pub record State : Type 0 where
  pub gates : List Gate
  pub rules : List Rule
  pub diagnostics : List Diagnostic
  pub in_rules : Bool
  pub block : Option Block

abbrev pub initial : State
initial = record { gates = []; rules = []; diagnostics = []; in_rules = false; block = none }

abbrev pub close_block : Option Block → List Rule → List Rule
close_block none rules = rules
close_block (some b) rules =
    rules
    ++ record {
      effect = b.effect;
      selector = event_type_selector b.event;
      predicates = b.predicates;
      order = length rules + 1;
      origin = b.origin;
      raw = join (lit "\n") b.raw;
    }
      ∷ []

-- `finish`
unfoldable pub finish : State → State
finish state = record state { rules = close_block state.block state.rules; block = none }

abbrev pub complain : Text → Text → Origin → State → State
complain message line origin state = record state {
  diagnostics =
      state.diagnostics
      ++ record { severity = warn; message = message; origin = origin; raw = line } ∷ [];
}

abbrev pub no_rules : Text
no_rules = lit "no rules installed"

-- `Effect(text)`; `none` is its ValueError.
unfoldable pub effect_of : Text → Option Effect
effect_of text =
    if text == lit "include"
    then some include
    else if text == lit "exclude"
    then some exclude
    else none

module _ (py : Python) where
  abbrev pub add_summary : Option (Text × Text) → Text → Origin → State → State
  add_summary none line origin state = state
  add_summary (some (key, text)) line origin state =
      let value = py.lower (strip text) in
      if not (py.lower key == lit "network connection")
      then state
      else if member value (lit "enabled" ∷ lit "disabled" ∷ [])
      then record state {
        gates =
            state.gates
            ++ record {
              key = lit "sysmon.NetworkConnect.enabled";
              value = bool_value (value == lit "enabled");
              origin = origin;
            }
              ∷ [];
      }
      else complain (lit "unrecognised Sysmon network-connection state") line origin state

  -- A line in front of the rules.
  unfoldable pub read_summary : Text → Origin → State → State
  read_summary line origin state =
      let next = add_summary (match_summary line) line origin state in
      if py.lower (strip line) == no_rules then record next { in_rules = true } else next

  abbrev pub add_predicate : Predicate → Text → Block → Block
  add_predicate predicate line b = record b {
    raw = b.raw ++ line ∷ [];
    predicates = b.predicates ++ predicate ∷ [];
  }

  -- A line of an open block.
  abbrev pub read_in_block : Option (Text × Text) → Block → Text → Origin → State → State
  read_in_block (some (field, value)) b line origin state =
      let predicate : Predicate = record {
        field = underscored (py.lower field);
        op = contains;
        value = value;
      } in
      record state { block = some (add_predicate predicate line b) }
  read_in_block none b line origin state =
      let predicate : Predicate = record {
        field = lit "compound_rule";
        op = contains;
        value = strip line;
      } in
      if contains_text (lit "compound rule") (py.lower line)
      then record state { block = some (add_predicate predicate line b) }
      else complain (lit "unrecognised sysmon -c rule syntax") line origin
          (record state { block = some (record b { raw = b.raw ++ line ∷ [] }) })

  abbrev pub read_content : Option Block → Text → Origin → State → State
  read_content none line origin state =
      complain (lit "unrecognised sysmon -c rule configuration line") line origin state
  read_content (some b) line origin state = read_in_block (match_filter py line) b line origin state

  abbrev pub open_block : Text → Option Effect → Text → Origin → State → Option State
  open_block event none line origin state = none
  open_block event (some effect) line origin state =
      let closed = finish state in
      some (record closed {
        block = some (record {
          event = event;
          effect = effect;
          origin = origin;
          raw = line ∷ [];
          predicates = [];
        });
      })

  -- A line of the rules; `none` is a ValueError.
  abbrev pub read_rule_line : Option (Text × Text) → Text → Origin → State → Option State
  read_rule_line (some (event, effect)) line origin state =
      open_block event (effect_of (py.lower effect)) line origin state
  read_rule_line none line origin state =
      if is_empty (strip line) || py.lower (strip line) == no_rules
      then some state
      else some (read_content state.block line origin state)

  -- The body of the loop.
  unfoldable pub read_line : Text → Origin → State → Option State
  unfolding finish read_summary effect_of
  read_line line origin state =
      if is_rule_version py line
      then (let closed = finish state in some (record closed { in_rules = true }))
      else if not state.in_rules
      then some (read_summary line origin state)
      else read_rule_line (match_header py line) line origin state

  module _ (source_id : Text) where
    unfoldable pub read_lines : List Text → ℕ → State → Option State
    unfolding read_line
    read_lines [] n state = some state
    read_lines (line ∷ rest) n state =
        let origin : Origin = record {
          resource = source_id;
          locator = lit "line " ++ nat_text n;
        } in
        elim (read_line line origin state) [
          | none ↦ none
          | some next ↦ read_lines rest (n + 1) next
        ]

    abbrev pub result_of : State → ParseResult
    result_of state =
        let closed = finish state in
        record {
          determinacy = determinacy_of closed.diagnostics;
          gates = closed.gates;
          rules = closed.rules;
          diagnostics = closed.diagnostics;
        }

    -- `none` is a ValueError.
    unfoldable pub parse_sysmon_current : Text → Option ParseResult
    unfolding read_lines
    parse_sysmon_current text = elim (read_lines (splitlines text) 1 initial) [
      | none ↦ none
      | some state ↦ some (result_of state)
    ]
