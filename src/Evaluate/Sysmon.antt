-- ===== src/Evaluate/Sysmon.antt =====
-- sigmascope/evaluate/sysmon.py
pub mod Filtering
use sigmascope.Base.{Bool, true, false, not, ◌&&◌, List, [], ◌∷◌, ◌++◌, if◌then◌else◌}
use sigmascope.Base.{Option, none, some, Text, lit, ◌==◌, member, any, filter, find, is_empty, map}
use sigmascope.Model.{Gate, GateValue, text_value, int_value, bool_value, Selector}
use sigmascope.Model.{syscall_selector, event_type_selector, Rule, is_include, ParseResult}
use sigmascope.Model.{Determinacy, effective, unknown}
use sigmascope.Model.{Verdict, covered, degraded, not_covered, indeterminate}

-- `_gate`, and the same search in sigmascope/api.py.
unfoldable pub gate_value : List Gate → Text → Option GateValue
gate_value gates key = elim (find (λ g. g.key == key) gates) [ none ↦ none | some g ↦ some g.value ]

-- `value is False`
abbrev pub is_false : Option GateValue → Bool
is_false (some (bool_value false)) = true
is_false _ = false

-- `value == "unknown"`
abbrev pub says_unknown : Option GateValue → Bool
says_unknown (some (text_value s)) = s == lit "unknown"
says_unknown _ = false

abbrev pub summary_events : List Text
summary_events = lit "NetworkConnect" ∷ lit "ImageLoad" ∷ lit "ProcessAccess" ∷ []

-- The value of the event's summary gate; none for an event without one.
unfoldable pub summary_value : ParseResult → Text → Option GateValue
unfolding gate_value
summary_value parsed event_type =
    if member event_type summary_events
    then gate_value parsed.gates (lit "sysmon." ++ (event_type ++ lit ".enabled"))
    else none

abbrev pub selects_event : Text → Selector → Bool
selects_event event_type (event_type_selector e) = e == event_type
selects_event event_type (syscall_selector syscalls scope) = false

unfoldable pub matching_rules : ParseResult → Text → List Rule
matching_rules parsed event_type =
    filter (λ rule. selects_event event_type rule.selector) parsed.rules

abbrev pub has_predicates : Rule → Bool
has_predicates rule = not (is_empty rule.predicates)

-- The verdict on the include and exclude blocks of one event type.
unfoldable pub evaluate_blocks : Text → List Rule → Verdict × Text
evaluate_blocks event_type matching =
    let includes = filter (λ rule. is_include rule.effect) matching in
    let excludes = filter (λ rule. not (is_include rule.effect)) matching in
    if not (is_empty includes)
    then (if not (any has_predicates includes)
        then (
          not_covered,
          lit "Sysmon "
              ++ event_type
              ++ lit " has only empty include blocks; ASSUMED to log no events (V2).",
        )
        else if not (is_empty excludes) && any has_predicates excludes
        then (
          degraded,
          lit "Sysmon "
              ++ event_type
              ++ lit
                  " is restricted by include filters and exclude filters; documented Sysmon semantics give exclude matches precedence.",
        )
        else (
          degraded,
          lit "Sysmon "
              ++ event_type
              ++ lit " is restricted by include filters, so only matching events are generated.",
        ))
    else if not (is_empty excludes) && any has_predicates excludes
    then (
      degraded,
      lit "Sysmon "
          ++ event_type
          ++ lit " is restricted by exclude filters, so matching events are omitted.",
    )
    else (
      covered,
      lit "Sysmon "
          ++ event_type
          ++ lit " has only empty exclude blocks; ASSUMED to log all events (V2).",
    )

abbrev pub is_unparsed : Determinacy → Bool
is_unparsed unknown = true
is_unparsed effective = false

unfoldable pub evaluate_event_type : ParseResult → Text → Verdict × Text
evaluate_event_type parsed event_type =
    let value = summary_value parsed event_type in
    let matching = matching_rules parsed event_type in
    if is_false value
    then (
      not_covered,
      lit "Sysmon effective configuration reports " ++ event_type ++ lit " disabled.",
    )
    else if says_unknown value
    then (
      indeterminate,
      lit "Sysmon effective " ++ event_type ++ lit " gate could not be determined.",
    )
    else if is_unparsed parsed.determinacy
    then (
      indeterminate,
      lit "Sysmon "
          ++ event_type
          ++ lit " configuration is incomplete or could not be parsed safely.",
    )
    else if is_empty matching
    then (
      covered,
      lit "Sysmon "
          ++ event_type
          ++ lit " is absent from EventFiltering; ASSUMED to be logged unfiltered (V1).",
    )
    else evaluate_blocks event_type matching
