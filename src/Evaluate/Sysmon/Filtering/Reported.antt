-- ===== src/Evaluate/Sysmon/Filtering/Reported.antt =====
-- The gate and the blocks of an event type in what `sysmon -c` reports, and
-- sigmascope/evaluate/sysmon.py, which looks for them.
use sigmascope.Base.{Bool, true, false, List, [], ◌∷◌, ◌≡◌, refl, arith}
use sigmascope.Base.{Text, lit, ◌==◌, member, find, filter, Option, none, some}
use sigmascope.Base.{◌++◌, if◌then◌else◌, ap, ◌∙◌, sym, inl, inr, Bool-cases, eq_of_==, eq_iff}
use sigmascope.Model.{Gate, GateValue, Selector, syscall_selector, event_type_selector}
use sigmascope.Evaluate.Sysmon.{summary_events, gate_value, selects_event}
use sigmascope.Model.{Rule, ParseResult}
use sigmascope.Evaluate.Sysmon.{summary_value}
use sigmascope.Evaluate.Sysmon.{matching_rules}

-- The gate that `sysmon -c` reports for an event type, where its summary has one.
abbrev pub gate_key : Text → Option Text
gate_key event_type =
    if event_type == lit "NetworkConnect"
    then some (lit "sysmon.NetworkConnect.enabled")
    else if event_type == lit "ImageLoad"
    then some (lit "sysmon.ImageLoad.enabled")
    else if event_type == lit "ProcessAccess"
    then some (lit "sysmon.ProcessAccess.enabled")
    else none

unfoldable pub gate_at : Text → List Gate → Option GateValue
gate_at key [] = none
gate_at key (gate ∷ rest) =
    let later = gate_at key rest in if gate.key == key then some gate.value else later

abbrev pub gate_under : List Gate → Option Text → Option GateValue
gate_under gates none = none
gate_under gates (some key) = gate_at key gates

unfoldable pub reported_gate : ParseResult → Text → Option GateValue
reported_gate parsed event_type = gate_under parsed.gates (gate_key event_type)

-- The blocks for an event type, in their order.
abbrev pub is_block_for : Text → Selector → Bool
is_block_for event_type (event_type_selector e) = event_type == e
is_block_for event_type (syscall_selector syscalls scope) = false

unfoldable pub blocks_of : Text → List Rule → List Rule
blocks_of event_type [] = []
blocks_of event_type (rule ∷ rest) =
    let later = blocks_of event_type rest in
    if is_block_for event_type rule.selector then rule ∷ later else later

gate_value-gate_at : (key : Text) (gates : List Gate) → gate_value gates key ≡ gate_at key gates
unfolding gate_value gate_at find
gate_value-gate_at key [] = refl
gate_value-gate_at key (gate ∷ rest) = ground (arith, gate_value-gate_at key rest)

-- The table of the keys is what the program writes together.
written_key : Text → Option Text
written_key event_type =
    if member event_type summary_events
    then some (lit "sysmon." ++ (event_type ++ lit ".enabled"))
    else none

written_key-gate_key :
    (name : Text)
    → written_key name ≡ gate_key name
    → (event_type : Text) → (event_type == name) ≡ true
    → written_key event_type ≡ gate_key event_type
written_key-gate_key name known event_type e =
    let same : event_type ≡ name = eq_of_== e in
    ap written_key same ∙ known ∙ ap gate_key (sym same)

summary_key : (event_type : Text) → written_key event_type ≡ gate_key event_type
unfolding written_key
summary_key event_type = elim (Bool-cases (event_type == lit "NetworkConnect")) [
  | inl e ↦ written_key-gate_key (lit "NetworkConnect") (unfold lit ◌==◌ in refl) event_type e
  | inr no_network ↦ elim (Bool-cases (event_type == lit "ImageLoad")) [
    | inl e ↦ written_key-gate_key (lit "ImageLoad") (unfold lit ◌==◌ in refl) event_type e
    | inr no_image ↦ elim (Bool-cases (event_type == lit "ProcessAccess")) [
      | inl e ↦ written_key-gate_key (lit "ProcessAccess") (unfold lit ◌==◌ in refl) event_type e
      | inr no_process ↦ ground (
        arith,
        eq_iff (lit "NetworkConnect") event_type,
        eq_iff (lit "ImageLoad") event_type,
        eq_iff (lit "ProcessAccess") event_type,
        eq_iff event_type (lit "NetworkConnect"),
        eq_iff event_type (lit "ImageLoad"),
        eq_iff event_type (lit "ProcessAccess"),
      )
    ]
  ]
]

summary_value-gate_under :
    (parsed : ParseResult) (event_type : Text)
    → summary_value parsed event_type ≡ gate_under parsed.gates (written_key event_type)
unfolding summary_value written_key
summary_value-gate_under parsed event_type = elim (Bool-cases (member event_type summary_events)) [
  | inl e ↦ rw (e, gate_value-gate_at) refl
  | inr e ↦ rw e refl
]

pub summary_value-reported_gate :
    (parsed : ParseResult) (event_type : Text)
    → summary_value parsed event_type ≡ reported_gate parsed event_type
unfolding reported_gate
summary_value-reported_gate parsed event_type =
    summary_value-gate_under parsed event_type
    ∙ ap (gate_under parsed.gates) (summary_key event_type)

selects_event-is_block_for :
    (event_type : Text) (selector : Selector)
    → selects_event event_type selector ≡ is_block_for event_type selector
selects_event-is_block_for event_type (event_type_selector e) =
    ground (arith, eq_iff event_type e, eq_iff e event_type)
selects_event-is_block_for event_type (syscall_selector syscalls scope) = refl

matching-blocks_of :
    (event_type : Text) (rules : List Rule)
    → filter (λ rule. selects_event event_type rule.selector) rules ≡ blocks_of event_type rules
unfolding filter blocks_of
matching-blocks_of event_type [] = refl
matching-blocks_of event_type (rule ∷ rest) =
    ground (
      arith,
      selects_event-is_block_for event_type rule.selector,
      matching-blocks_of event_type rest,
    )

pub matching_rules-blocks_of :
    (parsed : ParseResult) (event_type : Text)
    → matching_rules parsed event_type ≡ blocks_of event_type parsed.rules
unfolding matching_rules
matching_rules-blocks_of parsed event_type = matching-blocks_of event_type parsed.rules
