-- ===== src/Model.antt =====
-- sigmascope/model.py: the data that collectors, parsers and evaluators exchange.
-- A frozenset is a list that is read through membership and emptiness alone.
use sigmascope.Base.{ℕ, ℤ, Text, lit, int_text, Bool, true, false, List, Option, none, some}
use sigmascope.Base.{◌==◌, if◌then◌else◌, is_empty, [], ◌≡◌, refl}

pub record CollectionError : Type 0 where
  pub source_id : Text
  pub message : Text
  pub resource : Text

pub record Origin : Type 0 where
  pub resource : Text
  pub locator : Text

pub data Determinacy : Type 0 where
  effective unknown : Determinacy

-- `str | int | bool`
pub data GateValue : Type 0 where
  text_value : Text → GateValue
  int_value : ℤ → GateValue
  bool_value : Bool → GateValue

pub record Gate : Type 0 where
  pub key : Text
  pub value : GateValue
  pub origin : Origin

pub data PredicateOp : Type 0 where
  eq ne lt le gt ge bitand bitest contains : PredicateOp

pub record Predicate : Type 0 where
  pub field : Text
  pub op : PredicateOp
  pub value : Text

pub data Effect : Type 0 where
  include exclude : Effect

pub data Selector : Type 0 where
  syscall_selector : List Text → Text → Selector
  event_type_selector : Text → Selector

pub record Rule : Type 0 where
  pub effect : Effect
  pub selector : Selector
  pub predicates : List Predicate
  pub order : ℕ
  pub origin : Origin
  pub raw : Text

pub data Severity : Type 0 where
  warn error : Severity

pub record Diagnostic : Type 0 where
  pub severity : Severity
  pub message : Text
  pub origin : Origin
  pub raw : Text

pub record ParseResult : Type 0 where
  pub determinacy : Determinacy
  pub gates : List Gate
  pub rules : List Rule
  pub diagnostics : List Diagnostic

pub data Verdict : Type 0 where
  covered degraded not_covered indeterminate : Verdict

-- `Verdict.satisfied`
abbrev pub satisfied : Verdict → Bool
satisfied covered = true
satisfied _ = false

-- `Verdict.value`
unfoldable pub verdict_value : Verdict → Text
verdict_value covered = lit "covered"
verdict_value degraded = lit "degraded"
verdict_value not_covered = lit "not_covered"
verdict_value indeterminate = lit "indeterminate"

-- `Verdict(value)`; `none` is its ValueError.
unfoldable pub verdict_of : Text → Option Verdict
verdict_of s =
    if s == lit "covered"
    then some covered
    else if s == lit "degraded"
    then some degraded
    else if s == lit "not_covered"
    then some not_covered
    else if s == lit "indeterminate"
    then some indeterminate
    else none

-- `ParseResult("unknown")`
abbrev pub unparsed : ParseResult
unparsed = record { determinacy = unknown; gates = []; rules = []; diagnostics = [] }

-- `"unknown" if diagnostics else "effective"`
abbrev pub determinacy_of : List Diagnostic → Determinacy
determinacy_of diagnostics = if is_empty diagnostics then effective else unknown

-- `isinstance(rule.selector, SyscallSelector) and rule.selector.scope == scope`
unfoldable pub has_scope : Text → Selector → Bool
has_scope scope (syscall_selector syscalls s) = s == scope
has_scope scope (event_type_selector e) = false

abbrev pub is_include : Effect → Bool
is_include include = true
is_include exclude = false

-- `str(value)` of a gate's value.
unfoldable pub gate_text : GateValue → Text
gate_text (text_value s) = s
gate_text (int_value n) = int_text n
gate_text (bool_value true) = lit "True"
gate_text (bool_value false) = lit "False"

-- The text of a verdict is read back as that verdict.
pub verdict_of-verdict_value : (v : Verdict) → verdict_of (verdict_value v) ≡ some v
unfolding verdict_of verdict_value lit ◌==◌
verdict_of-verdict_value covered = refl
verdict_of-verdict_value degraded = refl
verdict_of-verdict_value not_covered = refl
verdict_of-verdict_value indeterminate = refl
