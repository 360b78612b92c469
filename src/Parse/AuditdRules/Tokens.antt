-- ===== src/Parse/AuditdRules/Tokens.antt =====
-- sigmascope/parse/auditd_rules.py: `split_options` and `_filter`, with the two patterns read by
-- hand. Lines come from `splitlines`, so they hold no line break.
use sigmascope.Base.{ℕ, Bool, true, false, not, ◌&&◌, ◌||◌, List, [], ◌∷◌, ◌++◌, if◌then◌else◌}
use sigmascope.Base.{Option, none, some, Text, lit, ◌==◌, member, has_char, is_space, drop_space}
use sigmascope.Base.{is_empty, within, ascii_lower, nat_beq}
use sigmascope.Model.{Predicate, PredicateOp, eq, ne, lt, le, gt, ge, bitand, bitest}

abbrev pub is_letter : ℕ → Bool
is_letter c = within b'A' b'Z' c || within b'a' b'z' c

abbrev pub ends_option : Text → Bool
ends_option [] = true
ends_option (c ∷ s) = is_space c

-- `-[A-Za-z](?=\s|$)` at the start of the text.
unfoldable pub is_option : Text → Bool
is_option (c ∷ d ∷ s) = nat_beq c b'-' && is_letter d && ends_option s
is_option _ = false

-- A walk over the line: whether the last character was white space or none, and the piece that
-- is open. The first piece starts with the line, and the others at an option boundary.
unfoldable pub split_from : Bool → Text → Text → List Text
split_from boundary piece [] = piece ∷ []
split_from boundary piece (c ∷ s) =
    let longer = split_from (is_space c) (piece ++ c ∷ []) s in
    let next = piece ∷ split_from (is_space c) (c ∷ []) s in
    if boundary && is_option (c ∷ s) && not (is_empty piece) then next else longer

unfoldable pub split_options : Text → List Text
unfolding split_from is_option
split_options line = split_from true [] line

abbrev pub is_word : ℕ → Bool
is_word c = is_letter c || within b'0' b'9' c || nat_beq c b'_'

-- `[A-Za-z0-9_]*`, as long as it goes, and what follows it.
unfoldable pub take_word : Text → Text × Text
take_word [] = ([], [])
take_word (c ∷ s) =
    let (word, rest) = take_word s in if is_word c then (c ∷ word, rest) else ([], c ∷ s)

abbrev pub with_equals : PredicateOp → PredicateOp → Text → PredicateOp × Text
with_equals long short [] = (short, [])
with_equals long short (c ∷ s) = if nat_beq c b'=' then (long, s) else (short, c ∷ s)

abbrev pub only_equals : PredicateOp → Text → Option (PredicateOp × Text)
only_equals op [] = none
only_equals op (c ∷ s) = if nat_beq c b'=' then some (op, s) else none

-- The operator at the start of the text, by `_OPS`, and what follows it.
unfoldable pub take_op : Text → Option (PredicateOp × Text)
take_op [] = none
take_op (c ∷ s) =
    if nat_beq c b'='
    then some (eq, s)
    else if nat_beq c b'!'
    then only_equals ne s
    else if nat_beq c b'<'
    then some (with_equals le lt s)
    else if nat_beq c b'>'
    then some (with_equals ge gt s)
    else if nat_beq c b'&'
    then some (with_equals bitest bitand s)
    else none

abbrev pub starts_word : Text → Bool
starts_word [] = false
starts_word (c ∷ s) = is_letter c || nat_beq c b'_'

abbrev pub unset_values : List Text
unset_values = lit "-1" ∷ lit "4294967295" ∷ []

unfoldable pub make_predicate : Text → PredicateOp → Text → Predicate
make_predicate field op value = record {
  field = field;
  op = op;
  value = if field == lit "auid" && member value unset_values then lit "unset" else value;
}

-- `.` matches no line feed.
abbrev pub finish_filter : Text → Option (PredicateOp × Text) → Option Predicate
finish_filter field none = none
finish_filter field (some (op, rest)) =
    let value = drop_space rest in
    if has_char b'\n' value then none else some (make_predicate (ascii_lower field) op value)

-- `_filter`
unfoldable pub filter_expression : Text → Option Predicate
unfolding take_word take_op make_predicate
filter_expression raw =
    let (field, rest) = take_word raw in
    if starts_word raw then finish_filter field (take_op (drop_space rest)) else none
