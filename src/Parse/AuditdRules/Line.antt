-- ===== src/Parse/AuditdRules/Line.antt =====
-- sigmascope/parse/auditd_rules.py: `_parse_rule`.
use sigmascope.Base.{ℕ, not, ◌||◌, List, [], ◌∷◌, ◌++◌, if◌then◌else◌}
use sigmascope.Base.{Option, none, some, Text, lit, ◌==◌, strip, partition, split}
use sigmascope.Base.{is_empty, filter, map, Python}
use sigmascope.Model.{Origin, Predicate, eq, Effect, include, exclude, Rule, syscall_selector}
use sigmascope.Model.{Diagnostic, warn}
use sigmascope.Parse.AuditdRules.Tokens.{filter_expression}

-- The local variables of the loop over the tokens.
pub record State : Type 0 where
  pub effect : Option Effect
  pub scope : Text
  pub syscalls : List Text
  pub predicates : List Predicate
  pub watch_path : Option Text
  pub watch_perms : Option Text
  pub diagnostics : List Diagnostic

abbrev pub initial : State
initial = record {
  effect = none;
  scope = lit "exit";
  syscalls = [];
  predicates = [];
  watch_path = none;
  watch_perms = none;
  diagnostics = [];
}

-- `_ACTIONS.get(word)`
unfoldable pub action : Text → Option Effect
action word =
    if word == lit "always"
    then some include
    else if word == lit "never"
    then some exclude
    else none

module _ (py : Python) (origin : Origin) where
  abbrev pub report : Text → Text → State → State
  report message raw state = record state {
    diagnostics =
        state.diagnostics
        ++ record { severity = warn; message = message; origin = origin; raw = raw } ∷ [];
  }

  -- The action and the list, in either order; exactly one of the two words is an action.
  abbrev pub choose_action :
      Option Effect → Option Effect → Text → Text → Text → Text → State → State
  choose_action (some effect) none first second value token state = record state {
    effect = some effect;
    scope = second;
  }
  choose_action none (some effect) first second value token state = record state {
    effect = some effect;
    scope = first;
  }
  choose_action _ _ first second value token state =
      report (lit "unrecognised audit action in " ++ py.repr value) token state

  unfoldable pub read_action : Text → Text → Text → State → State
  unfolding action
  read_action option value token state =
      let (before, found, after) = partition b',' value in
      let first = py.lower (strip before) in
      let second = py.lower (strip after) in
      if not found
      then report (lit "invalid " ++ option ++ lit " value " ++ py.repr value) token state
      else choose_action (action first) (action second) first second value token state

  abbrev pub read_filter : Option Predicate → Text → Text → State → State
  read_filter none value token state =
      report (lit "unrecognised -F expression " ++ py.repr value) token state
  read_filter (some predicate) value token state = record state {
    predicates = state.predicates ++ predicate ∷ [];
  }

  abbrev pub named_syscalls : Text → List Text
  named_syscalls value = filter (λ s. not (is_empty s)) (map strip (split b',' value))

  -- The branches on the option of one token.
  unfoldable pub read_option : Text → Text → Text → State → State
  unfolding read_action
  read_option option value token state =
      if option == lit "-a" || option == lit "-A"
      then read_action option value token state
      else if option == lit "-S"
      then record state { syscalls = state.syscalls ++ named_syscalls value }
      else if option == lit "-F"
      then read_filter (filter_expression value) value token state
      else if option == lit "-w"
      then record state { watch_path = some value }
      else if option == lit "-p"
      then record state { watch_perms = some value }
      else if option == lit "-k"
      then record state {
        predicates = state.predicates ++ record { field = lit "key"; op = eq; value = value } ∷ [];
      }
      else report (lit "unrecognised audit option " ++ option) token state

  unfoldable pub read_token : Text → State → State
  unfolding read_option
  read_token token state =
      let (option, _, value) = partition b' ' token in read_option option (strip value) token state

  unfoldable pub read_tokens : List Text → State → State
  unfolding read_token
  read_tokens [] state = state
  read_tokens (token ∷ rest) state = read_tokens rest (read_token token state)

  abbrev pub perm_predicate : Option Text → List Predicate
  perm_predicate none = []
  perm_predicate (some perms) = record { field = lit "perm"; op = eq; value = perms } ∷ []

  -- What follows the loop: a watch becomes predicates in front of the others.
  unfoldable pub close_watch : Text → Option Text → Option Text → State → State
  close_watch raw_line (some path) perms state = record state {
    effect = some include;
    predicates =
        record { field = lit "path"; op = eq; value = path }
        ∷ (perm_predicate perms ++ state.predicates);
  }
  close_watch raw_line none (some perms) state = report (lit "-p without -w") raw_line state
  close_watch raw_line none none state = state

  abbrev pub make_rule : Option Effect → Text → ℕ → State → Option Rule × List Diagnostic
  make_rule none raw_line order state =
      (none, (report (lit "rule has no recognised action or watch") raw_line state).diagnostics)
  make_rule (some effect) raw_line order state = (
    some (record {
      effect = effect;
      selector = syscall_selector state.syscalls state.scope;
      predicates = state.predicates;
      order = order;
      origin = origin;
      raw = raw_line;
    }),
    state.diagnostics,
  )

-- `_parse_rule`
unfoldable pub parse_rule : Python → Text → List Text → ℕ → Origin → Option Rule × List Diagnostic
unfolding read_tokens close_watch
parse_rule py raw_line tokens order origin =
    let read = read_tokens py origin tokens initial in
    let state = close_watch py origin raw_line read.watch_path read.watch_perms read in
    make_rule py origin state.effect raw_line order state
