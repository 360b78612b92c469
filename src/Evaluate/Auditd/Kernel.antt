-- ===== src/Evaluate/Auditd/Kernel.antt =====
-- What the kernel does with the rules, as the docstring of sigmascope/evaluate/auditd.py and
-- the manual pages that sigmascope/catalog.py cites describe it: the task and the exit list go
-- by their first matching rule, and any matching rule of the exclude list drops the event. A
-- process event has an architecture and a system call; whether the other fields of a rule match
-- is unknown to the program, and is the argument `holds` here.
pub mod Laws
pub mod Lists
use sigmascope.Base.{
  Bool, true, false, not, ◌&&◌, ◌||◌, any, leb, List, [], ◌∷◌, if◌then◌else◌, Option,
}
use sigmascope.Base.{none, some, Text, lit, ◌==◌, member, all, is_empty, ◌≡◌, ◌≤◌, ◌<◌, length}
use sigmascope.Model.{Predicate, PredicateOp, eq, ne, Effect, include, exclude, Selector}
use sigmascope.Model.{syscall_selector, event_type_selector, Rule, has_scope}
use sigmascope.Evaluate.Auditd.Rules.{predicate}

abbrev pub All {ℓ κ} : {A : Type ℓ} → (A → Type κ) → List A → Type κ
All P [] = Unit
All P (x ∷ xs) = P x × All P xs

-- The rules stand in the order of their numbers.
abbrev pub IsOrdered : List Rule → Type 0
IsOrdered [] = Unit
IsOrdered (rule ∷ rest) = All (λ later. rule.order < later.order) rest × IsOrdered rest

-- A rule names at most one architecture.
abbrev pub HasOneArch : Rule → Type 0
HasOneArch rule = length (predicate rule (lit "arch")) ≤ 1

module _ (holds : Predicate → Bool) where
  abbrev pub arch_holds : PredicateOp → Bool → Bool → Bool
  arch_holds eq same other = same
  arch_holds ne same other = not same
  arch_holds _ same other = other

  unfoldable pub predicate_holds : Text → Predicate → Bool
  predicate_holds arch p =
      if p.field == lit "arch"
      then arch_holds p.op (p.value == arch) (holds p)
      else p.field == lit "key" || holds p

-- A rule with no `-S` is for every system call.
unfoldable pub selects : Selector → Text → Bool
selects (event_type_selector e) syscall = false
selects (syscall_selector syscalls scope) syscall =
    is_empty syscalls || member (lit "all") syscalls || member syscall syscalls

module _ (holds : Predicate → Bool) (arch syscall : Text) where
  unfoldable pub exit_matches : Rule → Bool
  exit_matches rule =
      has_scope (lit "exit") rule.selector
      && selects rule.selector syscall
      && all (predicate_holds holds arch) rule.predicates

  unfoldable pub task_matches : Rule → Bool
  task_matches rule =
      has_scope (lit "task") rule.selector && all (predicate_holds holds arch) rule.predicates

-- The effect of the first rule that matches.
unfoldable pub first_effect : (Rule → Bool) → List Rule → Option Effect
first_effect matches [] = none
first_effect matches (rule ∷ rest) =
    let later = first_effect matches rest in if matches rule then some rule.effect else later

abbrev pub is_disabled : Option Effect → Bool
is_disabled (some exclude) = true
is_disabled _ = false

abbrev pub is_recorded : Option Effect → Bool
is_recorded (some include) = true
is_recorded _ = false

-- What the task list and the exit list decide, where system calls are named: a new process gets
-- an audit context, and its call is selected when it ends.
unfoldable pub is_selected : (Predicate → Bool) → List Rule → Text → Text → Bool
is_selected holds rules arch syscall =
    not (is_disabled (first_effect (task_matches holds arch syscall) rules))
    && is_recorded (first_effect (exit_matches holds arch syscall) rules)

-- A system call that is written as a number. Which call it stands for in an architecture is in
-- the kernel's table, the argument `numbered` below: architecture, number and name.
abbrev pub is_number : Text → Bool
is_number [] = false
is_number (c ∷ s) = leb b'0' c && leb c b'9'

abbrev pub selects_number : (Text → Text → Text → Bool) → Text → Selector → Text → Bool
selects_number numbered arch (event_type_selector e) syscall = false
selects_number numbered arch (syscall_selector syscalls scope) syscall =
    any (λ s. is_number s && numbered arch s syscall) syscalls

unfoldable pub exit_takes :
    (Text → Text → Text → Bool) → (Predicate → Bool) → Text → Text → Rule → Bool
exit_takes numbered holds arch syscall rule =
    has_scope (lit "exit") rule.selector
    && (selects rule.selector syscall || selects_number numbered arch rule.selector syscall)
    && all (predicate_holds holds arch) rule.predicates

-- A rule for the exclude list drops the events that it matches, whether its action is `never` or
-- `always`, as auditctl(8) says.
unfoldable pub drops_event : (Predicate → Bool) → Text → Rule → Bool
drops_event holds arch rule =
    has_scope (lit "exclude") rule.selector && all (predicate_holds holds arch) rule.predicates

-- The call is recorded: a new process gets an audit context, the exit list records the call when
-- it ends, and the exclude list does not drop the event.
unfoldable pub is_audited :
    (Text → Text → Text → Bool) → (Predicate → Bool) → List Rule → Text → Text → Bool
is_audited numbered holds rules arch syscall =
    not (any (drops_event holds arch) rules)
    && (not (is_disabled (first_effect (task_matches holds arch syscall) rules))
        && is_recorded (first_effect (exit_takes numbered holds arch syscall) rules))

-- No rule for the exit list has a number among its system calls.
abbrev pub has_number : Selector → Bool
has_number (event_type_selector e) = false
has_number (syscall_selector syscalls scope) = any is_number syscalls

abbrev pub NamesCalls : Rule → Type 0
NamesCalls rule = has_number rule.selector ≡ false

-- A rule for the exclude list has the action `never`.
abbrev pub ExcludesNever : Rule → Type 0
ExcludesNever rule = has_scope (lit "exclude") rule.selector ≡ true → rule.effect ≡ exclude
