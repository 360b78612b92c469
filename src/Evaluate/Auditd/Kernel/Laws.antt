-- ===== src/Evaluate/Auditd/Kernel/Laws.antt =====
-- First matches in ordered lists, and what the program's helpers on one rule say about them.
use sigmascope.Base.{Bool, true, false, not, ◌||◌, List, [], ◌∷◌, map, ◌≡◌, refl, inl, inr}
use sigmascope.Base.{arith, Text, lit, ◌==◌, member, any, all, filter, is_empty, length}
use sigmascope.Base.{◌≤◌, ◌<◌, some, In, here, there, In-cons, eq_iff, Bool-cases}
use sigmascope.Model.{Predicate, include, exclude, Selector}
use sigmascope.Model.{syscall_selector, event_type_selector, Rule, has_scope}
use sigmascope.Evaluate.Auditd.Rules.{is_eq, predicate, arches, restrictive, non_narrowing_fields}
use sigmascope.Evaluate.Auditd.Rules.{exit_rule_suppresses, suppresses}
use sigmascope.Evaluate.Auditd.Kernel.{All, IsOrdered, HasOneArch, predicate_holds, selects}
use sigmascope.Evaluate.Auditd.Kernel.{exit_matches, first_effect, is_disabled}

pub All-In {ℓ κ} : {A : Type ℓ} (P : A → Type κ) {a : A} {xs : List A} → All P xs → In a xs → P a
All-In P h (here e) = rw e h.0
All-In P h (there m) = All-In P h.1 m

abbrev is_arch : Predicate → Bool
is_arch p = p.field == lit "arch"

abbrev arch_values : List Predicate → List Text
arch_values ps = map (λ p. p.value) (filter (λ p. is_eq p.op) (filter is_arch ps))

abbrev narrows : Predicate → Bool
narrows p = not (member p.field non_narrowing_fields)

module _ (holds : Predicate → Bool) (arch : Text) where
  -- Keys alone hold of every event.
  keys_hold :
      (ps : List Predicate)
      → any narrows ps ≡ false
      → length (filter is_arch ps) ≤ 0
      → all (predicate_holds holds arch) ps ≡ true
  unfolding any all filter predicate_holds
  keys_hold [] n h = refl
  keys_hold (p ∷ ps) n h = ground (arith, keys_hold ps)

  arch_values-eq-nil : (ps : List Predicate) → length (filter is_arch ps) ≤ 0 → arch_values ps ≡ []
  unfolding filter
  arch_values-eq-nil [] h = refl
  arch_values-eq-nil (p ∷ ps) h = ground (arith, arch_values-eq-nil ps)

  -- With one architecture at most, and that one named, nothing narrows the rule.
  one_arch_holds :
      (ps : List Predicate)
      → any narrows ps ≡ false
      → length (filter is_arch ps) ≤ 1
      → member arch (arch_values ps) ≡ true
      → all (predicate_holds holds arch) ps ≡ true
  unfolding any all filter predicate_holds
  one_arch_holds [] n h m = refl
  one_arch_holds (p ∷ ps) n h m = ground (
    arith,
    one_arch_holds ps,
    keys_hold ps,
    arch_values-eq-nil ps,
    eq_iff p.value arch,
    eq_iff arch p.value,
  )

  -- Where all predicates hold, the architectures that they name include the event's.
  arch_values_of_holds :
      (ps : List Predicate)
      → all (predicate_holds holds arch) ps ≡ true
      → (is_empty (arch_values ps) || member arch (arch_values ps)) ≡ true
  unfolding all filter predicate_holds
  arch_values_of_holds [] h = refl
  arch_values_of_holds (p ∷ ps) h =
      ground (arith, arch_values_of_holds ps, eq_iff p.value arch, eq_iff arch p.value)

module _ (holds : Predicate → Bool) (arch syscall : Text) where
  -- A rule for the exit list without narrowing predicates matches the events of its
  -- architecture and its system calls.
  pub exit_matches_of_unrestricted :
      (rule : Rule)
      → HasOneArch rule
      → has_scope (lit "exit") rule.selector ≡ true
      → restrictive rule ≡ false
      → member arch (arches rule) ≡ true
      → selects rule.selector syscall ≡ true
      → exit_matches holds arch syscall rule ≡ true
  unfolding exit_matches restrictive arches predicate
  exit_matches_of_unrestricted rule one scope free named chosen =
      ground (arith, one_arch_holds holds arch rule.predicates free one named)

  -- A rule without architecture and without narrowing predicates matches on every machine.
  pub exit_matches_of_archless :
      (rule : Rule)
      → has_scope (lit "exit") rule.selector ≡ true
      → restrictive rule ≡ false
      → is_empty (predicate rule (lit "arch")) ≡ true
      → selects rule.selector syscall ≡ true
      → exit_matches holds arch syscall rule ≡ true
  unfolding exit_matches restrictive predicate
  exit_matches_of_archless rule scope free bare chosen =
      ground (arith, keys_hold holds arch rule.predicates free (no_elements _ bare))
    where
      no_elements : (ps : List Predicate) → is_empty ps ≡ true → length ps ≤ 0
      no_elements [] e = omega arith
      no_elements (p ∷ ps) e = absurd (ground arith)

  suppresses_of_selects :
      (selector : Selector) (archs : List Text)
      → has_scope (lit "exit") selector ≡ true
      → selects selector syscall ≡ true
      → (is_empty archs || member arch archs) ≡ true
      → suppresses exclude selector archs arch syscall ≡ true
  unfolding has_scope selects
  suppresses_of_selects (event_type_selector e) archs scope chosen named = absurd (ground arith)
  suppresses_of_selects (syscall_selector syscalls list) archs scope chosen named = ground arith

  -- Every rule that can drop the event is found by the program's test.
  pub exit_rule_suppresses_of_matches :
      (rule : Rule)
      → rule.effect ≡ exclude
      → exit_matches holds arch syscall rule ≡ true
      → exit_rule_suppresses rule arch syscall ≡ true
  unfolding exit_rule_suppresses exit_matches arches predicate
  exit_rule_suppresses_of_matches rule e h = rw e (
      suppresses_of_selects rule.selector _ (ground arith) (ground arith)
        (arch_values_of_holds holds arch rule.predicates (ground arith)))

module _ (matches : Rule → Bool) where
  -- With the rules in order, an including rule decides if no excluding rule before it matches.
  pub first_effect-include :
      (rules : List Rule) {rule : Rule}
      → IsOrdered rules
      → In rule rules
      → rule.effect ≡ include
      → matches rule ≡ true
      → ((q : Rule) → In q rules → q.order < rule.order → matches q ≡ true → q.effect ≡ include)
      → first_effect matches rules ≡ some include
  unfolding first_effect
  first_effect-include [] o m e h before = elim m [ ]
  first_effect-include (q ∷ rest) {rule} (o, os) m e h before = elim (In-cons m) [
    | inl same ↦ rw (← same, h, e) refl
    | inr later ↦ elim (Bool-cases (matches q)) [
      | inl k ↦ rw (k, before q (here refl) (All-In (λ r. q.order < r.order) o later) k) refl
      | inr k ↦ rw k (first_effect-include rest os later e h (λ r n. before r (there n)))
    ]
  ]

  -- No first match excludes if no excluding rule matches.
  pub first_effect-ne-exclude :
      (rules : List Rule)
      → ((q : Rule) → In q rules → matches q ≡ true → q.effect ≡ include)
      → is_disabled (first_effect matches rules) ≡ false
  unfolding first_effect
  first_effect-ne-exclude [] h = refl
  first_effect-ne-exclude (q ∷ rest) h = elim (Bool-cases (matches q)) [
    | inl k ↦ rw (k, h q (here refl) k) refl
    | inr k ↦ rw k (first_effect-ne-exclude rest (λ r n. h r (there n)))
  ]
