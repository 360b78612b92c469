-- ===== src/Evaluate/Auditd/Kernel/Lists.antt =====
-- The three lists together: the exclude list, and the exit list with numbers.
use sigmascope.Base.{Bool, true, false, ◌&&◌, List, [], ◌∷◌, ◌≡◌, refl, inl, inr, arith}
use sigmascope.Base.{Text, lit, any, none, Bool-cases}
use sigmascope.Model.{Predicate, Selector, Rule, has_scope}
use sigmascope.Model.{syscall_selector, event_type_selector}
use sigmascope.Evaluate.Auditd.Suppression.{suppression, is_exclude_rule}
use sigmascope.Evaluate.Auditd.Kernel.{All, selects_number, is_number, has_number, NamesCalls}
use sigmascope.Evaluate.Auditd.Kernel.{ExcludesNever, exit_matches, exit_takes, drops_event}
use sigmascope.Evaluate.Auditd.Kernel.{first_effect, is_selected, is_audited}

no_number :
    (numbered : Text → Text → Text → Bool) (arch syscall : Text) (items : List Text)
    → any is_number items ≡ false
    → any (λ s. is_number s && numbered arch s syscall) items ≡ false
unfolding any
no_number numbered arch syscall [] h = refl
no_number numbered arch syscall (s ∷ items) h =
    ground (arith, no_number numbered arch syscall items)

selects_number-NamesCalls :
    (numbered : Text → Text → Text → Bool) (arch syscall : Text) (selector : Selector)
    → has_number selector ≡ false
    → selects_number numbered arch selector syscall ≡ false
selects_number-NamesCalls numbered arch syscall (event_type_selector e) h = refl
selects_number-NamesCalls numbered arch syscall (syscall_selector items scope) h =
    no_number numbered arch syscall items h

module _ (numbered : Text → Text → Text → Bool) (holds : Predicate → Bool)
    (arch syscall : Text) where
  exit_takes-NamesCalls :
      (rule : Rule)
      → NamesCalls rule
      → exit_takes numbered holds arch syscall rule ≡ exit_matches holds arch syscall rule
  unfolding exit_takes exit_matches
  exit_takes-NamesCalls rule h =
      ground (arith, selects_number-NamesCalls numbered arch syscall rule.selector h)

  first_effect-NamesCalls :
      (rules : List Rule)
      → All NamesCalls rules
      → first_effect (exit_takes numbered holds arch syscall) rules
        ≡ first_effect (exit_matches holds arch syscall) rules
  unfolding first_effect
  first_effect-NamesCalls [] h = refl
  first_effect-NamesCalls (rule ∷ rest) (h, hs) =
      rw (exit_takes-NamesCalls rule h, first_effect-NamesCalls rest hs) refl

  drops_event-is_exclude_rule :
      (rule : Rule)
      → ExcludesNever rule
      → is_exclude_rule rule ≡ false
      → drops_event holds arch rule ≡ false
  unfolding drops_event is_exclude_rule
  drops_event-is_exclude_rule rule never h =
      elim (Bool-cases (has_scope (lit "exclude") rule.selector)) [
        | inl e ↦ absurd (ground (arith, never e))
        | inr e ↦ rw e refl
      ]

  drops_none :
      (rules : List Rule)
      → All ExcludesNever rules
      → any is_exclude_rule rules ≡ false
      → any (drops_event holds arch) rules ≡ false
  unfolding any
  drops_none [] never h = refl
  drops_none (rule ∷ rest) (n, ns) h =
      ground (arith, drops_event-is_exclude_rule rule n, drops_none rest ns)

  -- With numbers out of the way and nothing dropped, the other two lists decide.
  pub is_audited_of_selected :
      (rules : List Rule)
      → All NamesCalls rules
      → All ExcludesNever rules
      → suppression rules ≡ none
      → is_selected holds rules arch syscall ≡ true
      → is_audited numbered holds rules arch syscall ≡ true
  unfolding is_audited is_selected suppression
  is_audited_of_selected rules named never clear selected =
      rw (first_effect-NamesCalls rules named, drops_none rules never (ground arith)) selected

  pub not_audited_of_unselected :
      (rules : List Rule)
      → All NamesCalls rules
      → is_selected holds rules arch syscall ≡ false
      → is_audited numbered holds rules arch syscall ≡ false
  unfolding is_audited is_selected
  not_audited_of_unselected rules named h =
      rw (first_effect-NamesCalls rules named) (ground (arith, h))
