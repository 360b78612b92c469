-- ===== src/Evaluate/Auditd/Targets.antt =====
-- sigmascope/evaluate/auditd.py: the list `targets` of `evaluate_file_watch`, whose length the
-- explanation reports.
use sigmascope.Base.{Bool, true, false, not, ◌&&◌, List, [], ◌∷◌, ◌++◌, ◌≡◌, refl, inl, inr}
use sigmascope.Base.{arith, Text, ◌==◌, member, In, here, there, ◌⊎◌, ◌↔◌, Bool-cases, In-append}
use sigmascope.Base.{In-append_left, In-append_right, In-cons, member-In, eq_iff}
use sigmascope.Model.{Predicate, Rule}
use sigmascope.Evaluate.Auditd.FileWatch.{is_watch, path_fields, add_targets, watch_targets}

-- A path or a directory that one of the predicates names.
record IsNamed (ps : List Predicate) (target : Text) : Type 0 where
  predicate : Predicate
  holds : In predicate ps
  names_path : member predicate.field path_fields ≡ true
  value_is : target ≡ predicate.value

-- A watched path or directory of one of the rules.
pub record IsTarget (rules : List Rule) (target : Text) : Type 0 where
  pub rule : Rule
  pub predicate : Predicate
  pub listed : In rule rules
  pub watches : is_watch rule ≡ true
  pub holds : In predicate rule.predicates
  pub names_path : member predicate.field path_fields ≡ true
  pub value_is : target ≡ predicate.value

-- No text stands twice in the list.
abbrev pub Distinct : List Text → Type 0
Distinct [] = Unit
Distinct (x ∷ xs) = (member x xs ≡ false) × Distinct xs

IsNamed-here :
    (p : Predicate) (ps : List Predicate) {t : Text}
    → member p.field path_fields ≡ true
    → t ≡ p.value
    → IsNamed (p ∷ ps) t
IsNamed-here p ps h e = record { predicate = p; holds = here refl; names_path = h; value_is = e }

IsNamed-later : (p : Predicate) {ps : List Predicate} {t : Text} → IsNamed ps t → IsNamed (p ∷ ps) t
IsNamed-later p n = record {
  predicate = n.predicate;
  holds = there n.holds;
  names_path = n.names_path;
  value_is = n.value_is;
}

abbrev is_new : Predicate → List Text → Bool
is_new p targets = member p.field path_fields && not (member p.value targets)

add_targets_keeps :
    (ps : List Predicate) (targets : List Text) {t : Text}
    → In t targets
    → In t (add_targets ps targets)
unfolding add_targets
add_targets_keeps [] targets m = m
add_targets_keeps (p ∷ ps) targets m = elim (Bool-cases (is_new p targets)) [
  | inl e ↦ rw (e, add_targets) (add_targets_keeps ps _ (In-append_left (p.value ∷ []) m))
  | inr e ↦ rw (e, add_targets) (add_targets_keeps ps targets m)
]

In-add_targets :
    (ps : List Predicate) (targets : List Text) {t : Text}
    → In t (add_targets ps targets)
    → In t targets ⊎ IsNamed ps t
unfolding add_targets
In-add_targets [] targets m = inl m
In-add_targets (p ∷ ps) targets {t} m = elim (Bool-cases (is_new p targets)) [
  | inl e ↦
      added (ground arith) (In-add_targets ps (targets ++ p.value ∷ []) (rw (e, add_targets) at m))
  | inr e ↦ elim (In-add_targets ps targets (rw (e, add_targets) at m)) [
    | inl old ↦ inl old
    | inr n ↦ inr (IsNamed-later p n)
  ]
]
  where
    added :
        member p.field path_fields ≡ true
        → In t (targets ++ p.value ∷ []) ⊎ IsNamed ps t
        → In t targets ⊎ IsNamed (p ∷ ps) t
    added h (inr n) = inr (IsNamed-later p n)
    added h (inl k) = elim (In-append targets k) [
      | inl old ↦ inl old
      | inr last ↦ elim (In-cons last) [
        | inl same ↦ inr (IsNamed-here p ps h same)
        | inr nothing ↦ elim nothing [ ]
      ]
    ]

add_targets_of_named :
    (ps : List Predicate) (targets : List Text) {t : Text} (p : Predicate)
    → In p ps
    → member p.field path_fields ≡ true
    → t ≡ p.value
    → In t (add_targets ps targets)
unfolding add_targets
add_targets_of_named [] targets p m h e = elim m [ ]
add_targets_of_named (q ∷ ps) targets {t} p m h e = elim (In-cons m) [
  | inl same ↦ rw (e, same) (first (rw (← same) h))
  | inr later ↦ elim (Bool-cases (is_new q targets)) [
    | inl new ↦ rw (new, add_targets) (add_targets_of_named ps _ p later h e)
    | inr old ↦ rw (old, add_targets) (add_targets_of_named ps targets p later h e)
  ]
]
  where
    first : member q.field path_fields ≡ true → In q.value (add_targets (q ∷ ps) targets)
    first k = elim (Bool-cases (member q.value targets)) [
      | inl old ↦ add_targets_keeps (q ∷ ps) targets (member-In _ _ old)
      | inr new ↦
          rw (k, new, add_targets) (add_targets_keeps ps _ (In-append_right targets (here refl)))
    ]

watch_targets_keeps :
    (rules : List Rule) (targets : List Text) {t : Text}
    → In t targets
    → In t (watch_targets rules targets)
unfolding watch_targets
watch_targets_keeps [] targets m = m
watch_targets_keeps (rule ∷ rest) targets m = elim (Bool-cases (is_watch rule)) [
  | inl e ↦
      rw (e, watch_targets)
        (watch_targets_keeps rest _ (add_targets_keeps rule.predicates targets m))
  | inr e ↦ rw (e, watch_targets) (watch_targets_keeps rest targets m)
]

IsTarget-later :
    (rule : Rule) {rest : List Rule} {t : Text} → IsTarget rest t → IsTarget (rule ∷ rest) t
IsTarget-later rule n = record {
  rule = n.rule;
  predicate = n.predicate;
  listed = there n.listed;
  watches = n.watches;
  holds = n.holds;
  names_path = n.names_path;
  value_is = n.value_is;
}

In-watch_targets :
    (rules : List Rule) (targets : List Text) {t : Text}
    → In t (watch_targets rules targets)
    → In t targets ⊎ IsTarget rules t
unfolding watch_targets
In-watch_targets [] targets m = inl m
In-watch_targets (rule ∷ rest) targets {t} m = elim (Bool-cases (is_watch rule)) [
  | inl e ↦
      watched e
        (In-watch_targets rest (add_targets rule.predicates targets) (rw (e, watch_targets) at m))
  | inr e ↦ elim (In-watch_targets rest targets (rw (e, watch_targets) at m)) [
    | inl old ↦ inl old
    | inr n ↦ inr (IsTarget-later rule n)
  ]
]
  where
    watched :
        is_watch rule ≡ true
        → In t (add_targets rule.predicates targets) ⊎ IsTarget rest t
        → In t targets ⊎ IsTarget (rule ∷ rest) t
    watched e (inr n) = inr (IsTarget-later rule n)
    watched e (inl k) = elim (In-add_targets rule.predicates targets k) [
      | inl old ↦ inl old
      | inr n ↦ inr (record {
        rule = rule;
        predicate = n.predicate;
        listed = here refl;
        watches = e;
        holds = n.holds;
        names_path = n.names_path;
        value_is = n.value_is;
      })
    ]

watch_targets_of_target :
    (rules : List Rule) (targets : List Text) {t : Text} (rule : Rule) (p : Predicate)
    → In rule rules
    → is_watch rule ≡ true
    → In p rule.predicates
    → member p.field path_fields ≡ true
    → t ≡ p.value
    → In t (watch_targets rules targets)
unfolding watch_targets
watch_targets_of_target [] targets rule p m w n h e = elim m [ ]
watch_targets_of_target (r ∷ rest) targets rule p m w n h e = elim (In-cons m) [
  | inl same ↦
      rw (rw same at w, watch_targets)
        (watch_targets_keeps rest _
          (add_targets_of_named r.predicates targets p (rw same at n) h e))
  | inr later ↦ elim (Bool-cases (is_watch r)) [
    | inl k ↦ rw (k, watch_targets) (watch_targets_of_target rest _ rule p later w n h e)
    | inr k ↦ rw (k, watch_targets) (watch_targets_of_target rest targets rule p later w n h e)
  ]
]

pub Distinct-append :
    (xs : List Text) (x : Text) → Distinct xs → member x xs ≡ false → Distinct (xs ++ x ∷ [])
Distinct-append [] x d h = (refl, tt)
Distinct-append (y ∷ xs) x (fresh, d) h = (
  member-append xs y x fresh (ground (arith, eq_iff y x, eq_iff x y)),
  Distinct-append xs x d (ground arith),
)
  where
    member-append :
        (ys : List Text) (a b : Text)
        → member a ys ≡ false
        → (a == b) ≡ false
        → member a (ys ++ b ∷ []) ≡ false
    member-append [] a b k e = rw e refl
    member-append (z ∷ ys) a b k e = ground (arith, member-append ys a b)

add_targets-Distinct :
    (ps : List Predicate) (targets : List Text)
    → Distinct targets
    → Distinct (add_targets ps targets)
unfolding add_targets
add_targets-Distinct [] targets d = d
add_targets-Distinct (p ∷ ps) targets d = elim (Bool-cases (is_new p targets)) [
  | inl e ↦
      rw (e, add_targets)
        (add_targets-Distinct ps _ (Distinct-append targets p.value d (ground arith)))
  | inr e ↦ rw (e, add_targets) (add_targets-Distinct ps targets d)
]

watch_targets-Distinct_from :
    (rules : List Rule) (targets : List Text)
    → Distinct targets
    → Distinct (watch_targets rules targets)
unfolding watch_targets
watch_targets-Distinct_from [] targets d = d
watch_targets-Distinct_from (rule ∷ rest) targets d = elim (Bool-cases (is_watch rule)) [
  | inl e ↦
      rw (e, watch_targets)
        (watch_targets-Distinct_from rest _ (add_targets-Distinct rule.predicates targets d))
  | inr e ↦ rw (e, watch_targets) (watch_targets-Distinct_from rest targets d)
]

-- The targets are exactly the paths and directories of the rules that watch for writes and
-- attribute changes, each listed once.
pub watch_targets-IsTarget :
    (rules : List Rule)
    → ((t : Text) → In t (watch_targets rules []) ↔ IsTarget rules t)
      × Distinct (watch_targets rules [])
watch_targets-IsTarget rules = (
  λ t. (
    λ m. elim (In-watch_targets rules [] m) [ inl old ↦ elim old [ ] | inr n ↦ n ],
    λ n.
        watch_targets_of_target rules [] n.rule n.predicate n.listed n.watches n.holds n.names_path
          n.value_is,
  ),
  watch_targets-Distinct_from rules [] tt,
)
