-- ===== src/Base/Lists.antt =====
-- Lists under Boolean predicates: Python's `any`, `all` and filtering comprehensions, and a
-- membership that can be taken apart.
use mathlib.Core.Path.{◌≡◌, refl}
use mathlib.Core.Logic.{◌⊎◌, inl, inr}
use mathlib.Core.Bool.{Bool, true, false, not, ◌&&◌, ◌||◌}
use mathlib.Core.Option.{Option, none, some}
use mathlib.Core.List.{List, [], ◌∷◌, ◌++◌}
use native.Mathlib.Omega.{arith}
use Prim.Native.Nat.{ℕ, suc}
use sigmascope.Base.Tests.{if◌then◌else◌, Bool-cases}

module _ {ℓ} {A : Type ℓ} where
  abbrev pub length : List A → ℕ
  length [] = 0
  length (x ∷ xs) = suc (length xs)

  abbrev pub get_elem? : List A → ℕ → Option A
  get_elem? [] i = none
  get_elem? (x ∷ xs) ℕ.zero = some x
  get_elem? (x ∷ xs) (suc i) = get_elem? xs i

  abbrev pub get_or : List A → ℕ → A → A
  get_or [] i d = d
  get_or (x ∷ xs) ℕ.zero d = x
  get_or (x ∷ xs) (suc i) d = get_or xs i d

  abbrev pub take : ℕ → List A → List A
  take ℕ.zero xs = []
  take (suc n) [] = []
  take (suc n) (x ∷ xs) = x ∷ take n xs

  -- `xs[n:]`
  abbrev pub drop : ℕ → List A → List A
  drop ℕ.zero xs = xs
  drop (suc n) [] = []
  drop (suc n) (x ∷ xs) = drop n xs

  unfoldable pub any : (A → Bool) → List A → Bool
  any p [] = false
  any p (x ∷ xs) = p x || any p xs

  unfoldable pub all : (A → Bool) → List A → Bool
  all p [] = true
  all p (x ∷ xs) = p x && all p xs

  -- `[x for x in xs if p(x)]`
  unfoldable pub filter : (A → Bool) → List A → List A
  filter p [] = []
  filter p (x ∷ xs) = let rest = filter p xs in if p x then x ∷ rest else rest

  -- `not xs`
  abbrev pub is_empty : List A → Bool
  is_empty [] = true
  is_empty (x ∷ xs) = false

  -- `next((x for x in xs if p(x)), None)`
  unfoldable pub find : (A → Bool) → List A → Option A
  find p [] = none
  find p (x ∷ xs) = let rest = find p xs in if p x then some x else rest

  -- Where an element stands in a list.
  pub data In (a : A) : List A → Type ℓ where
    here : {x : A} {xs : List A} → a ≡ x → In a (x ∷ xs)
    there : {x : A} {xs : List A} → In a xs → In a (x ∷ xs)

  pub In-cons : {a x : A} {xs : List A} → In a (x ∷ xs) → (a ≡ x) ⊎ In a xs
  In-cons (here e) = inl e
  In-cons (there m) = inr m

  pub In-subst : {a b : A} {xs : List A} → a ≡ b → In a xs → In b xs
  In-subst e m = rw e at m

  pub In-nonempty : {a : A} {xs : List A} → In a xs → is_empty xs ≡ false
  In-nonempty (here e) = refl
  In-nonempty (there m) = refl

  pub In-append_left : {a : A} {xs : List A} (ys : List A) → In a xs → In a (xs ++ ys)
  In-append_left ys (here e) = here e
  In-append_left ys (there m) = there (In-append_left ys m)

  pub In-append_right : {a : A} (xs : List A) {ys : List A} → In a ys → In a (xs ++ ys)
  In-append_right [] m = m
  In-append_right (x ∷ xs) m = there (In-append_right xs m)

  pub In-append : {a : A} (xs : List A) {ys : List A} → In a (xs ++ ys) → In a xs ⊎ In a ys
  In-append [] m = inr m
  In-append (x ∷ xs) m = elim (In-cons m) [
    | inl e ↦ inl (here e)
    | inr n ↦ elim (In-append xs n) [ inl l ↦ inl (there l) | inr r ↦ inr r ]
  ]

module _ {ℓ} {A : Type ℓ} (p : A → Bool) where
  pub any-In : (xs : List A) → any p xs ≡ true → (a : A) × In a xs × (p a ≡ true)
  unfolding any
  any-In [] h = absurd (ground arith)
  any-In (x ∷ xs) h = elim (Bool-cases (p x)) [
    | inl e ↦ (x, here refl, e)
    | inr e ↦ let (a, m, q) = any-In xs (ground arith) in (a, there m, q)
  ]

  pub any_of_In : {a : A} {xs : List A} → In a xs → p a ≡ true → any p xs ≡ true
  unfolding any
  any_of_In (here e) h = ground arith
  any_of_In (there m) h = ground (arith, any_of_In m h)

  pub any-none : {a : A} {xs : List A} → any p xs ≡ false → In a xs → p a ≡ false
  any-none {a} {xs} h m = elim (Bool-cases (p a)) [
    | inl e ↦ ground (arith, any_of_In m e)
    | inr e ↦ e
  ]

  pub all_of_In : {a : A} {xs : List A} → In a xs → all p xs ≡ true → p a ≡ true
  unfolding all
  all_of_In (here e) h = ground arith
  all_of_In (there m) h = all_of_In m (ground arith)

  pub In-filter : {a : A} (xs : List A) → In a (filter p xs) → In a xs × (p a ≡ true)
  unfolding filter
  In-filter [] m = elim m [ ]
  In-filter {a} (x ∷ xs) m = elim (Bool-cases (p x)) [
    | inl e ↦ elim (In-cons (rw e at m)) [
      | inl same ↦ (here same, rw same e)
      | inr later ↦ let (n, q) = In-filter xs later in (there n, q)
    ]
    | inr e ↦ let (n, q) = In-filter xs (rw e at m) in (there n, q)
  ]

  pub In-filter_of_In : {a : A} {xs : List A} → In a xs → p a ≡ true → In a (filter p xs)
  unfolding filter
  In-filter_of_In {a} (here {x} e) h = let q : p x ≡ true = rw (← e) h in rw q (here e)
  In-filter_of_In (there {x} m) h = elim (Bool-cases (p x)) [
    | inl e ↦ rw e (there (In-filter_of_In m h))
    | inr e ↦ rw e (In-filter_of_In m h)
  ]

  -- An empty comprehension is a failed `any`.
  pub is_empty-filter : (xs : List A) → is_empty (filter p xs) ≡ not (any p xs)
  unfolding filter any
  is_empty-filter [] = refl
  is_empty-filter (x ∷ xs) = ground (arith, is_empty-filter xs)

  pub find-In : (xs : List A) {a : A} → find p xs ≡ some a → In a xs × (p a ≡ true)
  unfolding find
  find-In [] h = absurd (ground arith)
  find-In (x ∷ xs) {a} h = elim (Bool-cases (p x)) [
    | inl e ↦ let same : a ≡ x = ground arith in (here same, rw same e)
    | inr e ↦ let (m, q) = find-In xs (rw e at h) in (there m, q)
  ]

  pub find-none : (xs : List A) → find p xs ≡ none → any p xs ≡ false
  unfolding find any
  find-none [] h = refl
  find-none (x ∷ xs) h = ground (arith, find-none xs)
