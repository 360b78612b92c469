-- ===== src/Evaluate/Resolver/Best.antt =====
-- sigmascope/evaluate/resolver.py: which verdict a disjunction of providers gets.
use sigmascope.Base.{ℕ, ltb→lt, lt→ltb, false, List, [], ◌∷◌, ◌≡◌, refl, ap, ◌∙◌, inl, inr, arith}
use sigmascope.Base.{◌↔◌, ◌≤◌, ltb, In, here, there, In-cons}
use sigmascope.Base.{some, Bool-cases, lit, ◌==◌}
use sigmascope.Model.{Verdict, covered, degraded, not_covered, indeterminate}
use sigmascope.Model.{verdict_value, verdict_of, verdict_of-verdict_value}
use sigmascope.Evaluate.Resolver.{ProviderResult, provider_order, best_of, resolve, explanation_for}

best_of-In :
    (best : ProviderResult) (rest : List ProviderResult) → In (best_of best rest) (best ∷ rest)
unfolding best_of
best_of-In best [] = here refl
best_of-In best (item ∷ rest) =
    elim (Bool-cases (ltb (provider_order best.verdict) (provider_order item.verdict))) [
      | inl e ↦ rw (e, best_of) (there (best_of-In item rest))
      | inr e ↦
          rw (e, best_of)
            (elim (In-cons (best_of-In best rest)) [
              | inl same ↦ here same
              | inr later ↦ there (there later)
            ])
    ]

best_of-le :
    (best : ProviderResult) (rest : List ProviderResult)
    → provider_order best.verdict ≤ provider_order (best_of best rest).verdict
unfolding best_of
best_of-le best [] = omega arith
best_of-le best (item ∷ rest) =
    elim (Bool-cases (ltb (provider_order best.verdict) (provider_order item.verdict))) [
      | inl e ↦ rw (e, best_of) (omega (arith, ltb→lt _ _ e, best_of-le item rest))
      | inr e ↦ rw (e, best_of) (best_of-le best rest)
    ]

best_of-max :
    (best : ProviderResult) (rest : List ProviderResult) (item : ProviderResult)
    → In item (best ∷ rest)
    → provider_order item.verdict ≤ provider_order (best_of best rest).verdict
unfolding best_of
best_of-max best rest item (here e) = rw e (best_of-le best rest)
best_of-max best [] item (there m) = elim m [ ]
best_of-max best (next ∷ rest) item (there m) =
    elim (Bool-cases (ltb (provider_order best.verdict) (provider_order next.verdict))) [
      | inl e ↦ rw (e, best_of) (best_of-max next rest item m)
      | inr e ↦
          rw (e, best_of)
            (elim (In-cons m) [
              | inl same ↦ rw same (
                  omega (
                    arith,
                    lt→ltb (provider_order best.verdict) (provider_order next.verdict),
                    best_of-le best rest,
                    not_lt e,
                  ))
              | inr later ↦ best_of-max best rest item (there later)
            ])
    ]
  where
    not_lt :
        ltb (provider_order best.verdict) (provider_order next.verdict) ≡ false
        → provider_order next.verdict ≤ provider_order best.verdict
    not_lt e = ground arith

-- The places of the verdicts.
abbrev pub rank : Verdict → ℕ
rank covered = 4
rank indeterminate = 3
rank degraded = 2
rank not_covered = 1

provider_order-verdict_value : (v : Verdict) → provider_order (verdict_value v) ≡ rank v
unfolding provider_order verdict_value lit ◌==◌
provider_order-verdict_value covered = refl
provider_order-verdict_value degraded = refl
provider_order-verdict_value not_covered = refl
provider_order-verdict_value indeterminate = refl

rank-injective : (v w : Verdict) → rank v ≡ rank w → v ≡ w
rank-injective v w h = ground arith

-- Every provider carries one of the four verdicts, as `_provider_result` gives them.
abbrev pub AllValid : List ProviderResult → Type 0
AllValid providers =
    (item : ProviderResult) → In item providers → (v : Verdict) × (item.verdict ≡ verdict_value v)

-- The verdict of one provider, and none ranks above it.
pub record IsBest (providers : List ProviderResult) (v : Verdict) : Type 0 where
  pub item : ProviderResult
  pub listed : In item providers
  pub says : item.verdict ≡ verdict_value v
  pub highest :
      (other : ProviderResult) (w : Verdict)
      → In other providers
      → other.verdict ≡ verdict_value w
      → rank w ≤ rank v

best_of-IsBest :
    (first : ProviderResult) (rest : List ProviderResult) (v : Verdict)
    → (best_of first rest).verdict ≡ verdict_value v
    → IsBest (first ∷ rest) v
best_of-IsBest first rest v e = record {
  item = best_of first rest;
  listed = best_of-In first rest;
  says = e;
  highest = λ other w m h.
      let top : provider_order other.verdict ≤ provider_order (best_of first rest).verdict =
        best_of-max first rest other m in
      let below : provider_order (verdict_value w) ≤ provider_order (verdict_value v) =
        rw (← h, ← e) top in
      omega (arith, provider_order-verdict_value w, provider_order-verdict_value v);
}

-- Providers with the same members have the same best verdict.
pub IsBest-unique :
    {xs ys : List ProviderResult} {v w : Verdict}
    → ((item : ProviderResult) → In item xs ↔ In item ys)
    → IsBest xs v
    → IsBest ys w
    → v ≡ w
IsBest-unique {v} {w} same a b =
    let below = a.highest b.item w ((same b.item).1 b.listed) b.says in
    let above = b.highest a.item v ((same a.item).0 a.listed) a.says in
    rank-injective v w (omega arith)

resolve-cons :
    (first : ProviderResult) (rest : List ProviderResult) {v : Verdict}
    → verdict_of (best_of first rest).verdict ≡ some v
    → resolve (first ∷ rest) ≡ some (v, explanation_for v (best_of first rest) (first ∷ rest))
unfolding resolve
resolve-cons first rest e = rw (e, resolve) refl

-- A disjunction with a provider has a verdict, the best one, and the explanation that goes with
-- it.
pub resolve-IsBest :
    (first : ProviderResult) (rest : List ProviderResult)
    → AllValid (first ∷ rest)
    → (v : Verdict) × (resolve (first ∷ rest)
        ≡ some (v, explanation_for v (best_of first rest) (first ∷ rest)))
      × IsBest (first ∷ rest) v
resolve-IsBest first rest valid =
    let (v, e) = valid _ (best_of-In first rest) in
    let known = ap verdict_of e ∙ verdict_of-verdict_value v in
    (v, resolve-cons first rest known, best_of-IsBest first rest v e)
