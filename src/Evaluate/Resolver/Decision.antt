-- ===== src/Evaluate/Resolver/Decision.antt =====
-- sigmascope/evaluate/resolver.py: the finding that a disjunction of providers ends in.
use sigmascope.Base.{true, false, List, [], ◌∷◌, ◌≡◌, refl, sym, ap, ◌∙◌, inl, inr, arith}
use sigmascope.Base.{◌↔◌, ◌⊎◌, lit, Text, In, some, ◌≤◌}
use sigmascope.Model.{Verdict, covered, indeterminate, satisfied}
use sigmascope.Model.{verdict_value}
use sigmascope.Evaluate.Resolver.{ProviderResult, Logsource, Finding, best_of}
use sigmascope.Evaluate.Resolver.{explanation_for}
use mathlib.Core.Option
use mathlib.Core.Option.{some-injective}
use sigmascope.Evaluate.Resolver.{resolve_provider_disjunction}
use sigmascope.Evaluate.Resolver.Best.{AllValid, IsBest, IsBest-unique, resolve-IsBest, rank}

-- The finding holds the logsource, the providers and the references that were given, and the
-- verdict `v`.
pub record Reports (logsource : Logsource) (references : List Text)
    (providers : List ProviderResult) (v : Verdict) (f : Finding) : Type 0 where
  pub about : f.logsource ≡ logsource
  pub verdict_is : f.verdict ≡ verdict_value v
  pub satisfied_is : f.satisfied ≡ satisfied v
  pub lists : f.providers ≡ providers
  pub cites : f.references ≡ references

satisfied-covered : (v : Verdict) → satisfied v ≡ true → v ≡ covered
satisfied-covered v h = ground arith

chosen_covered :
    {providers : List ProviderResult} {v : Verdict}
    → (providers ≡ []) × (v ≡ indeterminate) ⊎ IsBest providers v
    → v ≡ covered
    → (item : ProviderResult) × In item providers × (item.verdict ≡ verdict_value covered)
chosen_covered (inl (_, e)) c = absurd (cc)
chosen_covered (inr b) c = (b.item, b.listed, b.says ∙ ap verdict_value c)

covered_wins :
    {providers : List ProviderResult} {v : Verdict} {item : ProviderResult}
    → (providers ≡ []) × (v ≡ indeterminate) ⊎ IsBest providers v
    → In item providers
    → item.verdict ≡ verdict_value covered
    → satisfied v ≡ true
covered_wins (inl (e, _)) m c = elim (rw e at m) [ ]
covered_wins {v} {item} (inr b) m c = top_satisfied v (b.highest item covered m c)
  where
    top_satisfied : (v : Verdict) → 4 ≤ rank v → satisfied v ≡ true
    top_satisfied v h = ground arith

module _ (logsource : Logsource) (references : List Text) where
  -- If every provider has one of the four verdicts, there is a finding, with the logsource, the
  -- providers and the references that were given. Without a provider its verdict is
  -- INDETERMINATE; otherwise it is the verdict of one of the providers, and none ranks above it in
  -- the order COVERED, INDETERMINATE, DEGRADED, NOT_COVERED.
  pub resolve_provider_disjunction-Reports :
      (providers : List ProviderResult)
      → AllValid providers
      → (f : Finding) × (v : Verdict) × (resolve_provider_disjunction logsource references providers
          ≡ some f)
        × Reports logsource references providers v f
        × ((providers ≡ []) × (v ≡ indeterminate) ⊎ IsBest providers v)
  unfolding resolve_provider_disjunction
  resolve_provider_disjunction-Reports [] valid = (
    record {
      logsource = logsource;
      verdict = verdict_value indeterminate;
      satisfied = false;
      explanation = lit "No provider evaluation was available.";
      providers = [];
      references = references;
    },
    indeterminate,
    refl,
    record { about = refl; verdict_is = refl; satisfied_is = refl; lists = refl; cites = refl },
    inl (refl, refl),
  )
  resolve_provider_disjunction-Reports (first ∷ rest) valid =
      let (v, e, best) = resolve-IsBest first rest valid in
      (
        record {
          logsource = logsource;
          verdict = verdict_value v;
          satisfied = satisfied v;
          explanation = explanation_for v (best_of first rest) (first ∷ rest);
          providers = first ∷ rest;
          references = references;
        },
        v,
        rw (e, resolve_provider_disjunction) refl,
        record { about = refl; verdict_is = refl; satisfied_is = refl; lists = refl; cites = refl },
        inr best,
      )

  -- What the finding says, with the rest of it forgotten.
  decision :
      (providers : List ProviderResult)
      → AllValid providers
      → (v : Verdict) × (Option.map
            (λ f. f.verdict)
            (resolve_provider_disjunction logsource references providers)
          ≡ some (verdict_value v))
        × (Option.map
              (λ f. f.satisfied)
              (resolve_provider_disjunction logsource references providers)
            ≡ some (satisfied v))
        × ((providers ≡ []) × (v ≡ indeterminate) ⊎ IsBest providers v)
  decision providers valid =
      let (f, v, e, r, why) = resolve_provider_disjunction-Reports providers valid in
      (v, rw e (ap some r.verdict_is), rw e (ap some r.satisfied_is), why)

  no_members :
      {xs ys : List ProviderResult} {v : Verdict}
      → ((item : ProviderResult) → In item xs ↔ In item ys)
      → ys ≡ []
      → IsBest xs v
      → ⊥
  no_members same e b = elim (rw e at ((same b.item).0 b.listed)) [ ]

  same_decision :
      {xs ys : List ProviderResult} {v w : Verdict}
      → ((item : ProviderResult) → In item xs ↔ In item ys)
      → (xs ≡ []) × (v ≡ indeterminate) ⊎ IsBest xs v
      → (ys ≡ []) × (w ≡ indeterminate) ⊎ IsBest ys w
      → v ≡ w
  same_decision same (inl (_, a)) (inl (_, b)) = a ∙ sym b
  same_decision same (inl (e, _)) (inr b) =
      absurd (no_members (λ item. ((same item).1, (same item).0)) e b)
  same_decision same (inr a) (inl (e, _)) = absurd (no_members same e a)
  same_decision same (inr a) (inr b) = IsBest-unique same a b

  -- If every provider has one of the four verdicts, the verdict of the finding does not depend on
  -- the order or the repetition of the providers.
  pub resolve_provider_disjunction-same :
      (xs ys : List ProviderResult)
      → AllValid xs
      → ((item : ProviderResult) → In item xs ↔ In item ys)
      → Option.map (λ f. f.verdict) (resolve_provider_disjunction logsource references xs)
        ≡ Option.map (λ f. f.verdict) (resolve_provider_disjunction logsource references ys)
  resolve_provider_disjunction-same xs ys valid same =
      let (v, a, _, p) = decision xs valid in
      let (w, b, _, q) = decision ys (λ item m. valid item ((same item).1 m)) in
      a ∙ ap (λ u. some (verdict_value u)) (same_decision same p q) ∙ sym b

  -- If every provider has one of the four verdicts, the finding is satisfied exactly when one of
  -- the providers is COVERED.
  pub resolve_provider_disjunction-satisfied :
      (providers : List ProviderResult)
      → AllValid providers
      → (Option.map (λ f. f.satisfied) (resolve_provider_disjunction logsource references providers)
          ≡ some true)
        ↔ ((item : ProviderResult) × In item providers × (item.verdict ≡ verdict_value covered))
  resolve_provider_disjunction-satisfied providers valid =
      let (v, _, e, why) = decision providers valid in
      (
        λ h. chosen_covered why (satisfied-covered v (some-injective _ _ (sym e ∙ h))),
        λ (item, m, c). e ∙ ap some (covered_wins why m c),
      )
