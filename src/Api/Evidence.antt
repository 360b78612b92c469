-- ===== src/Api/Evidence.antt =====
-- sigmascope/api.py: `_evidence_from_rules`, `_evidence_from_gates` and `_provider_result`.
use sigmascope.Base.{List, map, ◌++◌, Text, lit}
use sigmascope.Model.{Gate, gate_text, ParseResult, Verdict, verdict_value}
use sigmascope.Evaluate.Resolver.{Evidence, ProviderResult}

unfoldable pub evidence_from_rules : ParseResult → List Evidence
evidence_from_rules parsed =
    map
      (λ rule. record {
        resource = rule.origin.resource;
        locator = rule.origin.locator;
        raw = rule.raw;
      })
      parsed.rules

unfoldable pub evidence_from_gates : List Gate → List Evidence
evidence_from_gates = map λ gate. record {
  resource = gate.origin.resource;
  locator = gate.origin.locator;
  raw = gate.key ++ (lit "=" ++ gate_text gate.value);
}

unfoldable pub provider_result : Text → Verdict × Text → List Evidence → ProviderResult
provider_result source_id (verdict, explanation) evidence = record {
  source_id = source_id;
  verdict = verdict_value verdict;
  explanation = explanation;
  evidence = evidence;
}
