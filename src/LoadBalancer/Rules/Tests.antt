-- ===== src/LoadBalancer/Rules/Tests.antt =====
-- The rules of a Service with two scored endpoints, one of score 0, and one without a score.
use waok8s.Prelude.{
  ◌≤◌, ◌*◌, length, ◌≡◌, refl, [], ◌∷◌, List, Option, none, some, Text, Dict, lit, false, true,
  arith, ◌^◌, ℕ,
}
use waok8s.Prelude.Int64.{ℤ, pos}
use waok8s.LoadBalancer.Rules.{
  wao_elements, EndpointInfo, Word, mod_range, number, colon, goto, comma, affinity, balance,
  balance_rule, write_service_to_endpoint_rules,
}
use waok8s.LoadBalancer.Rules.Weighted.{weight_of, weight_sum, pick, pick_weighted}
use waok8s.Samples.{whole}
use waok8s.LoadBalancer.Weights.{normalize_scores}
use waok8s.LoadBalancer.Rules.Bounds.{wao_elements-le}
use waok8s.LoadBalancer.Rules.Laws.{balance_rule-weights}

abbrev endpoint : Text → Text → Option EndpointInfo
endpoint ip chain =
    some (record { ip = ip; address = ip; chain_name = chain; affinity_set_name = lit "set" })

abbrev four : List (Option EndpointInfo)
four =
    endpoint (lit "10.0.0.1") (lit "a")
    ∷ endpoint (lit "10.0.0.2") (lit "b")
    ∷ endpoint (lit "10.0.0.3") (lit "c")
    ∷ endpoint (lit "10.0.0.4") (lit "d")
    ∷ []

abbrev four_scores : Dict ℤ
four_scores = (lit "10.0.0.1", pos 50) ∷ (lit "10.0.0.2", pos 0) ∷ (lit "10.0.0.4", pos 100) ∷ []

four_rules :
    write_service_to_endpoint_rules
      ((lit "ns/web", four_scores) ∷ [])
      (lit "ns/web")
      (lit "IPv4")
      true
      (endpoint (lit "10.0.0.1") (lit "a") ∷ none ∷ [])
    ≡ some (
        affinity (lit "ip") (lit "set") (lit "a")
        ∷ balance (pos 50) (mod_range (pos 0) (pos 49) ∷ colon ∷ goto (lit "a") ∷ [])
        ∷ [])
unfolding write_service_to_endpoint_rules
four_rules = refl

fallback_rules :
    write_service_to_endpoint_rules []
      (lit "ns/web")
      (lit "IPv6")
      false
      (endpoint (lit "::1") (lit "a") ∷ endpoint (lit "::2") (lit "b") ∷ [])
    ≡ some (
        balance
          (pos 2)
          (number 0 ∷ colon ∷ goto (lit "a") ∷ comma ∷ number 1 ∷ colon ∷ goto (lit "b") ∷ [])
        ∷ [])
unfolding write_service_to_endpoint_rules
fallback_rules = refl

four_sum : weight_sum four_scores four ≡ 150
unfolding weight_sum weight_of waok8s.Prelude.text_eq
four_sum = refl

balance_rule-weights_example :
    (ws : List Word) × (balance_rule (some four_scores) four
      ≡ some (balance (pos (weight_sum four_scores four)) ws))
    × ((c : Text) × (pick ws 50 ≡ some c) × (pick_weighted four_scores four 50 ≡ some c))
balance_rule-weights_example =
    balance_rule-weights four_scores four 50 (omega (arith, four_sum)) (omega (arith, four_sum))

wao_elements-le_example :
    (n : ℕ) × ((wao_elements
        (normalize_scores whole ((lit "10.0.0.1", pos 3) ∷ (lit "10.0.0.4", pos 7) ∷ []))
        (pos 0)
        four).1
      ≡ pos n)
    × (n ≤ 100 * length four)
wao_elements-le_example =
    wao_elements-le whole ((lit "10.0.0.1", pos 3) ∷ (lit "10.0.0.4", pos 7) ∷ []) four
      (ground arith)
