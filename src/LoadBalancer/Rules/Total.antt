-- ===== src/LoadBalancer/Rules/Total.antt =====
-- The load balancing rule is written without a panic.
use waok8s.Prelude.{
  ◌+◌, ◌<◌, ◌^◌, ◌≡◌, ◌≢◌, refl, Bool, true, inl, inr, List, [], ◌∷◌, Option, none, some, Text,
  Dict, lookup, lookup_or, length, All, ltb, arith, Bool-cases, Option-cases,
}
use waok8s.Prelude.Int64.{ℤ, pos, negsuc}
use waok8s.Prelude.Float.{Floats}
use waok8s.LoadBalancer.Weights.{normalize_scores}
use waok8s.LoadBalancer.Rules.{
  EndpointInfo, Rule, ips, any_positive, balance_rule, write_service_to_endpoint_rules,
}
use waok8s.LoadBalancer.Rules.Bounds.{weight_sum-le}
use waok8s.LoadBalancer.Rules.Laws.{balance_rule-weights}
use waok8s.LoadBalancer.Rules.Weighted.{weight_of, weight_sum}

-- The endpoint is an `*endpointInfo`.
abbrev pub IsInfo : Option EndpointInfo → Type 0
IsInfo ep = ep ≢ none

-- If a score is positive, so is the sum of the weights.
any_positive-pos :
    (scores : Dict ℤ) (eps : List (Option EndpointInfo))
    → All IsInfo eps
    → any_positive scores (ips eps) ≡ true
    → 0 < weight_sum scores eps
unfolding any_positive ips weight_sum weight_of
any_positive-pos scores [] h e = cc
any_positive-pos scores (none ∷ eps) h e = absurd (h.0 refl)
any_positive-pos scores (some ep ∷ eps) h e =
    at_score (lookup_or (pos 0) ep.ip scores) refl (any_positive-pos scores eps h.1)
  where
    at_score :
        (s : ℤ)
        → lookup_or (pos 0) ep.ip scores ≡ s
        → (any_positive scores (ips eps) ≡ true → 0 < weight_sum scores eps)
        → 0 < weight_of scores (some ep) + weight_sum scores eps
    at_score (negsuc n) f rest =
        let q = rest (ground (arith, rw (f, any_positive) at e)) in omega (arith, q)
    at_score (pos n) f rest =
        let w : weight_of scores (some ep) ≡ n = rw (f, weight_of) refl in
        elim (Bool-cases (ltb 0 n)) [
          | inl positive ↦ let q : 0 < n = ground (arith, positive) in omega (arith, w, q)
          | inr zero_score ↦
              let q = rest (ground (arith, zero_score, rw (f, any_positive) at e)) in
              omega (arith, q)
        ]

-- With the weights of normalizeScores and less than 2^56 endpoints a rule is written.
pub balance_rule-total :
    (fl : Floats) (watts : Dict ℤ) (eps : List (Option EndpointInfo))
    → All IsInfo eps
    → length eps < 2 ^ 56
    → (rule : Rule) × (balance_rule (some (normalize_scores fl watts)) eps ≡ some rule)
unfolding balance_rule
balance_rule-total fl watts eps infos b =
    elim (Option-cases (balance_rule (some (normalize_scores fl watts)) eps)) [
      | inr written ↦ written
      | inl panic ↦ elim (Bool-cases (any_positive (normalize_scores fl watts) (ips eps))) [
        | inr none_positive ↦ absurd (ground (arith, none_positive, panic))
        | inl positive ↦
            let sum = weight_sum-le fl watts eps in
            let (ws, e, _) =
              balance_rule-weights (normalize_scores fl watts) eps 0 (omega (arith, b, sum))
                (any_positive-pos (normalize_scores fl watts) eps infos positive) in
            cc (panic, e)
      ]
    ]

-- Weights that normalizeScores has returned, for each service port.
abbrev pub AreNormalized : Floats → Dict (Dict ℤ) → Type 0
AreNormalized fl all_scores =
    (name : Text) (scores : Dict ℤ)
    → lookup name all_scores ≡ some scores
    → (watts : Dict ℤ) × (normalize_scores fl watts ≡ scores)

pub write-total :
    (fl : Floats) (all_scores : Dict (Dict ℤ)) (name family : Text) (client_ip : Bool)
    (eps : List (Option EndpointInfo))
    → AreNormalized fl all_scores
    → All IsInfo eps
    → length eps < 2 ^ 56
    → (rules : List Rule) × (write_service_to_endpoint_rules all_scores name family client_ip eps
        ≡ some rules)
unfolding write_service_to_endpoint_rules balance_rule
write-total fl all_scores name family client_ip eps normal infos b =
    elim (Option-cases (write_service_to_endpoint_rules all_scores name family client_ip eps)) [
      | inr written ↦ written
      | inl panic ↦ elim (Option-cases (lookup name all_scores)) [
        | inl n ↦ absurd (ground (arith, n, panic))
        | inr (scores, s) ↦
            let (watts, same) = normal name scores s in
            let (rule, e) = balance_rule-total fl watts eps infos b in
            let rule_of : balance_rule (lookup name all_scores) eps ≡ some rule =
              rw s (rw (← same) e) in
            cc (rw (rule_of, write_service_to_endpoint_rules) at panic)
      ]
    ]
