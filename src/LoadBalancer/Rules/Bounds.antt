-- ===== src/LoadBalancer/Rules/Bounds.antt =====
-- How large the modulus of a rule gets with the weights of normalizeScores.
use waok8s.Prelude.{
  ℕ, ◌+◌, ◌*◌, ◌≤◌, ◌<◌, ◌^◌, ◌≡◌, ap, ◌∙◌, inl, inr, List, [], ◌∷◌, Option, none, some, Text, Dict,
  In, here, there, lookup, lookup_or, text_eq, length, arith, Bool-cases, Option-cases,
}
use waok8s.Prelude.Int64.{ℤ, pos}
use waok8s.Prelude.Float.{Floats}
use waok8s.LoadBalancer.Weights.{normalize_scores}
use waok8s.LoadBalancer.Weights.Laws.{normalize_scores_range}
use waok8s.LoadBalancer.Rules.{EndpointInfo, wao_elements}
use waok8s.LoadBalancer.Rules.Weighted.{weight_of, weight_sum, elements-total}

lookup-In :
    {V : Type 0} (k : Text) (m : Dict V) (v : V) → lookup k m ≡ some v → (j : Text) × In (j, v) m
unfolding lookup
lookup-In k [] v e = absurd (ground arith)
lookup-In k ((j, w) ∷ m) v e = elim (Bool-cases (text_eq j k)) [
  | inl same ↦ (j, here (ap (λ x. (j, x)) (ground (arith, same, e))))
  | inr other ↦ let (i, t) = lookup-In k m v (ground (arith, other, e)) in (i, there t)
]

module _ (fl : Floats) (watts : Dict ℤ) where
  weight_of-le : (ep : Option EndpointInfo) → weight_of (normalize_scores fl watts) ep ≤ 100
  unfolding weight_of lookup_or
  weight_of-le none = omega arith
  weight_of-le (some ep) = elim (Option-cases (lookup ep.ip (normalize_scores fl watts))) [
    | inl e ↦ rw (e, weight_of, lookup_or) (omega arith)
    | inr (s, e) ↦
        let (j, i) = lookup-In ep.ip (normalize_scores fl watts) s e in
        let (n, k, mine, is_k, small) = normalize_scores_range fl watts j s i in
        rw (e, weight_of, lookup_or) (rw is_k small)
  ]

  pub weight_sum-le :
      (eps : List (Option EndpointInfo))
      → weight_sum (normalize_scores fl watts) eps ≤ 100 * length eps
  unfolding weight_sum
  weight_sum-le [] = omega arith
  weight_sum-le (ep ∷ eps) = omega (arith, weight_of-le ep, weight_sum-le eps)

  -- Whatever the floats do, with the weights of normalizeScores and less than 2^56 endpoints the total
  -- does not overflow: it is a natural number, of 100 for each endpoint at most.
  pub wao_elements-le :
      (eps : List (Option EndpointInfo))
      → length eps < 2 ^ 56
      → (n : ℕ) × ((wao_elements (normalize_scores fl watts) (pos 0) eps).1 ≡ pos n)
        × (n ≤ 100 * length eps)
  wao_elements-le eps b =
      let sum = weight_sum-le eps in
      let zero_plus : 0 + weight_sum (normalize_scores fl watts) eps
          ≡ weight_sum (normalize_scores fl watts) eps =
        omega arith in
      (
        weight_sum (normalize_scores fl watts) eps,
        elements-total (normalize_scores fl watts) 0 eps (omega (arith, b, sum)) ∙ ap pos zero_plus,
        sum,
      )
