-- ===== src/LoadBalancer/Rules.antt =====
-- wao-loadbalancer/pkg/proxy/nftables/proxier.go: writeServiceToEndpointRules, which the project has
-- changed: the weights of WAOLB become ranges of the random number of an nftables rule.
pub mod Weighted
pub mod Laws
pub mod Bounds
pub mod Total
mod Tests
use waok8s.Prelude.{
  ℕ, suc, ◌+◌, ◌-◌, Bool, true, false, not, List, [], ◌∷◌, ◌++◌, Option, none, some, Text, Dict,
  lit, lookup, lookup_or, text_eq, length, ◌==◌, if◌then◌else◌,
}
use waok8s.Prelude.Int64.{ℤ, pos, ltb_ℤ, add64, sub64}

-- `endpointInfo`, with `IP()` and `String()`; an endpoint that is no `*endpointInfo` is `none`.
pub record EndpointInfo : Type 0 where
  pub ip : Text
  pub address : Text
  pub chain_name : Text
  pub affinity_set_name : Text

-- The words of the elements of a verdict map.
pub data Word : Type 0 where
  mod_range : ℤ → ℤ → Word
  number : ℕ → Word
  colon : Word
  goto : Text → Word
  comma : Word

-- The rules of a chain: `ipX saddr @set goto chain`, and `numgen random mod n vmap { … }`.
pub data Rule : Type 0 where
  affinity : Text → Text → Text → Rule
  balance : ℤ → List Word → Rule

-- The first loop.
unfoldable pub affinity_rules : Text → List (Option EndpointInfo) → List Rule
affinity_rules ip_x [] = []
affinity_rules ip_x (none ∷ eps) = affinity_rules ip_x eps
affinity_rules ip_x (some ep ∷ eps) =
    affinity ip_x ep.affinity_set_name ep.chain_name ∷ affinity_rules ip_x eps

-- `eps`, and the loop that looks for a positive score.
unfoldable pub ips : List (Option EndpointInfo) → List Text
ips [] = []
ips (none ∷ eps) = [] ∷ ips eps
ips (some ep ∷ eps) = ep.ip ∷ ips eps

unfoldable pub any_positive : Dict ℤ → List Text → Bool
unfolding lookup_or
any_positive scores [] = false
any_positive scores (ip ∷ rest) =
    if ltb_ℤ (pos 0) (lookup_or (pos 0) ip scores) then true else any_positive scores rest

-- The loop that makes the elements, from the total so far: the elements, and the total after it.
unfoldable pub wao_elements : Dict ℤ → ℤ → List (Option EndpointInfo) → List Word × ℤ
unfolding lookup add64 sub64
wao_elements scores total [] = ([], total)
wao_elements scores total (none ∷ eps) = wao_elements scores total eps
wao_elements scores total (some ep ∷ eps) = elim (lookup ep.ip scores) [
  | none ↦ wao_elements scores total eps
  | some score ↦ elim (ltb_ℤ (pos 0) score) [
    | false ↦ wao_elements scores total eps
    | true ↦
        let (elements, after) = wao_elements scores (add64 total score) eps in
        (
          mod_range total (sub64 (add64 total score) (pos 1))
              ∷ colon
              ∷ goto ep.chain_name
              ∷ comma
              ∷ elements,
          after,
        )
  ]
]

-- `elements[:len(elements)-1]`, which panics on an empty slice.
unfoldable pub drop_last : List Word → Option (List Word)
drop_last [] = none
drop_last (w ∷ []) = some []
drop_last (w ∷ v ∷ ws) = elim (drop_last (v ∷ ws)) [ none ↦ none | some r ↦ some (w ∷ r) ]

-- The loop of the fallback, from index `i` of `n`.
unfoldable pub fallback_elements : ℕ → ℕ → List (Option EndpointInfo) → List Word
fallback_elements n i [] = []
fallback_elements n i (none ∷ eps) = fallback_elements n (suc i) eps
fallback_elements n i (some ep ∷ eps) =
    number i
    ∷ colon
    ∷ goto ep.chain_name
    ∷ (if suc i == n
        then fallback_elements n (suc i) eps
        else comma ∷ fallback_elements n (suc i) eps)

-- The load balancing rule, for the scores of the service port if there are any.
unfoldable pub balance_rule : Option (Dict ℤ) → List (Option EndpointInfo) → Option Rule
unfolding ips any_positive wao_elements drop_last fallback_elements
balance_rule scores_of eps =
    let fallback = some (balance (pos (length eps)) (fallback_elements (length eps) 0 eps)) in
    elim scores_of [
      | none ↦ fallback
      | some scores ↦ elim (any_positive scores (ips eps)) [
        | false ↦ fallback
        | true ↦
            let (elements, total) = wao_elements scores (pos 0) eps in
            elim (drop_last elements) [ none ↦ none | some shorter ↦ some (balance total shorter) ]
      ]
    ]

-- `writeServiceToEndpointRules`: the rules that it adds to the chain; `none` is a panic.
unfoldable pub write_service_to_endpoint_rules :
    Dict (Dict ℤ) → Text → Text → Bool → List (Option EndpointInfo) → Option (List Rule)
unfolding affinity_rules balance_rule lookup text_eq
write_service_to_endpoint_rules all_scores svc_port_name ip_family client_ip eps =
    let ip_x = if text_eq ip_family (lit "IPv6") then lit "ip6" else lit "ip" in
    let first = if client_ip then affinity_rules ip_x eps else [] in
    elim (balance_rule (lookup svc_port_name all_scores) eps) [
      | none ↦ none
      | some rule ↦ some (first ++ rule ∷ [])
    ]
