-- ===== src/LoadBalancer/Chains/Contents.antt =====
-- The rules that one round of the loop over the service ports leaves in the two policy chains, against
-- a description of them.
use mathlib.Core.List.{append-nil, append_assoc}
use waok8s.Prelude.{
  ◌≡◌, ◌≢◌, inl, inr, refl, ap, ◌∙◌, Bool, true, false, not, List, [], ◌∷◌, ◌++◌, Option, none,
  some, Text, Dict, text_eq, text_eq_self, map, All, if◌then◌else◌, arith, Bool-cases, Option-cases,
}
use waok8s.Prelude.Int64.{ℤ}
use waok8s.LoadBalancer.Rules.{EndpointInfo, Rule, write_service_to_endpoint_rules}
use waok8s.LoadBalancer.Tables.{Command, ChainRule, balancing, replay, replay-append}
use waok8s.LoadBalancer.Chains.{
  ServiceInfo, Categories, Settings, uses_cluster_policy_chain, uses_local_policy_chain,
  internal_traffic_chain, internal_rules, endpoint_rules, add_rules, add_endpoint_rules,
  add_policy_rules, service_rules,
}
use waok8s.LoadBalancer.Chains.Laws.{text_ne, ChainNe}

-- The two traffic policies, with the chain, the endpoints and the use of each.
pub data Policy : Type 0 where
  cluster_policy local_policy : Policy

unfoldable pub chain_for : ServiceInfo → Policy → Text
chain_for svc cluster_policy = svc.cluster_policy_chain
chain_for svc local_policy = svc.local_policy_chain

unfoldable pub endpoints_for : Categories → Policy → List (Option EndpointInfo)
endpoints_for cat cluster_policy = cat.cluster
endpoints_for cat local_policy = cat.local_endpoints

unfoldable pub is_used : ServiceInfo → Categories → Policy → Bool
unfolding uses_cluster_policy_chain uses_local_policy_chain
is_used svc cat cluster_policy = uses_cluster_policy_chain svc cat
is_used svc cat local_policy = uses_local_policy_chain svc cat

unfoldable pub is_internal : ServiceInfo → Policy → Bool
is_internal svc cluster_policy = not svc.internal_policy_local
is_internal svc local_policy = svc.internal_policy_local

-- What the chain is meant to hold: the marks of internal traffic, where internal traffic takes this
-- chain, and then the rules of `writeServiceToEndpointRules`.
unfoldable pub policy_content :
    Settings → Dict (Dict ℤ) → ServiceInfo → Categories → Policy → Option (List ChainRule)
unfolding endpoints_for is_internal
policy_content cfg all_scores svc cat p =
    elim (write_service_to_endpoint_rules all_scores svc.name_string cfg.ip_family svc.client_ip
      (endpoints_for cat p)) [
        | none ↦ none
        | some rules ↦
            some (
              (if is_internal svc p then internal_rules cfg svc cat else []) ++ map balancing rules)
      ]

-- The chains of one service are different ones.
pub record IsApart (svc : ServiceInfo) (cat : Categories) : Type 0 where
  pub policies_differ : svc.cluster_policy_chain ≢ svc.local_policy_chain
  pub cluster_apart : All (ChainNe svc.cluster_policy_chain) cat.all_reachable
  pub local_apart : All (ChainNe svc.local_policy_chain) cat.all_reachable

module _ (c : Text) where
  pub replay-add_rules :
      (d : Text) (added rules : List ChainRule)
      → replay c (add_rules d added) rules ≡ (if text_eq d c then rules ++ added else rules)
  unfolding replay add_rules
  replay-add_rules d [] rules = elim (Bool-cases (text_eq d c)) [
    | inl same ↦ rw (same, append-nil) refl
    | inr other ↦ rw other refl
  ]
  replay-add_rules d (r ∷ added) rules = replay-add_rules d added _ ∙ at_test (text_eq d c)
    where
      at_test :
          (b : Bool)
          → (if b
              then (if b then rules ++ r ∷ [] else rules) ++ added
              else (if b then rules ++ r ∷ [] else rules))
            ≡ (if b then rules ++ r ∷ added else rules)
      at_test true = append_assoc rules (r ∷ []) added
      at_test false = refl

  pub replay-add_endpoint_rules :
      (cfg : Settings) (svc : ServiceInfo) (eps : List (Option EndpointInfo))
      (rules : List ChainRule)
      → All (ChainNe c) eps
      → replay c (add_endpoint_rules cfg svc eps) rules ≡ rules
  unfolding replay add_endpoint_rules
  replay-add_endpoint_rules cfg svc [] rules h = refl
  replay-add_endpoint_rules cfg svc (none ∷ eps) rules h =
      replay-add_endpoint_rules cfg svc eps rules h.1
  replay-add_endpoint_rules cfg svc (some ep ∷ eps) rules h =
      replay-append c (add_rules ep.chain_name (endpoint_rules cfg svc ep)) _ rules
      ∙ rw (replay-add_rules, text_ne ep.chain_name c h.0)
          (replay-add_endpoint_rules cfg svc eps rules h.1)

  pub replay-add_policy_rules :
      (cfg : Settings) (all_scores : Dict (Dict ℤ)) (svc : ServiceInfo) (used : Bool) (d : Text)
      (eps : List (Option EndpointInfo)) (cmds : List Command) (rules : List ChainRule)
      → add_policy_rules cfg all_scores svc used d eps ≡ some cmds
      → d ≢ c
      → replay c cmds rules ≡ rules
  unfolding add_policy_rules replay
  replay-add_policy_rules cfg all_scores svc false d eps cmds rules e n =
      let nothing : [] ≡ cmds = ground arith in rw (← nothing) refl
  replay-add_policy_rules cfg all_scores svc true d eps cmds rules e n =
      elim (Option-cases (
        write_service_to_endpoint_rules all_scores svc.name_string cfg.ip_family svc.client_ip
          eps)) [
            | inl panic ↦ absurd (ground (arith, panic, e))
            | inr (written, w) ↦
                let these : add_rules d (map balancing written) ≡ cmds = ground (arith, w, e) in
                rw (← these)
                  (replay-add_rules d (map balancing written) rules ∙ rw (text_ne d c n) refl)
          ]

-- A policy chain that is used gets the rules of its endpoints.
pub add_policy_rules-used :
    (cfg : Settings) (all_scores : Dict (Dict ℤ)) (svc : ServiceInfo) (used : Bool) (c : Text)
    (eps : List (Option EndpointInfo)) (cmds : List Command)
    → add_policy_rules cfg all_scores svc used c eps ≡ some cmds
    → used ≡ true
    → (written : List Rule) × (write_service_to_endpoint_rules all_scores svc.name_string
          cfg.ip_family svc.client_ip eps
        ≡ some written)
      × ((rules : List ChainRule) → replay c cmds rules ≡ rules ++ map balancing written)
unfolding add_policy_rules
add_policy_rules-used cfg all_scores svc false c eps cmds e u = cc
add_policy_rules-used cfg all_scores svc true c eps cmds e u =
    elim (Option-cases (
      write_service_to_endpoint_rules all_scores svc.name_string cfg.ip_family svc.client_ip eps)) [
        | inl panic ↦ absurd (ground (arith, panic, e))
        | inr (written, w) ↦
            let these : add_rules c (map balancing written) ≡ cmds = ground (arith, w, e) in
            (
              written,
              w,
              λ rules.
                  rw (← these)
                    (replay-add_rules c c (map balancing written) rules ∙ rw (text_eq_self c) refl),
            )
      ]

-- The commands of a service, in their four parts.
module _ (cfg : Settings) (all_scores : Dict (Dict ℤ)) (svc : ServiceInfo) (cat : Categories) where
  abbrev pub parts : List Command → List Command → List Command
  parts at_cluster at_local =
      add_rules (internal_traffic_chain svc) (internal_rules cfg svc cat)
      ++ (at_cluster ++ (at_local ++ add_endpoint_rules cfg svc cat.all_reachable))

  pub service_rules-parts :
      (cmds : List Command)
      → service_rules cfg all_scores svc cat ≡ some cmds
      → (at_cluster at_local : List Command) × (add_policy_rules cfg all_scores svc
            (uses_cluster_policy_chain svc cat)
            svc.cluster_policy_chain
            cat.cluster
          ≡ some at_cluster)
        × (add_policy_rules cfg all_scores svc
              (uses_local_policy_chain svc cat)
              svc.local_policy_chain
              cat.local_endpoints
            ≡ some at_local)
        × (cmds ≡ parts at_cluster at_local)
  unfolding service_rules
  service_rules-parts cmds e =
      elim (Option-cases (
        add_policy_rules cfg all_scores svc (uses_cluster_policy_chain svc cat)
          svc.cluster_policy_chain cat.cluster)) [
            | inl n ↦ absurd (ground (arith, n, e))
            | inr (at_cluster, p) ↦
                elim (Option-cases (
                  add_policy_rules cfg all_scores svc (uses_local_policy_chain svc cat)
                    svc.local_policy_chain cat.local_endpoints)) [
                      | inl n ↦ absurd (ground (arith, n, p, e))
                      | inr (at_local, q) ↦ (at_cluster, at_local, p, q, ground (arith, p, q, e))
                    ]
          ]

  -- The rules of a chain after the parts.
  pub replay-parts :
      (c : Text) (at_cluster at_local : List Command) (rules : List ChainRule)
      → All (ChainNe c) cat.all_reachable
      → replay c (parts at_cluster at_local) rules
        ≡ replay c at_local (
            replay c at_cluster (
              if text_eq (internal_traffic_chain svc) c
              then rules ++ internal_rules cfg svc cat
              else rules))
  replay-parts c at_cluster at_local rules apart =
      replay-append c (add_rules (internal_traffic_chain svc) (internal_rules cfg svc cat)) _ rules
      ∙ replay-append c at_cluster _ _
      ∙ replay-append c at_local _ _
      ∙ replay-add_endpoint_rules c cfg svc cat.all_reachable _ apart
      ∙ ap (λ r. replay c at_local (replay c at_cluster r))
          (replay-add_rules c (internal_traffic_chain svc) (internal_rules cfg svc cat) rules)
