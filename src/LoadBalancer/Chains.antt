-- ===== src/LoadBalancer/Chains.antt =====
-- wao-loadbalancer/pkg/proxy/nftables/proxier.go: the part of syncProxyRules for one service port, on
-- the chains that it makes. The rules of the chains of external traffic and of the firewall, and the
-- elements of maps and sets, are left out: they stand in other chains, or in none.
pub mod Laws
pub mod Contents
pub mod Round
use waok8s.Prelude.{
  ◌≡◌, ℕ, Bool, true, false, not, ◌&&◌, List, [], ◌∷◌, ◌++◌, Option, none, some, Text, Dict, lit,
  text_eq, map, any, if◌then◌else◌,
}
use waok8s.Prelude.Int64.{ℤ}
use waok8s.Kube.{NamespacedName}
use waok8s.LoadBalancer.Rules.{EndpointInfo, Rule, write_service_to_endpoint_rules}
use waok8s.LoadBalancer.Tables.{
  Command, add_chain, flush_chain, add_rule, ChainRule, balancing, mark_internal, mark_hairpin,
  update_affinity, dnat,
}

-- `servicePortInfo`, with the results of its methods.
pub record ServiceInfo : Type 0 where
  pub name_string : Text
  pub protocol : Text
  pub cluster_ip : Text
  pub port : ℕ
  pub client_ip : Bool
  pub cluster_policy_chain : Text
  pub local_policy_chain : Text
  pub external_chain : Text
  pub firewall_chain : Text
  pub uses_cluster_endpoints : Bool
  pub uses_local_endpoints : Bool
  pub internal_policy_local : Bool
  pub externally_accessible : Bool
  pub has_vips : Bool
  pub has_source_ranges : Bool

-- What `CategorizeEndpoints` returns.
pub record Categories : Type 0 where
  pub cluster : List (Option EndpointInfo)
  pub local_endpoints : List (Option EndpointInfo)
  pub all_reachable : List (Option EndpointInfo)
  pub has_endpoints : Bool

-- The fields of the proxier that stay the same: `masqueradeAll`, and the words of the local detector,
-- if it is implemented.
pub record Settings : Type 0 where
  pub ip_family : Text
  pub masquerade_all : Bool
  pub local_detector : Option Text

-- The transaction so far, and `activeChains`.
pub record Log : Type 0 where
  pub tx : List Command
  pub active : List Text

unfoldable pub has : List Text → Text → Bool
unfolding text_eq
has [] c = false
has (d ∷ ds) c = if text_eq d c then true else has ds c

-- `ensureChain`
unfoldable pub ensure_chain : Bool → Text → Log → Log
unfolding has
ensure_chain skip c log = if has log.active c then log else record {
  tx = if skip then log.tx else log.tx ++ add_chain c ∷ flush_chain c ∷ [];
  active = c ∷ log.active;
}

unfoldable pub ensure_if : Bool → Bool → Text → Log → Log
unfolding ensure_chain
ensure_if used skip c log = if used then ensure_chain skip c log else log

-- The chains of the endpoints that can be reached from here.
unfoldable pub ensure_endpoints : Bool → List (Option EndpointInfo) → Log → Log
unfolding ensure_chain
ensure_endpoints skip [] log = log
ensure_endpoints skip (none ∷ eps) log = ensure_endpoints skip eps log
ensure_endpoints skip (some ep ∷ eps) log =
    ensure_endpoints skip eps (ensure_chain skip ep.chain_name log)

unfoldable pub is_nonempty : List (Option EndpointInfo) → Bool
is_nonempty [] = false
is_nonempty (ep ∷ eps) = true

-- `usesClusterPolicyChain` and its like
unfoldable pub uses_cluster_policy_chain : ServiceInfo → Categories → Bool
unfolding is_nonempty
uses_cluster_policy_chain svc cat = is_nonempty cat.cluster && svc.uses_cluster_endpoints

unfoldable pub uses_local_policy_chain : ServiceInfo → Categories → Bool
unfolding is_nonempty
uses_local_policy_chain svc cat = is_nonempty cat.local_endpoints && svc.uses_local_endpoints

unfoldable pub uses_external_traffic_chain : ServiceInfo → Categories → Bool
uses_external_traffic_chain svc cat = cat.has_endpoints && svc.externally_accessible

unfoldable pub uses_firewall_chain : ServiceInfo → Bool
uses_firewall_chain svc = svc.has_vips && svc.has_source_ranges

-- `internalTrafficChain` and `hasInternalEndpoints`
unfoldable pub internal_traffic_chain : ServiceInfo → Text
internal_traffic_chain svc =
    if svc.internal_policy_local then svc.local_policy_chain else svc.cluster_policy_chain

unfoldable pub has_internal_endpoints : ServiceInfo → Categories → Bool
unfolding is_nonempty
has_internal_endpoints svc cat =
    if svc.internal_policy_local && not (is_nonempty cat.local_endpoints)
    then false
    else cat.has_endpoints

-- The chains that are made, in the order of the code.
unfoldable pub ensure_chains : Bool → ServiceInfo → Categories → Log → Log
ensure_chains skip svc cat log = ensure_if (uses_firewall_chain svc) skip svc.firewall_chain (
    ensure_if (uses_external_traffic_chain svc cat) skip svc.external_chain (
      ensure_if (uses_local_policy_chain svc cat) skip svc.local_policy_chain (
        ensure_if (uses_cluster_policy_chain svc cat) skip svc.cluster_policy_chain
          (ensure_endpoints skip cat.all_reachable log))))

unfoldable pub ip_x : Settings → Text
unfolding text_eq
ip_x cfg = if text_eq cfg.ip_family (lit "IPv6") then lit "ip6" else lit "ip"

-- The masquerading of internal traffic.
unfoldable pub internal_rules : Settings → ServiceInfo → Categories → List ChainRule
unfolding has_internal_endpoints ip_x
internal_rules cfg svc cat =
    let rule = λ (detector : Option Text).
      mark_internal (ip_x cfg) svc.cluster_ip svc.protocol svc.port detector in
    if has_internal_endpoints svc cat
    then (if cfg.masquerade_all
        then rule none ∷ []
        else elim cfg.local_detector [ none ↦ [] | some words ↦ rule (some words) ∷ [] ])
    else []

-- The rules of one endpoint's chain.
unfoldable pub endpoint_rules : Settings → ServiceInfo → EndpointInfo → List ChainRule
unfolding ip_x
endpoint_rules cfg svc ep =
    mark_hairpin (ip_x cfg) ep.ip
      ∷ (if svc.client_ip then update_affinity ep.affinity_set_name (ip_x cfg) ∷ [] else [])
    ++ dnat svc.protocol ep.address ∷ []

unfoldable pub add_rules : Text → List ChainRule → List Command
add_rules c rules = map (add_rule c) rules

unfoldable pub add_endpoint_rules :
    Settings → ServiceInfo → List (Option EndpointInfo) → List Command
unfolding add_rules endpoint_rules
add_endpoint_rules cfg svc [] = []
add_endpoint_rules cfg svc (none ∷ eps) = add_endpoint_rules cfg svc eps
add_endpoint_rules cfg svc (some ep ∷ eps) =
    add_rules ep.chain_name (endpoint_rules cfg svc ep) ++ add_endpoint_rules cfg svc eps

-- A call of `writeServiceToEndpointRules` for a policy chain, if it is used; `none` is a panic.
unfoldable pub add_policy_rules :
    Settings
    → Dict (Dict ℤ)
    → ServiceInfo
    → Bool
    → Text
    → List (Option EndpointInfo)
    → Option (List Command)
unfolding write_service_to_endpoint_rules add_rules
add_policy_rules cfg all_scores svc used chain eps =
    if used
    then elim (write_service_to_endpoint_rules all_scores svc.name_string cfg.ip_family
        svc.client_ip eps) [
          | none ↦ none
          | some rules ↦ some (add_rules chain (map balancing rules))
        ]
    else some []

-- The rules of a service port that is not skipped.
unfoldable pub service_rules :
    Settings → Dict (Dict ℤ) → ServiceInfo → Categories → Option (List Command)
unfolding add_rules internal_rules internal_traffic_chain add_policy_rules uses_cluster_policy_chain
    uses_local_policy_chain add_endpoint_rules
service_rules cfg all_scores svc cat =
    elim (add_policy_rules cfg all_scores svc (uses_cluster_policy_chain svc cat)
      svc.cluster_policy_chain cat.cluster) [
        | none ↦ none
        | some cluster_rules ↦
            elim (add_policy_rules cfg all_scores svc (uses_local_policy_chain svc cat)
              svc.local_policy_chain cat.local_endpoints) [
                | none ↦ none
                | some local_rules ↦ some (
                    add_rules (internal_traffic_chain svc) (internal_rules cfg svc cat)
                    ++ (cluster_rules
                        ++ (local_rules ++ add_endpoint_rules cfg svc cat.all_reachable)))
              ]
      ]

-- One round of the loop over the service ports.
unfoldable pub sync_service :
    Settings → Dict (Dict ℤ) → Bool → ServiceInfo → Categories → Log → Option Log
sync_service cfg all_scores skip svc cat log =
    let made = ensure_chains skip svc cat log in
    if skip then some made else elim (service_rules cfg all_scores svc cat) [
      | none ↦ none
      | some rules ↦ some (record made { tx = made.tx ++ rules })
    ]
