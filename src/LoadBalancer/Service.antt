-- ===== src/LoadBalancer/Service.antt =====
-- wao-loadbalancer/pkg/proxy/nftables/wao.go: ScoreService and Score. The pieces of Score run one
-- after the other here; each writes only the key of its own service port.
pub mod Laws
pub mod Order
use waok8s.Prelude.{
  ℕ, List, [], ◌∷◌, Option, none, some, Text, Dict, text_eq, insert, lookup, lit, Result, ok, err,
  ◌>>=◌, or_fail, if◌then◌else◌,
}
use waok8s.Prelude.Int64.{ℤ, pos}
use waok8s.Prelude.Float.{Floats}
use waok8s.Kube.{NamespacedName}
use waok8s.LoadBalancer.ScoreNode.{NodeEnv, Stop, unscored, failed, panicked, score_node}
use waok8s.LoadBalancer.Weights.{normalize_scores}
use waok8s.LoadBalancer.SvcPort.{SvcPortName, decode_svc_port_name_string}

abbrev pub annotation_cpu_per_request : Text
annotation_cpu_per_request = lit "waok8s.github.io/cpu-per-request"

-- `discoveryv1.Endpoint` and `discoveryv1.EndpointSlice`
pub record Endpoint : Type 0 where
  pub node_name : Option Text
  pub addresses : List Text

pub record EndpointSlice : Type 0 where
  pub address_type : Text
  pub endpoints : List Endpoint

-- `corev1.Service`
pub record Service : Type 0 where
  pub namespace : Text
  pub name : Text
  pub annotations : Dict Text

-- The API server, and the quantities: `parse_quantity` is `resource.ParseQuantity` followed by
-- `AsApproximateFloat64`, and `default_cpu` is `defaultCPUPerRequest`.
pub record ServiceEnv (F : Type 0) : Type 0 where
  pub nodes : NodeEnv F
  pub service : NamespacedName → Option Service
  pub endpoint_slices : Text → Text → Option (List EndpointSlice)
  pub parse_quantity : Text → Option F
  pub default_cpu : F

-- The first slice of the IP family.
unfoldable pub slice_of : Text → List EndpointSlice → Option EndpointSlice
unfolding text_eq
slice_of family [] = none
slice_of family (e ∷ es) = if text_eq e.address_type family then some e else slice_of family es

-- `watts[addr] = watt` for each address.
unfoldable pub add_addresses : ℤ → List Text → Dict ℤ → Dict ℤ
unfolding insert
add_addresses watt [] watts = watts
add_addresses watt (addr ∷ addrs) watts = add_addresses watt addrs (insert addr watt watts)

-- What the loop does with the outcome of `ScoreNode`.
unfoldable pub add_endpoint : Result Stop ℤ → List Text → Dict ℤ → Result Stop (Dict ℤ)
unfolding add_addresses
add_endpoint (ok watt) addrs watts = ok (add_addresses watt addrs watts)
add_endpoint (err unscored) addrs watts = ok (add_addresses (pos 0) addrs watts)
add_endpoint (err failed) addrs watts = ok watts
add_endpoint (err panicked) addrs watts = err panicked

-- `var nodeName string`, and the node's name if there is one.
abbrev pub node_name_of : Endpoint → Text
node_name_of ep = elim ep.node_name [ none ↦ [] | some name ↦ name ]

-- What one piece of `Score` does with the outcome of `ScoreService`.
unfoldable pub store_scores :
    Text → Result Stop (Dict ℤ) → Dict (Dict ℤ) → Result Stop (Dict (Dict ℤ))
unfolding insert
store_scores name (ok []) all = ok all
store_scores name (ok (s ∷ scores)) all = ok (insert name (s ∷ scores) all)
store_scores name (err panicked) all = err panicked
store_scores name (err _) all = ok all

module _ (fl : Floats) (env : ServiceEnv fl.F) (ip_family format : Text) where
  open fl use {F}

  -- The loop over the endpoints.
  unfoldable pub watts_of : F → Dict ℤ → List Endpoint → Result Stop (Dict ℤ)
  unfolding add_endpoint score_node
  watts_of cpu watts [] = ok watts
  watts_of cpu watts (ep ∷ eps) =
      add_endpoint (score_node fl env.nodes format (node_name_of ep) cpu) ep.addresses watts
      >>= λ watts'. watts_of cpu watts' eps

  -- `cpuPerRequest`: a missing annotation reads as the empty string.
  unfoldable pub cpu_per_request : Service → F
  unfolding lookup
  cpu_per_request svc =
      let value : Text = elim (lookup annotation_cpu_per_request svc.annotations) [
        | none ↦ []
        | some v ↦ v
      ] in
      elim (env.parse_quantity value) [ none ↦ env.default_cpu | some cpu ↦ cpu ]

  -- `ScoreService`
  unfoldable pub score_service : NamespacedName → Result Stop (Dict ℤ)
  unfolding slice_of watts_of cpu_per_request normalize_scores
  score_service svc_name = do
    svc ← or_fail (env.service svc_name) failed
    slices ← or_fail (env.endpoint_slices svc.namespace svc.name) failed
    es ← or_fail (slice_of ip_family slices) failed
    watts ← watts_of (cpu_per_request svc) [] es.endpoints
    ok (normalize_scores fl watts)

  -- The pieces of `Score`, from the scores so far.
  unfoldable pub score_from : Dict (Dict ℤ) → List Text → Result Stop (Dict (Dict ℤ))
  unfolding store_scores decode_svc_port_name_string score_service
  score_from all [] = ok all
  score_from all (name ∷ names) =
      let decoded = decode_svc_port_name_string name in
      store_scores name
        (score_service (record { namespace = decoded.namespace; name = decoded.svc_name })) all
      >>= λ all'. score_from all' names

  -- `Score`, which clears the scores first.
  unfoldable pub score : List Text → Result Stop (Dict (Dict ℤ))
  unfolding score_from
  score names = score_from [] names
