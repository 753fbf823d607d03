-- ===== src/LoadBalancer/ScoreNode.antt =====
-- wao-loadbalancer/pkg/proxy/nftables/wao.go: ScoreNode, the watts that one more request costs a node.
pub mod Outcome
use waok8s.Prelude.{
  ℕ, Bool, true, false, ◌||◌, List, [], ◌∷◌, Option, none, some, Text, lit, text_eq, Result, ok,
  err, ◌>>=◌, or_fail, if◌then◌else◌,
}
use waok8s.Prelude.Int64.{ℤ, pos, ltb_ℤ}
use waok8s.Prelude.Float.{Floats}
use waok8s.Kube.{Node, Container}
use waok8s.NodeApi.{NodeConfig, EndpointTerm}

abbrev pub cpu_usage_format_raw : Text
cpu_usage_format_raw = lit "Raw"

abbrev pub cpu_usage_format_percent : Text
cpu_usage_format_percent = lit "Percent"

-- The answers at one moment. A call with an error is `none`; a pointer that may be nil is an `Option`
-- of its own.
pub record NodeEnv (F : Type 0) : Type 0 where
  -- `ctrlclient.Get` of a Node
  pub node : Text → Option (Node F)
  -- `GetNodeMetrics(...).Usage.Cpu().AsApproximateFloat64()`
  pub node_usage : Text → Option (Option F)
  -- `GetCustomMetricForNode(...).Value.AsApproximateFloat64()`
  pub inlet_temp : Text → Option (Option F)
  pub delta_p : Text → Option (Option F)
  -- `ctrlclient.List`
  pub node_configs : Option (List NodeConfig)
  -- `GetPredictorEndpoint(ns, ep, TypePowerConsumption)`
  pub predictor_endpoint : Text → EndpointTerm → Option (Option EndpointTerm)
  -- `PredictPowerConsumption(ns, ep, cpuUsage, inletTemp, deltaP)`
  pub predict : Text → EndpointTerm → F → F → F → Option F

-- How `ScoreNode` ends before its last line: it returns 0 without an error, it returns an error, or
-- it dereferences nil.
pub data Stop : Type 0 where
  unscored failed panicked : Stop

-- The first NodeConfig of the node.
unfoldable pub config_of : Text → List NodeConfig → Option NodeConfig
unfolding text_eq
config_of name [] = none
config_of name (nc ∷ ncs) = if text_eq nc.spec.node_name name then some nc else config_of name ncs

abbrev pub no_term : EndpointTerm
no_term = record { type_ = []; endpoint = []; basic_auth_secret = none; fetch_interval = none }

module _ (fl : Floats) where
  open fl use {F, zero_f, add, sub, mul, div, eqb, of_int, to_int}

  -- `PodCPURequestOrLimit`, the copy of wao-loadbalancer: the loop over the containers.
  unfoldable pub request_or_limit : F → List (Container F) → F
  request_or_limit v [] = v
  request_or_limit v (c ∷ cs) =
      request_or_limit (add v (if eqb c.requests_cpu zero_f then c.limits_cpu else c.requests_cpu))
        cs

  -- The containers of `virtualPod`: the absent limit reads as 0.
  abbrev pub virtual_pod : F → List (Container F)
  virtual_pod cpu_usage = record { requests_cpu = cpu_usage; limits_cpu = zero_f } ∷ []

  -- The switch on `CPUUsageFormat`, for one of the two usages.
  unfoldable pub formatted : Text → F → F → F
  unfolding text_eq
  formatted format capacity usage =
      if text_eq format cpu_usage_format_raw
      then usage
      else if text_eq format cpu_usage_format_percent
      then mul (div usage capacity) (of_int (pos 100))
      else usage

  -- `// init predictor endpoint`
  unfoldable pub endpoint_of : NodeEnv F → NodeConfig → Result Stop EndpointTerm
  endpoint_of env nc =
      let own : EndpointTerm = elim nc.spec.predictor.power_consumption [
        | none ↦ no_term
        | some ep ↦ ep
      ] in
      elim nc.spec.predictor.power_consumption_endpoint_provider [
        | none ↦ ok own
        | some provider ↦ do
          answer ← or_fail (env.predictor_endpoint nc.namespace provider) failed
          ep2 ← or_fail answer unscored
          ok (record own { type_ = ep2.type_; endpoint = ep2.endpoint })
      ]

  -- `// do predict`
  unfoldable pub predicted : NodeEnv F → NodeConfig → EndpointTerm → F → F → F → F → Result Stop ℤ
  predicted env nc ep before after inlet delta = do
    before_watt ← or_fail (env.predict nc.namespace ep before inlet delta) failed
    after_watt ← or_fail (env.predict nc.namespace ep after inlet delta) failed
    let power_consumption = to_int (sub after_watt before_watt)
    ok (if ltb_ℤ power_consumption (pos 0) then pos 0 else power_consumption)

  -- `ScoreNode` from the custom metrics on.
  unfoldable pub score_usage : NodeEnv F → Text → F → F → Result Stop ℤ
  unfolding config_of endpoint_of predicted
  score_usage env node_name before after = do
    inlet_ptr ← or_fail (env.inlet_temp node_name) failed
    delta_ptr ← or_fail (env.delta_p node_name) failed
    inlet ← or_fail inlet_ptr unscored
    delta ← or_fail delta_ptr unscored
    ncs ← or_fail env.node_configs failed
    nc ← or_fail (config_of node_name ncs) unscored
    ep ← endpoint_of env nc
    predicted env nc ep before after inlet delta

  -- `ScoreNode`
  unfoldable pub score_node : NodeEnv F → Text → Text → F → Result Stop ℤ
  unfolding request_or_limit formatted score_usage
  score_node env format node_name cpu_usage = do
    node ← or_fail (env.node node_name) failed
    usage_ptr ← or_fail (env.node_usage node.name) failed
    usage ← or_fail usage_ptr panicked
    let before = add usage zero_f
    let after = add before (request_or_limit zero_f (virtual_pod cpu_usage))
    let rest =
        score_usage env node_name (formatted format node.capacity_cpu before)
          (formatted format node.capacity_cpu after)
    if eqb before after then err unscored else rest
