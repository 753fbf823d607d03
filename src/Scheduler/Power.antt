-- ===== src/Scheduler/Power.antt =====
-- wao-scheduler/pkg/plugins/minimizepower: the arguments of the plugin (types.go) and its Score
-- (minimizepower.go). What Score asks of the cluster and of the cached clients is an argument.
pub mod Outcome
pub mod Cases
pub mod Tests
pub mod Args
use waok8s.Prelude.{
  ℕ, Bool, true, false, ◌||◌, not, List, [], ◌∷◌, Option, none, some, Text, lit, text_eq, Result,
  ok, err, ◌>>=◌, or_fail, if◌then◌else◌,
}
use waok8s.Prelude.Int64.{ℤ, pos, ltb_ℤ}
use waok8s.Prelude.Float.{Floats}
use waok8s.Kube.{Node, Pod, PodPhase, Container}
use waok8s.NodeApi.{NodeConfig, EndpointTerm}
use waok8s.Scheduler.Normalize.{score_error, score_max}

abbrev pub cpu_usage_format_raw : Text
cpu_usage_format_raw = lit "Raw"

abbrev pub cpu_usage_format_percent : Text
cpu_usage_format_percent = lit "Percent"

-- `MinimizePowerArgs`: durations in nanoseconds.
pub record MinimizePowerArgs (F : Type 0) : Type 0 where
  pub metrics_cache_ttl : ℤ
  pub predictor_cache_ttl : ℤ
  pub pod_usage_assumption : F
  pub cpu_usage_format : Text

-- `framework.NodeInfo`
pub record NodeInfo (F : Type 0) : Type 0 where
  pub node : Node F
  pub pods : List (Pod F)

-- The answers at one moment. A call with an error is `none`; a pointer that may be nil is an `Option`
-- of its own.
pub record PowerEnv (F : Type 0) : Type 0 where
  pub node_info : Text → Option (NodeInfo F)
  -- `GetNodeMetrics(...).Usage.Cpu().AsApproximateFloat64()`
  pub node_usage : Text → Option (Option F)
  -- `GetCustomMetricForNode(...).Value.AsApproximateFloat64()`
  pub inlet_temp : Text → Option (Option F)
  pub delta_p : Text → Option (Option F)
  -- `ctrlclient.List`
  pub node_configs : Option (List NodeConfig)
  -- `GetPredictorEndpoint(ns, ep, TypePowerConsumption)`
  pub predictor_endpoint : Text → EndpointTerm → Option (Option EndpointTerm)
  -- `PredictPowerConsumption(ns, ep, cpuUsage, inletTemp, deltaP)`
  pub predict : Text → EndpointTerm → F → F → F → Option F

-- How `Score` ends before its last line: it returns, or it dereferences nil.
pub data Stop : Type 0 where
  returned : ℤ → Stop
  panicked : Stop

-- `*p`
abbrev pub deref : {A : Type 0} → Option A → Result Stop A
deref p = or_fail p panicked

-- The first NodeConfig of the node.
unfoldable pub find_node_config : Text → List NodeConfig → Option NodeConfig
unfolding text_eq
find_node_config name [] = none
find_node_config name (nc ∷ ncs) =
    if text_eq nc.spec.node_name name then some nc else find_node_config name ncs

abbrev pub no_term : EndpointTerm
no_term = record { type_ = []; endpoint = []; basic_auth_secret = none; fetch_interval = none }

module _ (fl : Floats) where
  open fl use {F, zero_f, add, sub, mul, div, eqb, ltf, of_int, to_int}

  -- The loop of `PodCPURequestOrLimit`.
  unfoldable pub sum_containers : F → List (Container F) → F
  sum_containers v [] = v
  sum_containers v (c ∷ cs) =
      sum_containers (add v (if eqb c.requests_cpu zero_f then c.limits_cpu else c.requests_cpu)) cs

  unfoldable pub pod_cpu_request_or_limit : Pod F → F
  unfolding sum_containers
  pod_cpu_request_or_limit pod = sum_containers zero_f pod.containers

  -- A pod of the node that is scheduled and does not run yet.
  unfoldable pub is_assumed : Text → Pod F → Bool
  unfolding text_eq
  is_assumed node_name p =
      if not (text_eq p.node_name node_name)
      then false
      else elim p.phase [ PodPhase.pending ↦ true | _ ↦ false ]

  -- The loop that sums `assumedAdditionalUsage`.
  unfoldable pub assumed_usage : MinimizePowerArgs F → Text → F → List (Pod F) → F
  unfolding is_assumed pod_cpu_request_or_limit
  assumed_usage args node_name u [] = u
  assumed_usage args node_name u (p ∷ ps) =
      assumed_usage args node_name
        (if is_assumed node_name p
          then add u (mul (pod_cpu_request_or_limit p) args.pod_usage_assumption)
          else u)
        ps

  -- The switch on `CPUUsageFormat`, for one of the two usages.
  unfoldable pub format_usage : Text → F → F → F
  unfolding text_eq
  format_usage format capacity usage =
      if text_eq format cpu_usage_format_raw
      then usage
      else if text_eq format cpu_usage_format_percent
      then mul (div usage capacity) (of_int (pos 100))
      else usage

  -- The endpoint: the NodeConfig's own, overwritten in two fields by its provider's.
  unfoldable pub choose_endpoint : PowerEnv F → NodeConfig → Result Stop EndpointTerm
  choose_endpoint env nc =
      let own : EndpointTerm = elim nc.spec.predictor.power_consumption [
        | none ↦ no_term
        | some ep ↦ ep
      ] in
      elim nc.spec.predictor.power_consumption_endpoint_provider [
        | none ↦ ok own
        | some provider ↦ do
          answer ← or_fail (env.predictor_endpoint nc.namespace provider) (returned score_error)
          ep2 ← deref answer
          ok (record own { type_ = ep2.type_; endpoint = ep2.endpoint })
      ]

  -- The watts from `beforeUsage` to `afterUsage`, as a score.
  unfoldable pub predict_score :
      PowerEnv F → NodeConfig → EndpointTerm → F → F → F → F → Result Stop ℤ
  predict_score env nc ep before after inlet delta = do
    before_watt ← or_fail (env.predict nc.namespace ep before inlet delta) (returned score_error)
    after_watt ← or_fail (env.predict nc.namespace ep after inlet delta) (returned score_error)
    let watt = to_int (sub after_watt before_watt)
    ok (if ltb_ℤ watt (pos 0) then pos 0 else watt)

  -- The part of `Score` from the custom metrics on.
  unfoldable pub score_formatted : PowerEnv F → Text → F → F → Result Stop ℤ
  unfolding find_node_config choose_endpoint predict_score
  score_formatted env node_name before after = do
    inlet_ptr ← or_fail (env.inlet_temp node_name) (returned score_error)
    delta_ptr ← or_fail (env.delta_p node_name) (returned score_error)
    inlet ← deref inlet_ptr
    delta ← deref delta_ptr
    ncs ← or_fail env.node_configs (returned score_error)
    nc ← or_fail (find_node_config node_name ncs) (returned score_error)
    ep ← choose_endpoint env nc
    predict_score env nc ep before after inlet delta

  unfoldable pub score_steps : PowerEnv F → MinimizePowerArgs F → Pod F → Text → Result Stop ℤ
  unfolding assumed_usage format_usage score_formatted
  score_steps env args pod node_name = do
    info ← or_fail (env.node_info node_name) (returned score_error)
    usage_ptr ← or_fail (env.node_usage info.node.name) (returned score_error)
    usage ← deref usage_ptr
    let before = add usage (assumed_usage args info.node.name zero_f info.pods)
    let after = add before (pod_cpu_request_or_limit pod)
    let capacity = info.node.capacity_cpu
    let formatted =
        score_formatted env node_name (format_usage args.cpu_usage_format capacity before)
          (format_usage args.cpu_usage_format capacity after)
    if eqb before after
        then err (returned score_error)
        else if ltf capacity after
        then err (returned score_max)
        else formatted

  -- `Score`: `none` is a panic. Its status is nil on every path.
  unfoldable pub score : PowerEnv F → MinimizePowerArgs F → Pod F → Text → Option ℤ
  unfolding score_steps
  score env args pod node_name = elim (score_steps env args pod node_name) [
    | ok s ↦ some s
    | err (returned s) ↦ some s
    | err panicked ↦ none
  ]
