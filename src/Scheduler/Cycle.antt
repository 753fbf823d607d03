-- ===== src/Scheduler/Cycle.antt =====
-- wao-scheduler/pkg/plugins/minimizepower/minimizepower.go: the plugin over one scheduling cycle. The
-- scheduler calls PreFilter for the pod, Score for each node that is left, and NormalizeScore for the
-- scores of all of them.
mod Laws
mod Tests
use waok8s.Prelude.{
  ◌≡◌, ℕ, Bool, true, false, List, [], ◌∷◌, Option, none, some, Text, Dict, insert, delete, Result,
  ok, err, or_fail, ◌>>=◌, if◌then◌else◌,
}
use waok8s.Prelude.Int64.{ℤ}
use waok8s.Prelude.Float.{Floats}
use waok8s.Kube.{Pod}
use waok8s.Scheduler.Normalize.{NodeScore, normalize_score}
use waok8s.Scheduler.Power.{MinimizePowerArgs, PowerEnv, pod_cpu_request_or_limit, score}
use waok8s.Scheduler.Power.Args.{ArgsError, get_args}

-- The constructors that New calls, in its order, and the client that reads through the cache.
pub record Connections (K : Type 0) : Type 0 where
  pub metrics_client : Option K
  pub discovery_client : Option K
  pub cache : Option K
  pub ctrlclient : K → Option K

pub data NewError : Type 0 where
  bad_args : ArgsError → NewError
  no_client : NewError

-- `MinimizePower`: the caches of its clients live as long as the arguments say.
pub record MinimizePower (F K : Type 0) : Type 0 where
  pub args : MinimizePowerArgs F
  pub ctrlclient : K
  pub metrics_origin : K
  pub metrics_ttl : ℤ
  pub predictor_ttl : ℤ
  pub start_time : Dict ℕ

-- The result of PreFilter: all nodes, or the pod is unschedulable.
pub data Verdict : Type 0 where
  all_nodes unschedulable : Verdict

module _ (fl : Floats) where
  open fl use {F, zero_f, eqb}

  -- `New`
  unfoldable pub new_minimize_power :
      {K : Type 0} → Connections K → MinimizePowerArgs F → Result NewError (MinimizePower F K)
  unfolding get_args
  new_minimize_power connections given = elim (get_args fl given) [
    | err e ↦ err (bad_args e)
    | ok args ↦ do
      mc ← or_fail connections.metrics_client no_client
      dc ← or_fail connections.discovery_client no_client
      ca ← or_fail connections.cache no_client
      c ← or_fail (connections.ctrlclient ca) no_client
      ok record {
        args = args;
        ctrlclient = c;
        metrics_origin = mc;
        metrics_ttl = args.metrics_cache_ttl;
        predictor_ttl = args.predictor_cache_ttl;
        start_time = [];
      }
  ]

  -- `PreFilter`, at the time `now`.
  unfoldable pub pre_filter :
      {K : Type 0} → ℕ → Pod F → MinimizePower F K → Verdict × MinimizePower F K
  unfolding insert delete pod_cpu_request_or_limit
  pre_filter now pod pl = (
    (if eqb (pod_cpu_request_or_limit fl pod) zero_f then unschedulable else all_nodes),
    record pl { start_time = insert pod.name now (delete pod.name pl.start_time) },
  )

  -- The scores of the nodes; `none` is a panic.
  unfoldable pub score_nodes :
      PowerEnv F → MinimizePowerArgs F → Pod F → List Text → Option (List NodeScore)
  unfolding score
  score_nodes env args pod [] = some []
  score_nodes env args pod (name ∷ names) = elim (score fl env args pod name) [
    | none ↦ none
    | some s ↦ elim (score_nodes env args pod names) [
      | none ↦ none
      | some scores ↦ some (record { name = name; score = s } ∷ scores)
    ]
  ]

  -- Score and NormalizeScore; `top` is `framework.MaxNodeScore`.
  unfoldable pub score_cycle :
      PowerEnv F → MinimizePowerArgs F → Pod F → ℤ → List Text → Option (List NodeScore)
  unfolding score_nodes normalize_score
  score_cycle env args pod top names = elim (score_nodes env args pod names) [
    | none ↦ none
    | some scores ↦ some (normalize_score top scores)
  ]
