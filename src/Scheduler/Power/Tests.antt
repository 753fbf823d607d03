-- ===== src/Scheduler/Power/Tests.antt =====
-- Runs of Score and getArgs.
use waok8s.Prelude.{ℕ, ◌+◌, ◌*◌, ◌≡◌, refl, [], ◌∷◌, none, some, Text, lit, text_eq, ok, arith}
use waok8s.Prelude.Int64.{ℤ, pos}
use waok8s.Samples.{whole, worker, pod_on, config_for}
use waok8s.Scheduler.Power.{MinimizePowerArgs, NodeInfo, PowerEnv, score}
use waok8s.Scheduler.Power.Outcome.{NeverNil, score_total}
use waok8s.Scheduler.Power.Args.{default_args, get_args}

abbrev pub n1 : Text
n1 = lit "n1"

abbrev pub info : NodeInfo ℕ
info = record { node = worker n1 (lit "z1"); pods = pod_on n1 ∷ [] }

abbrev pub args : MinimizePowerArgs ℕ
args = record {
  metrics_cache_ttl = pos 1;
  predictor_cache_ttl = pos 1;
  pod_usage_assumption = 1;
  cpu_usage_format = lit "Raw";
}

-- Three CPUs in use, and one more assumed for the pod that is pending.
abbrev pub env : PowerEnv ℕ
env = record {
  node_info = λ name. some info;
  node_usage = λ name. some (some 3);
  inlet_temp = λ name. some (some 20);
  delta_p = λ name. some (some 7);
  node_configs = some (config_for n1 ∷ []);
  predictor_endpoint = λ ns ep. none;
  predict = λ ns ep cpu inlet delta. some (5 * cpu + inlet + delta);
}

score_run : score whole env args (pod_on []) n1 ≡ some (pos 5)
unfolding score text_eq
score_run = refl

pub env-NeverNil : NeverNil env
env-NeverNil = record {
  usage = λ name. ground arith;
  inlet = λ name. ground arith;
  delta = λ name. ground arith;
  endpoint = λ ns ep. ground arith;
}

score_total_run : (s : ℤ) × (score whole env args (pod_on []) n1 ≡ some s)
score_total_run = score_total whole env env-NeverNil args (pod_on []) n1

abbrev nil_env : PowerEnv ℕ
nil_env = record env { node_usage = λ name. some none }

abbrev no_args : MinimizePowerArgs ℕ
no_args = record {
  metrics_cache_ttl = pos 0;
  predictor_cache_ttl = pos 0;
  pod_usage_assumption = 0;
  cpu_usage_format = [];
}

get_args_run : get_args whole no_args ≡ ok (default_args whole no_args)
unfolding get_args text_eq
get_args_run = refl
