-- ===== src/Agreement/Tests.antt =====
-- A node on which ScoreNode and Score agree.
use waok8s.Prelude.{[], ◌∷◌, none, some, Text, lit, ℕ, ◌+◌, ◌*◌}
use waok8s.Prelude.Int64.{pos}
use waok8s.Samples.{worker, config_for}
use waok8s.Scheduler.Power.{MinimizePowerArgs, NodeInfo, PowerEnv}

abbrev n1 : Text
n1 = lit "n1"

abbrev info : NodeInfo ℕ
info = record { node = worker n1 (lit "z1"); pods = [] }

abbrev args : MinimizePowerArgs ℕ
args = record {
  metrics_cache_ttl = pos 1;
  predictor_cache_ttl = pos 1;
  pod_usage_assumption = 1;
  cpu_usage_format = lit "Raw";
}

abbrev env : PowerEnv ℕ
env = record {
  node_info = λ name. some info;
  node_usage = λ name. some (some 3);
  inlet_temp = λ name. some (some 20);
  delta_p = λ name. some (some 7);
  node_configs = some (config_for n1 ∷ []);
  predictor_endpoint = λ ns ep. none;
  predict = λ ns ep cpu inlet delta. some (5 * cpu + inlet + delta);
}
