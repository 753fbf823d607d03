-- ===== src/Agreement.antt =====
-- ScoreNode of wao-loadbalancer/pkg/proxy/nftables/wao.go against Score of the scheduler's MinimizePower
-- (wao-scheduler/pkg/plugins/minimizepower/minimizepower.go), from which it was made.
mod Tests
use waok8s.Prelude.{◌≡◌, none, some, Result, ok, err, Bool-cases, inl, inr, text_eq}
use waok8s.Prelude.Int64.{pos, ltb_ℤ}
use waok8s.Prelude.Float.{Floats}
use waok8s.Scheduler.Power
use waok8s.Scheduler.Power.{PowerEnv}
use waok8s.LoadBalancer.ScoreNode
use waok8s.LoadBalancer.ScoreNode.{NodeEnv}

-- Both succeed with the same value, or both fail.
abbrev pub Alike : {D E A : Type 0} → Result D A → Result E A → Type 0
Alike (ok a) (ok b) = a ≡ b
Alike (ok a) (err e) = ⊥
Alike (err d) (ok b) = ⊥
Alike (err d) (err e) = Unit

module _ (fl : Floats) where
  open fl use {F, zero_f, add, eqb, ltf}

  -- The cluster and the clients of the scheduler, as the load balancer sees them.
  abbrev pub node_env_of : PowerEnv F → NodeEnv F
  node_env_of env = record {
    node = λ name. elim (env.node_info name) [ none ↦ none | some info ↦ some info.node ];
    node_usage = env.node_usage;
    inlet_temp = env.inlet_temp;
    delta_p = env.delta_p;
    node_configs = env.node_configs;
    predictor_endpoint = env.predictor_endpoint;
    predict = env.predict;
  }
