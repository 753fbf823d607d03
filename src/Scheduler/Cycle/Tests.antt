-- ===== src/Scheduler/Cycle/Tests.antt =====
-- A cycle over two nodes; the second has no NodeConfig.
use waok8s.Prelude.{
  ◌≡◌, ◌≢◌, refl, ℕ, [], ◌∷◌, map, some, Text, lit, text_eq, In, here, there, ok, arith,
}
use waok8s.Prelude.Int64.{ℤ, pos, ◌≤ℤ◌}
use waok8s.Samples.{whole, pod_on}
use waok8s.Scheduler.Power.{score, score_steps}
use waok8s.Scheduler.Power.Tests.{n1, args, env, env-NeverNil}
use waok8s.Scheduler.Cycle.{score_cycle, pre_filter, MinimizePower, all_nodes}
use waok8s.Scheduler.Cycle.Laws.{IsModest, Rated, score_cycle-ranks}

abbrev n2 : Text
n2 = lit "n2"

cycle_run :
    score_cycle whole env args (pod_on []) (pos 100) (n1 ∷ n2 ∷ [])
    ≡ some (record { name = n1; score = pos 20 } ∷ record { name = n2; score = pos 0 } ∷ [])
unfolding score_cycle text_eq
cycle_run = refl

first_watts : (n : ℕ) → score_steps whole env args (pod_on []) n1 ≡ ok (pos n) → 5 ≡ n
unfolding score_steps text_eq
first_watts n q = ground (arith, q)

second_fails : (n : ℕ) → score_steps whole env args (pod_on []) n2 ≢ ok (pos n)
unfolding score_steps text_eq
second_fails n q = ground (arith, q)

two_nodes-IsModest : IsModest whole env env-NeverNil args (pod_on []) 100 (n1 ∷ n2 ∷ [])
two_nodes-IsModest name n (here e) q = let watts = first_watts n (rw e at q) in omega (arith, watts)
two_nodes-IsModest name n (there (here e)) q = absurd (second_fails n (rw e at q))
two_nodes-IsModest name n (there (there i)) q = elim i [ ]

score_cycle-ranks_example :
    (rank : Text → ℤ) × (score_cycle whole env args (pod_on []) (pos 100) (n1 ∷ n2 ∷ [])
      ≡ some (map (λ name. record { name = name; score = rank name }) (n1 ∷ n2 ∷ [])))
    × ((name : Text)
        → In name (n1 ∷ n2 ∷ [])
        → Rated whole env env-NeverNil args (pod_on []) 100 name (rank name))
    × ((a b : Text) (s t : ℤ)
        → In a (n1 ∷ n2 ∷ [])
        → In b (n1 ∷ n2 ∷ [])
        → score whole env args (pod_on []) a ≡ some s
        → score whole env args (pod_on []) b ≡ some t
        → s ≤ℤ t
        → rank b ≤ℤ rank a)
score_cycle-ranks_example =
    score_cycle-ranks whole env env-NeverNil args (pod_on []) 100 (n1 ∷ n2 ∷ []) (omega arith)
      (omega arith) (((λ e. ground (arith, e)), tt), (tt, tt)) two_nodes-IsModest

-- A pod without a request is turned away, and its start is noted.
abbrev plugin : MinimizePower ℕ ℕ
plugin = record {
  args = args;
  ctrlclient = 0;
  metrics_origin = 0;
  metrics_ttl = pos 1;
  predictor_ttl = pos 1;
  start_time = [];
}

pre_filter_run : (pre_filter whole 7 (pod_on []) plugin).0 ≡ all_nodes
unfolding pre_filter
pre_filter_run = refl
