-- ===== src/Client/Metrics/Tests.antt =====
-- A sequence of calls of the metrics client.
use waok8s.Prelude.{ℕ, ◌≡◌, refl, [], ◌∷◌, ◌++◌, none, some, List, Text, lit, arith, ok}
use waok8s.Kube.{NamespacedName}
use waok8s.Client.Metrics.{Origin, MetricsCache, empty_entry, metric_type_node, metric_name_metrics}
use waok8s.Client.Metrics.Laws.{Shows, IsName}
use waok8s.Client.Metrics.Refinement.{Call, IsProper, run_cache, run_memory, get-refines_memory}

abbrev show : NamespacedName → Text
show a = a.namespace ++ b'/' ∷ a.name

show-Shows : Shows show
show-Shows = record { joined = λ a. refl }

abbrev node_1 : NamespacedName
node_1 = record { namespace = []; name = lit "n1" }

node_1-IsName : IsName node_1
node_1-IsName = record {
  no_slash = omega arith;
  namespace_lacks = omega arith;
  name_lacks = omega arith;
}

-- At the time `now`, the node has `now` for its metrics.
abbrev ask_at : ℕ → Call ℕ ℕ ℕ
ask_at now = record {
  origin = record {
    node_metrics = λ name. some now;
    pod_metrics = λ ns name. none;
    custom_metric = λ name metric. none;
  };
  now = now;
  obj = node_1;
  metric_type = metric_type_node;
  metric_name = metric_name_metrics;
}

abbrev three_calls : List (Call ℕ ℕ ℕ)
three_calls = ask_at 100 ∷ ask_at 120 ∷ ask_at 140 ∷ []

-- The second call is answered from the cache, the third one after the expiry.
three_answers :
    run_memory 30 three_calls (λ b t n. none)
    ≡ ok (record (empty_entry 130) { node_metrics = some 100 })
      ∷ ok (record (empty_entry 130) { node_metrics = some 100 })
      ∷ ok (record (empty_entry 170) { node_metrics = some 140 })
      ∷ []
unfolding run_memory waok8s.Client.Metrics.fill
three_answers = refl

proper : IsProper (ask_at 0)
proper = (node_1-IsName, omega arith)

get-refines_memory_example :
    run_cache show 30 three_calls [] ≡ run_memory 30 three_calls (λ b t n. none)
get-refines_memory_example =
    get-refines_memory show show-Shows 30 three_calls (proper, (proper, (proper, tt)))
