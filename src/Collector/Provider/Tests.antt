-- ===== src/Collector/Provider/Tests.antt =====
-- The metrics of one node, with natural numbers in the place of floats.
use waok8s.Prelude.{
  ℕ, ◌*◌, ◌+◌, ◌^◌, ◌≡◌, refl, [], ◌∷◌, none, some, Text, Dict, lit, false, if◌then◌else◌, ltb, ok,
  err, Result, Bool,
}
use waok8s.Prelude.Int64.{pos}
use waok8s.Samples.{whole}
use waok8s.Collector.{ValueType, MetricData, value_type_name, run_round}
use waok8s.Collector.Provider.{
  CustomMetricInfo, metric_expired, metric_not_found, Mapper, metric_ttl, opposite, metric_for,
  get_metric_by_selector,
}
use waok8s.Collector.Provider.Laws.{node_info, metric_for-run_round}

abbrev zero_data : MetricData ℕ
zero_data = record { inlet_temp = 0; inlet_temp_timestamp = 0; delta_p = 0; delta_p_timestamp = 0 }

abbrev n1 : Text
n1 = lit "n1"

abbrev mapper : Mapper whole Text
mapper = record {
  normalized = some;
  gr_string = λ gr. gr.resource;
  reference_for = λ namespace name info. some name;
  list_object_names = λ namespace info. some (n1 ∷ lit "n2" ∷ []);
  pow10 = λ n. 10 ^ n;
}

abbrev info : CustomMetricInfo
info = node_info false ValueType.inlet_temperature

abbrev no_data : Dict (MetricData ℕ)
no_data = []

-- One of the two nodes has no metric.
one_missing :
    get_metric_by_selector whole mapper 70 71 [] info
      (run_round zero_data n1 ValueType.inlet_temperature (some 20) 5 no_data)
    ≡ err metric_not_found
unfolding get_metric_by_selector waok8s.Collector.run_round waok8s.Prelude.text_eq
one_missing = refl

metric_for-run_round_example :
    metric_for whole mapper 70 71 [] n1 info
      (run_round zero_data n1 ValueType.inlet_temperature (some 20) 5 no_data)
    ≡ (if ltb (5 + metric_ttl) 70
        then err metric_expired
        else ok (record {
          described_object = n1;
          metric = value_type_name ValueType.inlet_temperature;
          timestamp = 71;
          value = pos (20 * 10 ^ 6);
          scale = opposite 6;
        }))
metric_for-run_round_example =
    metric_for-run_round whole mapper zero_data info n1 false ValueType.inlet_temperature 20 5 70 71
      no_data n1 refl refl refl
