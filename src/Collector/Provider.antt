-- ===== src/Collector/Provider.antt =====
-- wao-metrics-adapter/pkg/provider/provider.go, and `Get` and `StoreKey` of pkg/metrics/store.go: the custom
-- metrics of the nodes. Times are natural numbers; the mapper of resources is a parameter.
pub mod Laws
mod Tests
use waok8s.Prelude.{
  ℕ, zero, suc, if◌then◌else◌, ◌+◌, ◌++◌, ◌∷◌, List, [], Option, none, some, Text, Dict, lit,
  lookup, text_eq, ltb, Result, ok, err, Bool, true, false, ◌&&◌, ◌||◌, or_fail, ◌>>=◌,
}
use waok8s.Prelude.Int64.{ℤ, pos, negsuc}
use waok8s.Prelude.Float.{Floats}
use waok8s.Collector.{ValueType, value_type_name, MetricData}

-- `schema.GroupResource`, `provider.CustomMetricInfo`
pub record GroupResource : Type 0 where
  pub group : Text
  pub resource : Text

pub record CustomMetricInfo : Type 0 where
  pub group_resource : GroupResource
  pub namespaced : Bool
  pub metric : Text

-- `custom_metrics.MetricValue`: the value is `value` times 10 to the power of `scale`.
pub record MetricValue (R : Type 0) : Type 0 where
  pub described_object : R
  pub metric : Text
  pub timestamp : ℕ
  pub value : ℤ
  pub scale : ℤ

pub data ProviderError : Type 0 where
  bad_request metric_not_found metric_expired metric_not_supported no_reference not_listed :
      ProviderError

-- What the provider takes from other packages: `CustomMetricInfo.Normalized`, `GroupResource.String`,
-- `ReferenceFor`, `ListObjectNames`, and `math.Pow10`.
pub record Mapper (fl : Floats) (R : Type 0) : Type 0 where
  pub normalized : CustomMetricInfo → Option CustomMetricInfo
  pub gr_string : GroupResource → Text
  pub reference_for : Text → Text → CustomMetricInfo → Option R
  pub list_object_names : Text → CustomMetricInfo → Option (List Text)
  pub pow10 : ℕ → fl.F

abbrev pub gr_node : GroupResource
gr_node = record { group = []; resource = lit "nodes" }

-- `MetricTTL`, in nanoseconds.
abbrev pub metric_ttl : ℕ
metric_ttl = 60000000000

abbrev pub opposite : ℕ → ℤ
opposite zero = pos 0
opposite (suc n) = negsuc n

module _ (fl : Floats) {R : Type 0} (mapper : Mapper fl R) where
  -- `StoreKey`
  unfoldable pub store_key : Text → Text → CustomMetricInfo → Text
  store_key namespace name info =
      namespace ++ (b'/' ∷ (mapper.gr_string info.group_resource ++ (b'/' ∷ name)))

  -- `validateResource`
  unfoldable pub validate_resource : CustomMetricInfo → Option CustomMetricInfo
  unfolding text_eq
  validate_resource info = elim (mapper.normalized info) [
    | none ↦ none
    | some n ↦
        elim (text_eq n.group_resource.group gr_node.group
          && text_eq n.group_resource.resource gr_node.resource) [ true ↦ some n | false ↦ none ]
  ]

  -- `fixedScale`: the number, and the negative of the precision.
  unfoldable pub fixed_scale : fl.F → ℕ → ℤ × ℤ
  fixed_scale r precision = (fl.to_int (fl.mul r (mapper.pow10 precision)), opposite precision)

  -- The two switches on `info.Metric`: the value and its time.
  unfoldable pub value_of : Text → MetricData fl.F → Option (fl.F × ℕ)
  unfolding text_eq
  value_of metric m = elim (text_eq metric (value_type_name ValueType.inlet_temperature)) [
    | true ↦ some (m.inlet_temp, m.inlet_temp_timestamp)
    | false ↦ elim (text_eq metric (value_type_name ValueType.delta_pressure)) [
      | true ↦ some (m.delta_p, m.delta_p_timestamp)
      | false ↦ none
    ]
  ]

  -- `metricValueScale`
  unfoldable pub metric_value_scale : R → ℕ → Text → ℤ → ℤ → MetricValue R
  metric_value_scale ref t key value scale = record {
    described_object = ref;
    metric = key;
    timestamp = t;
    value = value;
    scale = scale;
  }

  -- `metricFor`, which looks at the clock twice: at `now`, and at `later` for the time of the answer.
  unfoldable pub metric_for :
      ℕ
      → ℕ
      → Text
      → Text
      → CustomMetricInfo
      → Dict (MetricData fl.F)
      → Result ProviderError (MetricValue R)
  unfolding validate_resource store_key value_of fixed_scale metric_value_scale lookup
  metric_for now later namespace name given store =
      or_fail (validate_resource given) bad_request >>= λ info.
      or_fail (lookup (store_key namespace name info) store) metric_not_found >>= λ m.
      or_fail (value_of info.metric m) metric_not_supported >>= λ v.
      (if ltb (v.1 + metric_ttl) now then err metric_expired else ok v) >>= λ fresh.
      or_fail (mapper.reference_for namespace name info) no_reference >>= λ ref.
      let (n, s) = fixed_scale fresh.0 6 in ok (metric_value_scale ref later info.metric n s)

  -- The loop of `GetMetricBySelector`, which stops at the first error; all at one time.
  unfoldable pub metrics_for :
      ℕ
      → ℕ
      → Text
      → List Text
      → CustomMetricInfo
      → Dict (MetricData fl.F)
      → Result ProviderError (List (MetricValue R))
  unfolding metric_for
  metrics_for now later namespace [] info store = ok []
  metrics_for now later namespace (name ∷ names) info store =
      metric_for now later namespace name info store >>= λ value.
      metrics_for now later namespace names info store >>= λ values. ok (value ∷ values)

  -- `GetMetricByName`, `GetMetricBySelector`
  unfoldable pub get_metric_by_name :
      ℕ
      → ℕ
      → Text
      → Text
      → CustomMetricInfo
      → Dict (MetricData fl.F)
      → Result ProviderError (MetricValue R)
  unfolding metric_for
  get_metric_by_name now later namespace name info store =
      metric_for now later namespace name info store

  unfoldable pub get_metric_by_selector :
      ℕ
      → ℕ
      → Text
      → CustomMetricInfo
      → Dict (MetricData fl.F)
      → Result ProviderError (List (MetricValue R))
  unfolding metrics_for
  get_metric_by_selector now later namespace info store =
      or_fail (mapper.list_object_names namespace info) not_listed >>= λ names.
      metrics_for now later namespace names info store
