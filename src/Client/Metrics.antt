-- ===== src/Client/Metrics.antt =====
-- wao-metrics-adapter/pkg/client/metrics.go: CachedMetricsClient, one call at a time.
-- (Interleaving.antt has calls that overlap.) Times are natural numbers.
pub mod Laws
pub mod Refinement
mod Tests
use waok8s.Prelude.{
  ℕ, ◌+◌, Bool, List, [], ◌∷◌, ◌++◌, Option, none, some, Text, Dict, lit, lookup, insert, delete,
  text_eq, ltb, ◌||◌, if◌then◌else◌, Result, ok, err,
}
use waok8s.Kube.{NamespacedName}

abbrev pub value_inlet_temperature : Text
value_inlet_temperature = lit "inlet_temp"

abbrev pub value_delta_pressure : Text
value_delta_pressure = lit "delta_p"

abbrev pub metric_type_node : Text
metric_type_node = lit "node"

abbrev pub metric_type_pod : Text
metric_type_pod = lit "pod"

abbrev pub metric_name_metrics : Text
metric_name_metrics = lit "metrics"

pub data GetError : Type 0 where
  unable_to_get unknown_metric_name unknown_metric_type : GetError

-- The metrics API and the custom metrics API at one moment; a failed request is `none`.
pub record Origin (NodeMetrics PodMetrics MetricValue : Type 0) : Type 0 where
  pub node_metrics : Text → Option NodeMetrics
  pub pod_metrics : Text → Text → Option PodMetrics
  pub custom_metric : Text → Text → Option MetricValue

-- `metricsCache`, less its mutex.
pub record MetricsCache (NodeMetrics PodMetrics MetricValue : Type 0) : Type 0 where
  pub node_metrics : Option NodeMetrics
  pub pod_metrics : Option PodMetrics
  pub custom_metrics : Dict MetricValue
  pub expired_at : ℕ

-- `show` is `NamespacedName.String`.
-- `metricsCacheKey`
unfoldable pub metrics_cache_key : (NamespacedName → Text) → NamespacedName → Text → Text → Text
metrics_cache_key show obj metric_type metric_name =
    show obj ++ (b'#' ∷ (metric_type ++ (b'#' ∷ metric_name)))

module _ {NM PM MV : Type 0} where
  -- The empty entry that a miss pushes.
  abbrev pub empty_entry : ℕ → MetricsCache NM PM MV
  empty_entry expired_at = record {
    node_metrics = none;
    pod_metrics = none;
    custom_metrics = [];
    expired_at = expired_at;
  }

  -- The switch on the type and the name of the metric: the filled entry, or an error.
  unfoldable pub fill :
      Origin NM PM MV
      → NamespacedName
      → Text
      → Text
      → MetricsCache NM PM MV
      → Result GetError (MetricsCache NM PM MV)
  unfolding text_eq insert
  fill o obj metric_type metric_name cv =
      if text_eq metric_type metric_type_node
      then (if text_eq metric_name metric_name_metrics
          then elim (o.node_metrics obj.name) [
            | none ↦ err unable_to_get
            | some v ↦ ok (record cv { node_metrics = some v })
          ]
          else if text_eq metric_name value_inlet_temperature
              || text_eq metric_name value_delta_pressure
          then elim (o.custom_metric obj.name metric_name) [
            | none ↦ err unable_to_get
            | some v ↦ ok (record cv { custom_metrics = insert metric_name v cv.custom_metrics })
          ]
          else err unknown_metric_name)
      else if text_eq metric_type metric_type_pod
      then (if text_eq metric_name metric_name_metrics
          then elim (o.pod_metrics obj.namespace obj.name) [
            | none ↦ err unable_to_get
            | some v ↦ ok (record cv { pod_metrics = some v })
          ]
          else err unknown_metric_name)
      else err unknown_metric_type

  module _ (show : NamespacedName → Text) (ttl : ℕ) where
    -- The part of `get` after a miss: push an empty entry, then fill it or delete it.
    unfoldable pub fetch :
        Origin NM PM MV
        → ℕ
        → NamespacedName
        → Text
        → Text
        → Dict (MetricsCache NM PM MV)
        → Result GetError (MetricsCache NM PM MV) × Dict (MetricsCache NM PM MV)
    unfolding metrics_cache_key fill insert delete
    fetch o now obj metric_type metric_name cache =
        let key = metrics_cache_key show obj metric_type metric_name in
        let pushed = insert key (empty_entry (now + ttl)) cache in
        elim (fill o obj metric_type metric_name (empty_entry (now + ttl))) [
          | err e ↦ (err e, delete key pushed)
          | ok cv ↦ (ok cv, insert key cv pushed)
        ]

    -- `get`
    unfoldable pub get :
        Origin NM PM MV
        → ℕ
        → NamespacedName
        → Text
        → Text
        → Dict (MetricsCache NM PM MV)
        → Result GetError (MetricsCache NM PM MV) × Dict (MetricsCache NM PM MV)
    unfolding fetch lookup
    get o now obj metric_type metric_name cache =
        let missed = fetch o now obj metric_type metric_name cache in
        elim (lookup (metrics_cache_key show obj metric_type metric_name) cache) [
          | none ↦ missed
          | some cv ↦ if ltb now cv.expired_at then (ok cv, cache) else missed
        ]

    -- `GetNodeMetrics`: the pointer in the result may be nil.
    unfoldable pub get_node_metrics :
        Origin NM PM MV
        → ℕ
        → Text
        → Dict (MetricsCache NM PM MV)
        → Result GetError (Option NM) × Dict (MetricsCache NM PM MV)
    unfolding get
    get_node_metrics o now name cache =
        let (r, cache') =
          get o now (record { namespace = []; name = name }) metric_type_node metric_name_metrics
            cache in
        (elim r [ ok cv ↦ ok cv.node_metrics | err e ↦ err e ], cache')

    -- `GetPodMetrics`
    unfoldable pub get_pod_metrics :
        Origin NM PM MV
        → ℕ
        → Text
        → Text
        → Dict (MetricsCache NM PM MV)
        → Result GetError (Option PM) × Dict (MetricsCache NM PM MV)
    unfolding get
    get_pod_metrics o now namespace name cache =
        let (r, cache') =
          get o now (record { namespace = namespace; name = name }) metric_type_pod
            metric_name_metrics cache in
        (elim r [ ok cv ↦ ok cv.pod_metrics | err e ↦ err e ], cache')

    -- `GetCustomMetricForNode`
    unfoldable pub get_custom_metric_for_node :
        Origin NM PM MV
        → ℕ
        → Text
        → Text
        → Dict (MetricsCache NM PM MV)
        → Result GetError (Option MV) × Dict (MetricsCache NM PM MV)
    unfolding get lookup
    get_custom_metric_for_node o now name metric_name cache =
        let (r, cache') =
          get o now (record { namespace = []; name = name }) metric_type_node metric_name cache in
        (elim r [ ok cv ↦ ok (lookup metric_name cv.custom_metrics) | err e ↦ err e ], cache')
