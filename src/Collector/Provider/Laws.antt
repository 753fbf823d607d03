-- ===== src/Collector/Provider/Laws.antt =====
-- What the provider serves of what the runners have stored.
use waok8s.Prelude.{
  ℕ, ◌+◌, ◌≡◌, refl, ap, ◌∙◌, ◌++◌, Bool, [], none, some, Option, Text, Dict, lit, lookup,
  lookup_or, ltb, if◌then◌else◌, Result, ok, err, arith, Bool-cases, inl, inr,
}
use waok8s.Prelude.Float.{Floats}
use waok8s.Collector.{
  ValueType, value_type_name, MetricData, store_key_for_node, with_value, run_round,
}
use waok8s.Collector.Laws.{run_round-entry}
use waok8s.Collector.Provider.{
  CustomMetricInfo, metric_expired, Mapper, gr_node, metric_ttl, opposite, store_key, value_of,
  fixed_scale, validate_resource, metric_for,
}

-- The information on a metric of a node, as the mapper normalizes it.
abbrev pub node_info : Bool → ValueType → CustomMetricInfo
node_info namespaced type_ = record {
  group_resource = gr_node;
  namespaced = namespaced;
  metric = value_type_name type_;
}

module _ (fl : Floats) {R : Type 0} (mapper : Mapper fl R) (zero_data : MetricData fl.F) where
  value_of-with_value :
      (type_ : ValueType) (v : fl.F) (t : ℕ) (m : MetricData fl.F)
      → value_of fl mapper (value_type_name type_) (with_value zero_data type_ v t m) ≡ some (v, t)
  unfolding value_of with_value waok8s.Prelude.text_eq
  value_of-with_value ValueType.inlet_temperature v t m = refl
  value_of-with_value ValueType.delta_pressure v t m = refl

  validate_resource-node :
      (given : CustomMetricInfo) (namespaced : Bool) (type_ : ValueType)
      → mapper.normalized given ≡ some (node_info namespaced type_)
      → validate_resource fl mapper given ≡ some (node_info namespaced type_)
  unfolding validate_resource waok8s.Prelude.text_eq
  validate_resource-node given namespaced type_ e = rw (e, validate_resource) refl

  store_key-node :
      (node : Text) (namespaced : Bool) (type_ : ValueType)
      → mapper.gr_string gr_node ≡ lit "nodes"
      → store_key fl mapper [] node (node_info namespaced type_) ≡ store_key_for_node node
  unfolding store_key store_key_for_node
  store_key-node node namespaced type_ e = rw e refl

  -- After a round of a runner that has fetched `v` at the time `t`, the provider serves that metric of the
  -- node as the number `v` scaled by 6 digits for 60 seconds, and then answers that it has expired, if the
  -- resource is normalized to the nodes, which print as `nodes`, and a reference to the node is found.
  pub metric_for-run_round :
      (given : CustomMetricInfo) (node : Text) (namespaced : Bool) (type_ : ValueType) (v : fl.F)
      (t now later : ℕ) (store : Dict (MetricData fl.F)) (ref : R)
      → mapper.normalized given ≡ some (node_info namespaced type_)
      → mapper.gr_string gr_node ≡ lit "nodes"
      → mapper.reference_for [] node (node_info namespaced type_) ≡ some ref
      → metric_for fl mapper now later [] node given
          (run_round zero_data node type_ (some v) t store)
        ≡ (if ltb (t + metric_ttl) now
            then err metric_expired
            else ok (record {
              described_object = ref;
              metric = value_type_name type_;
              timestamp = later;
              value = fl.to_int (fl.mul v (mapper.pow10 6));
              scale = opposite 6;
            }))
  unfolding metric_for fixed_scale
  metric_for-run_round given node namespaced type_ v t now later store ref e g h =
      let key = store_key-node node namespaced type_ g in
      let entry = (run_round-entry zero_data node type_ v t store).0 in
      let value =
        value_of-with_value type_ v t (lookup_or zero_data (store_key_for_node node) store) in
      let valid = validate_resource-node given namespaced type_ e in
      rw (valid, metric_for)
        (rw (key, metric_for)
          (rw (entry, metric_for)
            (rw (value, metric_for)
              (elim (Bool-cases (ltb (t + metric_ttl) now)) [
                | inl late ↦ rw (late, metric_for) refl
                | inr fresh ↦ rw (fresh, metric_for) (rw (h, metric_for) refl)
              ]))))
