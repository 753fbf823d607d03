-- ===== src/Collector/Reconcile/Laws.antt =====
-- What Reconcile does to the runners.
use waok8s.Prelude.{
  ℕ, suc, ◌<◌, ◌≡◌, refl, ap, sym, ◌∙◌, ◌⊎◌, inl, inr, none, some, Option, Text, Dict, lookup,
  insert, lookup-insert_self, lookup-insert_ne, arith, Option-cases,
}
use waok8s.Prelude.Int64.{max_ℤ}
use waok8s.Kube.{NamespacedName}
use waok8s.NodeApi.{EndpointTerm, NodeConfig}
use waok8s.Collector.{ValueType, AgentRunner, Collector, min_interval, register}
use waok8s.Collector.Reconcile.{
  AnyAgent, collector_key, fetch_interval_of, shorter_by_300ms, inlet_temp_agent, delta_p_agent,
  register_agent, ReconcileError, unsupported_inlet_temp, unsupported_delta_p,
  reconcile_node_config, Found, not_found, not_read, deleting, found, reconcile,
}
use waok8s.Collector.Reconcile.Sound.{
  IsSound, collector_keys-differ, register_agent-IsSound, reconcile_node_config_deletion-IsSound,
}

module _ {F : Type 0} (fake_temp fake_pressure : F)
    (secrets : Text → Text → Option (Dict Text)) where
  -- The three ends of `reconcileNodeConfig`.
  pub reconcile_node_config-cases :
      (k : NamespacedName) (nc : NodeConfig) (c : Collector (AnyAgent F))
      → (reconcile_node_config fake_temp fake_pressure secrets k nc c
          ≡ (some unsupported_inlet_temp, c))
        ⊎ (((a : AnyAgent F) × (inlet_temp_agent fake_temp fake_pressure secrets k.namespace
                  nc.spec.metrics_collector.inlet_temp
                ≡ some a)
              × (reconcile_node_config fake_temp fake_pressure secrets k nc c ≡ (
                some unsupported_delta_p,
                register_agent k ValueType.inlet_temperature a nc
                    nc.spec.metrics_collector.inlet_temp c,
              )))
            ⊎ ((a b : AnyAgent F) × (inlet_temp_agent fake_temp fake_pressure secrets k.namespace
                    nc.spec.metrics_collector.inlet_temp
                  ≡ some a)
                × (delta_p_agent fake_temp fake_pressure secrets k.namespace nc.spec.node_name
                      nc.spec.metrics_collector.delta_p
                    ≡ some b)
                × (reconcile_node_config fake_temp fake_pressure secrets k nc c ≡ (
                  none,
                  register_agent k ValueType.delta_pressure b nc nc.spec.metrics_collector.delta_p (
                      register_agent k ValueType.inlet_temperature a nc
                        nc.spec.metrics_collector.inlet_temp c),
                ))))
  unfolding reconcile_node_config
  reconcile_node_config-cases k nc c =
      elim (Option-cases (
        inlet_temp_agent fake_temp fake_pressure secrets k.namespace
          nc.spec.metrics_collector.inlet_temp)) [
            | inl e ↦ inl (rw (e, reconcile_node_config) refl)
            | inr (a, e) ↦
                elim (Option-cases (
                  delta_p_agent fake_temp fake_pressure secrets k.namespace nc.spec.node_name
                    nc.spec.metrics_collector.delta_p)) [
                      | inl f ↦ inr (
                          inl (
                            a,
                            e,
                            rw (e, reconcile_node_config) (rw (f, reconcile_node_config) refl),
                          ))
                      | inr (b, f) ↦ inr (
                          inr (
                            a,
                            b,
                            e,
                            f,
                            rw (e, reconcile_node_config) (rw (f, reconcile_node_config) refl),
                          ))
                    ]
          ]

  reconcile_node_config-IsSound :
      (k : NamespacedName) (nc : NodeConfig) (c : Collector (AnyAgent F))
      → IsSound c
      → IsSound (reconcile_node_config fake_temp fake_pressure secrets k nc c).1
  reconcile_node_config-IsSound k nc c h = elim (reconcile_node_config-cases k nc c) [
    | inl e ↦ rw e h
    | inr (inl (a, e, f)) ↦ rw f (register_agent-IsSound _ _ a _ _ c h)
    | inr (inr (a, b, e, g, f)) ↦
        rw f (register_agent-IsSound _ _ b _ _ _ (register_agent-IsSound _ _ a _ _ c h))
  ]

  -- Whatever Get finds and whatever agents the NodeConfig asks for, and also when it fails, Reconcile keeps
  -- a collector in which each registered runner goes on and is registered under one key only.
  pub reconcile-IsSound :
      (k : NamespacedName) (o : Found) (c : Collector (AnyAgent F))
      → IsSound c
      → IsSound (reconcile fake_temp fake_pressure secrets k o c).1
  unfolding reconcile
  reconcile-IsSound k not_found c h = reconcile_node_config_deletion-IsSound k c h
  reconcile-IsSound k not_read c h = h
  reconcile-IsSound k deleting c h = reconcile_node_config_deletion-IsSound k c h
  reconcile-IsSound k (found nc) c h = reconcile_node_config-IsSound k nc c h

  -- The runner of an agent of a NodeConfig.
  abbrev pub runner_for : AnyAgent F → NodeConfig → EndpointTerm → AgentRunner (AnyAgent F)
  runner_for a nc conf = record {
    agent = a;
    node_name = nc.spec.node_name;
    interval = max_ℤ (fetch_interval_of conf) min_interval;
    timeout = shorter_by_300ms (fetch_interval_of conf);
  }

  -- `after` has two runners more than `c`, for the agents `a` and `b`, under the two keys, and every
  -- runner of `c` goes on in it as before.
  abbrev pub Registered :
      NamespacedName
      → NodeConfig
      → AnyAgent F
      → AnyAgent F
      → Collector (AnyAgent F)
      → Collector (AnyAgent F)
      → Type 0
  Registered k nc a b c after =
      (lookup (collector_key k ValueType.inlet_temperature) after.runners ≡ some c.next)
      × (lookup (collector_key k ValueType.delta_pressure) after.runners ≡ some (suc c.next))
      × (after.runner c.next ≡ some (runner_for a nc nc.spec.metrics_collector.inlet_temp))
      × (after.runner (suc c.next) ≡ some (runner_for b nc nc.spec.metrics_collector.delta_p))
      × ((n : ℕ) → n < c.next → after.running n ≡ c.running n)

  register_agents-Registered :
      (k : NamespacedName) (nc : NodeConfig) (a b : AnyAgent F) (c : Collector (AnyAgent F))
      → Registered k nc a b c (
          register_agent k ValueType.delta_pressure b nc nc.spec.metrics_collector.delta_p (
            register_agent k ValueType.inlet_temperature a nc nc.spec.metrics_collector.inlet_temp
              c))
  unfolding register_agent register
  register_agents-Registered k nc a b c = (
    lookup-insert_ne (collector_key k ValueType.delta_pressure)
          (collector_key k ValueType.inlet_temperature) (suc c.next)
          (insert (collector_key k ValueType.inlet_temperature) c.next c.runners)
          (λ e. collector_keys-differ k (sym e))
        ∙ lookup-insert_self (collector_key k ValueType.inlet_temperature) c.next c.runners,
    lookup-insert_self (collector_key k ValueType.delta_pressure) (suc c.next)
        (insert (collector_key k ValueType.inlet_temperature) c.next c.runners),
    ground arith,
    ground arith,
    λ n h. ground arith,
  )

  -- A Reconcile of a NodeConfig that succeeds registers two new runners, one for each agent that the
  -- NodeConfig asks for, under the two keys, with an interval of a second at least and a timeout of
  -- 300 milliseconds less than the interval asked for; it stops no runner, not even those that were
  -- registered under the keys.
  pub reconcile-Registered :
      (k : NamespacedName) (nc : NodeConfig) (c : Collector (AnyAgent F))
      → (reconcile fake_temp fake_pressure secrets k (found nc) c).0 ≡ none
      → (a b : AnyAgent F) × (inlet_temp_agent fake_temp fake_pressure secrets k.namespace
            nc.spec.metrics_collector.inlet_temp
          ≡ some a)
        × (delta_p_agent fake_temp fake_pressure secrets k.namespace nc.spec.node_name
              nc.spec.metrics_collector.delta_p
            ≡ some b)
        × Registered k nc a b c (reconcile fake_temp fake_pressure secrets k (found nc) c).1
  unfolding reconcile
  reconcile-Registered k nc c ended = elim (reconcile_node_config-cases k nc c) [
    | inl e ↦
        absurd (
          ground (arith, ended, ap (λ (x : Option ReconcileError × Collector (AnyAgent F)). x.0) e))
    | inr (inl (a, e, f)) ↦
        absurd (
          ground (arith, ended, ap (λ (x : Option ReconcileError × Collector (AnyAgent F)). x.0) f))
    | inr (inr (a, b, e, g, f)) ↦ (a, b, e, g, rw f (register_agents-Registered k nc a b c))
  ]
