-- ===== src/Collector/Reconcile/Leak.antt =====
-- Runners that no key leads to any more (wao-metrics-adapter/pkg/metrics/collector.go and
-- wao-metrics-adapter/pkg/controller/nodeconfig_controller.go).
use waok8s.Prelude.{
  ℕ, ◌<◌, ◌≡◌, ◌≢◌, sym, ap, ◌∙◌, inl, inr, List, [], ◌∷◌, none, some, Text, Dict, Option, lookup,
  lookup-insert_ne, text_eq_iff, true, arith, Option-cases,
}
use waok8s.Prelude.Int64.{ℤ}
use waok8s.Kube.{NamespacedName}
use waok8s.NodeApi.{EndpointTerm, NodeConfig}
use waok8s.Collector.{ValueType, Collector, register, unregister}
use waok8s.Collector.Reconcile.{
  AnyAgent, collector_key, fetch_interval_of, shorter_by_300ms, register_agent, ReconcileError,
  reconcile_node_config_deletion, Found, not_found, not_read, deleting, found, reconcile,
}
use waok8s.Collector.Reconcile.Sound.{
  IsSound, lookup-insert_cases, lookup-delete_cases, collector_keys-differ, register_agent-IsSound,
}
use waok8s.Collector.Reconcile.Deletion.{deletion-lookup}
use waok8s.Collector.Reconcile.Laws.{reconcile_node_config-cases}

-- The runner was made and goes on, and nothing is registered as it.
abbrev pub IsOrphan : {A : Type 0} → ℕ → Collector A → Type 0
IsOrphan n c = (n < c.next) × (c.running n ≡ true) × ((k : Text) → lookup k c.runners ≢ some n)

register-IsOrphan :
    {A : Type 0} (k : Text) (a : A) (node : Text) (interval timeout : ℤ) (c : Collector A) (n : ℕ)
    → IsOrphan n c
    → IsOrphan n (register k a node interval timeout c)
unfolding register
register-IsOrphan k a node interval timeout c n (less, goes_on, lost) = (
  omega (arith, less),
  ground (arith, goes_on),
  λ j e. elim (lookup-insert_cases k j c.next n c.runners e) [
    | inl (p, q) ↦ absurd (omega (arith, less, q))
    | inr (d, g) ↦ lost j g
  ],
)

-- A registration under a key that is taken leaves the runner there without a key.
register-orphans :
    {A : Type 0} (k : Text) (a : A) (node : Text) (interval timeout : ℤ) (c : Collector A) (n : ℕ)
    → IsSound c
    → lookup k c.runners ≡ some n
    → IsOrphan n (register k a node interval timeout c)
unfolding register
register-orphans k a node interval timeout c n sound e =
    let (less, goes_on, alone) = sound k n e in
    (
      omega (arith, less),
      ground (arith, goes_on),
      λ j f. elim (lookup-insert_cases k j c.next n c.runners f) [
        | inl (p, q) ↦ absurd (omega (arith, less, q))
        | inr (d, g) ↦ absurd (ground (arith, d, alone j g, text_eq_iff k j))
      ],
    )

unregister-IsOrphan :
    {A : Type 0} (k : Text) (c : Collector A) (n : ℕ) → IsOrphan n c → IsOrphan n (unregister k c)
unfolding unregister
unregister-IsOrphan k c n (less, goes_on, lost) = elim (Option-cases (lookup k c.runners)) [
  | inl e ↦
      rw (e, unregister) (less, goes_on, λ j f. lost j (lookup-delete_cases k j n c.runners f).1)
  | inr (m, e) ↦
      let other : n ≢ m = λ q. lost k (e ∙ ap some (sym q)) in
      rw (e, unregister)
        (
          less,
          ground (arith, goes_on, other),
          λ j f. lost j (lookup-delete_cases k j n c.runners f).1,
        )
]

module _ {F : Type 0} (fake_temp fake_pressure : F)
    (secrets : Text → Text → Option (Dict Text)) where
  register_agent-IsOrphan :
      (k : NamespacedName) (type_ : ValueType) (a : AnyAgent F) (nc : NodeConfig)
      (conf : EndpointTerm) (c : Collector (AnyAgent F)) (n : ℕ)
      → IsOrphan n c
      → IsOrphan n (register_agent k type_ a nc conf c)
  unfolding register_agent
  register_agent-IsOrphan k type_ a nc conf c n h =
      register-IsOrphan (collector_key k type_) a nc.spec.node_name (fetch_interval_of conf)
        (shorter_by_300ms (fetch_interval_of conf)) c n h

  register_agent-orphans :
      (k : NamespacedName) (type_ : ValueType) (a : AnyAgent F) (nc : NodeConfig)
      (conf : EndpointTerm) (c : Collector (AnyAgent F)) (n : ℕ)
      → IsSound c
      → lookup (collector_key k type_) c.runners ≡ some n
      → IsOrphan n (register_agent k type_ a nc conf c)
  unfolding register_agent
  register_agent-orphans k type_ a nc conf c n h e =
      register-orphans (collector_key k type_) a nc.spec.node_name (fetch_interval_of conf)
        (shorter_by_300ms (fetch_interval_of conf)) c n h e

  deletion-IsOrphan :
      (k : NamespacedName) (c : Collector (AnyAgent F)) (n : ℕ)
      → IsOrphan n c
      → IsOrphan n (reconcile_node_config_deletion k c)
  unfolding reconcile_node_config_deletion
  deletion-IsOrphan k c n h =
      let temp = collector_key k ValueType.inlet_temperature in
      unregister-IsOrphan (collector_key k ValueType.delta_pressure) (unregister temp c) n
        (unregister-IsOrphan temp c n h)

  reconcile-IsOrphan :
      (k : NamespacedName) (o : Found) (c : Collector (AnyAgent F)) (n : ℕ)
      → IsOrphan n c
      → IsOrphan n (reconcile fake_temp fake_pressure secrets k o c).1
  unfolding reconcile
  reconcile-IsOrphan k not_found c n h = deletion-IsOrphan k c n h
  reconcile-IsOrphan k not_read c n h = h
  reconcile-IsOrphan k deleting c n h = deletion-IsOrphan k c n h
  reconcile-IsOrphan k (found nc) c n h =
      let temp = nc.spec.metrics_collector.inlet_temp in
      let pressure = nc.spec.metrics_collector.delta_p in
      elim (reconcile_node_config-cases fake_temp fake_pressure secrets k nc c) [
        | inl e ↦ rw e h
        | inr (inl (a, e, f)) ↦
            rw f (register_agent-IsOrphan k ValueType.inlet_temperature a nc temp c n h)
        | inr (inr (a, b, e, g, f)) ↦ rw f (
            register_agent-IsOrphan k ValueType.delta_pressure b nc pressure
              (register_agent k ValueType.inlet_temperature a nc temp c) n
              (register_agent-IsOrphan k ValueType.inlet_temperature a nc temp c n h))
      ]

  -- The collector after Reconciles of any NodeConfigs, one after the other.
  abbrev pub reconcile_all :
      List (NamespacedName × Found) → Collector (AnyAgent F) → Collector (AnyAgent F)
  reconcile_all [] c = c
  reconcile_all ((k, o) ∷ later) c =
      reconcile_all later (reconcile fake_temp fake_pressure secrets k o c).1

  reconcile_all-IsOrphan :
      (later : List (NamespacedName × Found)) (c : Collector (AnyAgent F)) (n : ℕ)
      → IsOrphan n c
      → IsOrphan n (reconcile_all later c)
  reconcile_all-IsOrphan [] c n h = h
  reconcile_all-IsOrphan ((k, o) ∷ later) c n h =
      reconcile_all-IsOrphan later (reconcile fake_temp fake_pressure secrets k o c).1 n
        (reconcile-IsOrphan k o c n h)

  pressure_taken :
      (k : NamespacedName) (a : AnyAgent F) (nc : NodeConfig) (conf : EndpointTerm)
      (c : Collector (AnyAgent F)) (n : ℕ)
      → lookup (collector_key k ValueType.delta_pressure) c.runners ≡ some n
      → lookup
          (collector_key k ValueType.delta_pressure)
          (register_agent k ValueType.inlet_temperature a nc conf c).runners
        ≡ some n
  unfolding register_agent register
  pressure_taken k a nc conf c n e =
      lookup-insert_ne (collector_key k ValueType.inlet_temperature)
        (collector_key k ValueType.delta_pressure) c.next c.runners (collector_keys-differ k)
      ∙ e

  replaced-IsOrphan :
      (k : NamespacedName) (a b : AnyAgent F) (nc : NodeConfig) (temp pressure : EndpointTerm)
      (c : Collector (AnyAgent F)) (type_ : ValueType) (n : ℕ)
      → IsSound c
      → lookup (collector_key k type_) c.runners ≡ some n
      → IsOrphan n (
          register_agent k ValueType.delta_pressure b nc pressure
            (register_agent k ValueType.inlet_temperature a nc temp c))
  replaced-IsOrphan k a b nc temp pressure c ValueType.inlet_temperature n sound e =
      register_agent-IsOrphan k ValueType.delta_pressure b nc pressure
        (register_agent k ValueType.inlet_temperature a nc temp c) n
        (register_agent-orphans k ValueType.inlet_temperature a nc temp c n sound e)
  replaced-IsOrphan k a b nc temp pressure c ValueType.delta_pressure n sound e =
      register_agent-orphans k ValueType.delta_pressure b nc pressure
        (register_agent k ValueType.inlet_temperature a nc temp c) n
        (register_agent-IsSound k ValueType.inlet_temperature a nc temp c sound)
        (pressure_taken k a nc temp c n e)

  -- In a collector in which each registered runner goes on and is registered under one key only, a runner
  -- that is registered for a NodeConfig is lost once the NodeConfig is reconciled again with success:
  -- whatever Reconciles follow, of this NodeConfig or of others, the runner goes on, and no key leads to it;
  -- also when the NodeConfig is gone after them, and nothing is registered under either of its keys.
  pub reconcile_leaks :
      (k : NamespacedName) (nc : NodeConfig) (c : Collector (AnyAgent F)) (type_ : ValueType)
      (n : ℕ) (later : List (NamespacedName × Found))
      → IsSound c
      → lookup (collector_key k type_) c.runners ≡ some n
      → (reconcile fake_temp fake_pressure secrets k (found nc) c).0 ≡ none
      → (let now =
            reconcile_all later (reconcile fake_temp fake_pressure secrets k (found nc) c).1 in
          let gone = (reconcile fake_temp fake_pressure secrets k not_found now).1 in
          IsOrphan n now
          × IsOrphan n gone
          × ((t : ValueType) → lookup (collector_key k t) gone.runners ≡ none))
  unfolding reconcile
  reconcile_leaks k nc c type_ n later sound e ended =
      let now = reconcile_all later (reconcile fake_temp fake_pressure secrets k (found nc) c).1 in
      let stays =
        reconcile_all-IsOrphan later (reconcile fake_temp fake_pressure secrets k (found nc) c).1 n
          lost in
      (stays, reconcile-IsOrphan k not_found now n stays, deletion-lookup k now)
    where
      lost : IsOrphan n (reconcile fake_temp fake_pressure secrets k (found nc) c).1
      lost = elim (reconcile_node_config-cases fake_temp fake_pressure secrets k nc c) [
        | inl f ↦ absurd (
            ground
              (arith, ended, ap (λ (x : Option ReconcileError × Collector (AnyAgent F)). x.0) f))
        | inr (inl (a, q, f)) ↦ absurd (
            ground
              (arith, ended, ap (λ (x : Option ReconcileError × Collector (AnyAgent F)). x.0) f))
        | inr (inr (a, b, q, g, f)) ↦ rw f (
            replaced-IsOrphan k a b nc nc.spec.metrics_collector.inlet_temp
              nc.spec.metrics_collector.delta_p c type_ n sound e)
      ]
