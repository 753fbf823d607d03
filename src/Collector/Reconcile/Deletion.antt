-- ===== src/Collector/Reconcile/Deletion.antt =====
-- What Unregister and reconcileNodeConfigDeletion do to the runners.
use waok8s.Prelude.{
  ℕ, ◌≡◌, refl, inl, inr, none, some, Text, lookup, lookup-delete, text_eq, text_eq_self,
  text_eq_iff, false, arith, Option-cases, if◌then◌else◌, ◌==◌,
}
use waok8s.Kube.{NamespacedName}
use waok8s.Collector.{ValueType, Collector, unregister}
use waok8s.Collector.Reconcile.{AnyAgent, collector_key, reconcile_node_config_deletion}
use waok8s.Collector.Reconcile.Sound.{collector_keys-differ}

module _ {A : Type 0} (k : Text) (c : Collector A) where
  unregister-lookup :
      (j : Text)
      → lookup j (unregister k c).runners ≡ (if text_eq k j then none else lookup j c.runners)
  unfolding unregister
  unregister-lookup j = elim (Option-cases (lookup k c.runners)) [
    | inl e ↦ rw (e, unregister) (lookup-delete k j c.runners)
    | inr (n, e) ↦ rw (e, unregister) (lookup-delete k j c.runners)
  ]

  unregister-running :
      (m n : ℕ)
      → lookup k c.runners ≡ some m
      → (unregister k c).running n ≡ (if n == m then false else c.running n)
  unfolding unregister
  unregister-running m n e = rw (e, unregister) refl

  unregister-stopped : (n : ℕ) → c.running n ≡ false → (unregister k c).running n ≡ false
  unfolding unregister
  unregister-stopped n h = elim (Option-cases (lookup k c.runners)) [
    | inl e ↦ rw (e, unregister) h
    | inr (m, e) ↦ rw (e, unregister) (ground (arith, h))
  ]

module _ {F : Type 0} where
  pressure-kept :
      (k : NamespacedName) (c : Collector (AnyAgent F)) (q : ℕ)
      → lookup (collector_key k ValueType.delta_pressure) c.runners ≡ some q
      → lookup
          (collector_key k ValueType.delta_pressure)
          (unregister (collector_key k ValueType.inlet_temperature) c).runners
        ≡ some q
  pressure-kept k c q e =
      let temp = collector_key k ValueType.inlet_temperature in
      let pressure = collector_key k ValueType.delta_pressure in
      ground (
        arith,
        e,
        text_eq_iff temp pressure,
        collector_keys-differ k,
        unregister-lookup temp c pressure,
      )

  pub deletion-lookup :
      (k : NamespacedName) (c : Collector (AnyAgent F)) (type_ : ValueType)
      → lookup (collector_key k type_) (reconcile_node_config_deletion k c).runners ≡ none
  unfolding reconcile_node_config_deletion
  deletion-lookup k c ValueType.inlet_temperature =
      let temp = collector_key k ValueType.inlet_temperature in
      ground (
        arith,
        text_eq_self temp,
        unregister-lookup temp c temp,
        unregister-lookup (collector_key k ValueType.delta_pressure) (unregister temp c) temp,
      )
  deletion-lookup k c ValueType.delta_pressure =
      let pressure = collector_key k ValueType.delta_pressure in
      ground (
        arith,
        text_eq_self pressure,
        unregister-lookup pressure (unregister (collector_key k ValueType.inlet_temperature) c)
            pressure,
      )

  -- After reconcileNodeConfigDeletion, a runner that was registered under one of the two keys has stopped,
  -- and nothing is registered under that key.
  pub deletion-stops :
      (k : NamespacedName) (c : Collector (AnyAgent F)) (type_ : ValueType) (n : ℕ)
      → lookup (collector_key k type_) c.runners ≡ some n
      → (lookup (collector_key k type_) (reconcile_node_config_deletion k c).runners ≡ none)
        × ((reconcile_node_config_deletion k c).running n ≡ false)
  unfolding reconcile_node_config_deletion
  deletion-stops k c ValueType.inlet_temperature n e =
      let temp = collector_key k ValueType.inlet_temperature in
      let stopped = unregister-running temp c n n e in
      (
        deletion-lookup k c ValueType.inlet_temperature,
        unregister-stopped (collector_key k ValueType.delta_pressure) (unregister temp c) n
            (ground (arith, stopped)),
      )
  deletion-stops k c ValueType.delta_pressure n e =
      let temp = collector_key k ValueType.inlet_temperature in
      let pressure = collector_key k ValueType.delta_pressure in
      let stopped = unregister-running pressure (unregister temp c) n n (pressure-kept k c n e) in
      (deletion-lookup k c ValueType.delta_pressure, ground (arith, stopped))
