-- ===== src/Collector/Reconcile/Sound.antt =====
-- A collector in which each runner is registered under one key, and goes on.
use waok8s.Prelude.{
  ℕ, ◌<◌, ◌≡◌, sym, ◌∙◌, ◌≢◌, ◌++◌, ◌∷◌, [], ◌⊎◌, inl, inr, some, Text, Dict, lookup, insert,
  delete, lookup-insert, lookup-delete, text_eq, text_eq_iff, true, false, arith, Option-cases,
  Bool-cases,
}
use waok8s.Prelude.Int64.{ℤ}
use waok8s.Kube.{NamespacedName}
use waok8s.NodeApi.{EndpointTerm, NodeConfig}
use waok8s.Collector.{ValueType, value_type_name, Collector, register, unregister}
use waok8s.Collector.Reconcile.{
  AnyAgent, collector_key, fetch_interval_of, shorter_by_300ms, register_agent,
  reconcile_node_config_deletion,
}

append_cancel : (s t u : Text) → s ++ t ≡ s ++ u → t ≡ u
append_cancel [] t u e = e
append_cancel (c ∷ s) t u e = append_cancel s t u (ground arith)

-- The keys of one NodeConfig differ.
pub collector_keys-differ :
    (k : NamespacedName)
    → collector_key k ValueType.inlet_temperature ≢ collector_key k ValueType.delta_pressure
unfolding collector_key
collector_keys-differ k e =
    let temp : Text = b'#' ∷ value_type_name ValueType.inlet_temperature in
    let pressure : Text = b'#' ∷ value_type_name ValueType.delta_pressure in
    let rest : b'/' ∷ (k.name ++ temp) ≡ b'/' ∷ (k.name ++ pressure) =
      append_cancel k.namespace _ _ e in
    let types : temp ≡ pressure = append_cancel k.name temp pressure (ground (arith, rest)) in
    absurd (ground (arith, types))

-- Each registered runner goes on, was made before, and is registered under one key.
abbrev pub IsSound : {A : Type 0} → Collector A → Type 0
IsSound c =
    (k : Text) (n : ℕ)
    → lookup k c.runners ≡ some n
    → (n < c.next) × (c.running n ≡ true) × ((j : Text) → lookup j c.runners ≡ some n → j ≡ k)

pub lookup-insert_cases :
    {V : Type 0} (k j : Text) (v w : V) (m : Dict V)
    → lookup j (insert k v m) ≡ some w
    → ((j ≡ k) × (w ≡ v)) ⊎ ((text_eq k j ≡ false) × (lookup j m ≡ some w))
lookup-insert_cases k j v w m e = elim (Bool-cases (text_eq k j)) [
  | inl same ↦ inl (ground (arith, same, e, lookup-insert k j v m, text_eq_iff k j))
  | inr other ↦ inr (ground (arith, other, e, lookup-insert k j v m))
]

pub register-IsSound :
    {A : Type 0} (k : Text) (a : A) (node : Text) (interval timeout : ℤ) (c : Collector A)
    → IsSound c
    → IsSound (register k a node interval timeout c)
unfolding register
register-IsSound k a node interval timeout c h j n e =
    elim (lookup-insert_cases k j c.next n c.runners e) [
      | inl (p, q) ↦ (
        ground arith,
        ground arith,
        λ i f. elim (lookup-insert_cases k i c.next n c.runners f) [
          | inl (r, s) ↦ r ∙ sym p
          | inr (d, g) ↦ absurd (let old = (h i n g).0 in omega (arith, old, q))
        ],
      )
      | inr (d, g) ↦
          let (less, goes_on, alone) = h j n g in
          (
            omega (arith, less),
            ground arith,
            λ i f. elim (lookup-insert_cases k i c.next n c.runners f) [
              | inl (r, s) ↦ absurd (omega (arith, less, s))
              | inr (d2, g2) ↦ alone i g2
            ],
          )
    ]

pub lookup-delete_cases :
    {V : Type 0} (k j : Text) (w : V) (m : Dict V)
    → lookup j (delete k m) ≡ some w
    → (text_eq k j ≡ false) × (lookup j m ≡ some w)
lookup-delete_cases k j w m e = ground (arith, e, lookup-delete k j m)

unregister-IsSound :
    {A : Type 0} (k : Text) (c : Collector A) → IsSound c → IsSound (unregister k c)
unfolding unregister
unregister-IsSound k c h = elim (Option-cases (lookup k c.runners)) [
  | inl nothing ↦
      rw (nothing, unregister)
        (λ j n e.
          let (d, g) = lookup-delete_cases k j n c.runners e in
          let (less, goes_on, alone) = h j n g in
          (less, goes_on, λ i f. alone i (lookup-delete_cases k i n c.runners f).1))
  | inr (m, registered) ↦
      rw (registered, unregister)
        (λ j n e.
          let (d, g) = lookup-delete_cases k j n c.runners e in
          let (less, goes_on, alone) = h j n g in
          (
            less,
            ground (arith, registered, goes_on, d, alone k, text_eq_iff k j),
            λ i f. alone i (lookup-delete_cases k i n c.runners f).1,
          ))
]

pub register_agent-IsSound :
    {F : Type 0} (k : NamespacedName) (type_ : ValueType) (a : AnyAgent F) (nc : NodeConfig)
    (conf : EndpointTerm) (c : Collector (AnyAgent F))
    → IsSound c
    → IsSound (register_agent k type_ a nc conf c)
unfolding register_agent
register_agent-IsSound k type_ a nc conf c h =
    register-IsSound (collector_key k type_) a nc.spec.node_name (fetch_interval_of conf)
      (shorter_by_300ms (fetch_interval_of conf)) c h

pub reconcile_node_config_deletion-IsSound :
    {F : Type 0} (k : NamespacedName) (c : Collector (AnyAgent F))
    → IsSound c
    → IsSound (reconcile_node_config_deletion k c)
unfolding reconcile_node_config_deletion
reconcile_node_config_deletion-IsSound k c h = unregister-IsSound _ _ (unregister-IsSound _ c h)
