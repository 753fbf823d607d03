-- ===== src/Collector/Laws.antt =====
-- What a round writes, and which runners go on.
use waok8s.Prelude.{
  ℕ, ◌<◌, ◌≡◌, refl, ap, ◌∙◌, ◌≢◌, inl, inr, none, some, Text, Dict, lookup, insert, lookup_or,
  lookup-insert_self, lookup-insert_ne, lookup-delete, text_eq_self, false, arith, Option-cases,
}
use waok8s.Prelude.Int64.{ℤ}
use waok8s.Collector.{
  ValueType, MetricData, store_key_for_node, get_or_init, with_value, run_round, Collector,
  register, unregister,
}

module _ {F : Type 0} (zero_data : MetricData F) where
  pub get_or_init-entry :
      (k : Text) (s : Dict (MetricData F)) → (get_or_init zero_data k s).0 ≡ lookup_or zero_data k s
  unfolding get_or_init lookup_or
  get_or_init-entry k s = elim (Option-cases (lookup k s)) [
    | inl e ↦ rw (e, get_or_init, lookup_or) (rw (lookup-insert_self k zero_data s, lookup_or) refl)
    | inr (m, e) ↦ rw (e, get_or_init, lookup_or) (rw (e, lookup_or) refl)
  ]

  pub lookup_or-get_or_init :
      (k : Text) (s : Dict (MetricData F))
      → lookup_or zero_data k (get_or_init zero_data k s).1 ≡ lookup_or zero_data k s
  unfolding get_or_init
  lookup_or-get_or_init k s = get_or_init-entry k s

  get_or_init-others :
      (k j : Text) (s : Dict (MetricData F))
      → k ≢ j
      → lookup j (get_or_init zero_data k s).1 ≡ lookup j s
  unfolding get_or_init
  get_or_init-others k j s h = elim (Option-cases (lookup k s)) [
    | inl e ↦ rw (e, get_or_init) (lookup-insert_ne k j zero_data s h)
    | inr (m, e) ↦ rw (e, get_or_init) refl
  ]

  -- A round that fetches a value sets it with its time in the entry of the node, keeps the other value
  -- of the entry, and leaves the entries under other keys alone.
  pub run_round-entry :
      (node : Text) (t : ValueType) (v : F) (now : ℕ) (s : Dict (MetricData F))
      → (lookup (store_key_for_node node) (run_round zero_data node t (some v) now s)
          ≡ some (with_value zero_data t v now (lookup_or zero_data (store_key_for_node node) s)))
        × ((k : Text)
            → store_key_for_node node ≢ k
            → lookup k (run_round zero_data node t (some v) now s) ≡ lookup k s)
  unfolding run_round
  run_round-entry node t v now s =
      let key = store_key_for_node node in
      let (m, s') = get_or_init zero_data key s in
      (
        lookup-insert_self key (with_value zero_data t v now m) s'
            ∙ ap (λ (x : MetricData F). some (with_value zero_data t v now x))
                (get_or_init-entry key s),
        λ k h.
            lookup-insert_ne key k (with_value zero_data t v now m) s' h
            ∙ get_or_init-others key k s h,
      )

module _ {A : Type 0} (k : Text) (a : A) (node : Text) (interval timeout : ℤ)
    (c : Collector A) where
  -- After `Register` and then `Unregister` of a key, nothing is registered under it, its runner has
  -- stopped, and every earlier runner goes on as before.
  unregister-register :
      (lookup k (unregister k (register k a node interval timeout c)).runners ≡ none)
      × ((unregister k (register k a node interval timeout c)).running c.next ≡ false)
      × ((n : ℕ)
          → n < c.next
          → (unregister k (register k a node interval timeout c)).running n ≡ c.running n)
  unfolding unregister register
  unregister-register =
      let found = lookup-insert_self k c.next c.runners in
      rw (found, unregister)
        (
          ground (arith, lookup-delete k k (insert k c.next c.runners), text_eq_self k),
          ground arith,
          λ n h. ground arith,
        )
