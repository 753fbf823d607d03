-- ===== src/Collector.antt =====
-- wao-metrics-adapter/pkg/metrics: the store of metrics (store.go), and the runners that fill it
-- (collector.go). The delay before the first fetch and the timeouts are left out.
pub mod Laws
pub mod Overlap
pub mod Reconcile
pub mod Provider
mod Tests
use waok8s.Prelude.{
  ℕ, suc, ◌++◌, ◌∷◌, List, [], Option, none, some, Text, Dict, lit, lookup, insert, delete,
  lookup_or, ◌==◌, Bool, true, false, if◌then◌else◌,
}
use waok8s.Prelude.Int64.{ℤ, pos, max_ℤ}

pub data ValueType : Type 0 where
  inlet_temperature delta_pressure : ValueType

-- `ValueType` as text.
abbrev pub value_type_name : ValueType → Text
value_type_name inlet_temperature = lit "inlet_temp"
value_type_name delta_pressure = lit "delta_p"

-- `MetricData`; the zero time is 0.
pub record MetricData (F : Type 0) : Type 0 where
  pub inlet_temp : F
  pub inlet_temp_timestamp : ℕ
  pub delta_p : F
  pub delta_p_timestamp : ℕ

-- `StoreKeyForNode`
unfoldable pub store_key_for_node : Text → Text
store_key_for_node name = lit "/nodes/" ++ name

module _ {F : Type 0} (zero_data : MetricData F) where
  -- `Store.GetOrInit`: the entry, and the store after the call.
  unfoldable pub get_or_init : Text → Dict (MetricData F) → MetricData F × Dict (MetricData F)
  unfolding lookup insert lookup_or
  get_or_init k s =
      let s' : Dict (MetricData F) = elim (lookup k s) [
        | none ↦ insert k zero_data s
        | some _ ↦ s
      ] in
      (lookup_or zero_data k s', s')

  -- The switch on `ValueType`.
  unfoldable pub with_value : ValueType → F → ℕ → MetricData F → MetricData F
  with_value inlet_temperature v now m = record m { inlet_temp = v; inlet_temp_timestamp = now }
  with_value delta_pressure v now m = record m { delta_p = v; delta_p_timestamp = now }

  -- One round of the loop of `agentRunner.Run`, alone: `fetched` is none if `Fetch` fails.
  unfoldable pub run_round :
      Text → ValueType → Option F → ℕ → Dict (MetricData F) → Dict (MetricData F)
  unfolding get_or_init with_value insert store_key_for_node
  run_round node type_ none now s = s
  run_round node type_ (some v) now s =
      let (m, s') = get_or_init (store_key_for_node node) s in
      insert (store_key_for_node node) (with_value type_ v now m) s'

-- `agentRunner`, less the store and the channel; `A` is the type of the agents.
pub record AgentRunner (A : Type 0) : Type 0 where
  pub agent : A
  pub node_name : Text
  pub interval : ℤ
  pub timeout : ℤ

-- `Collector`: the runners by their keys. Runners are numbered as they are made; `runner` is the runner
-- of a number, and `running` tells whether its loop goes on.
pub record Collector (A : Type 0) : Type 0 where
  pub runners : Dict ℕ
  pub next : ℕ
  pub runner : ℕ → Option (AgentRunner A)
  pub running : ℕ → Bool

abbrev pub set_at : {B : Type 0} → ℕ → B → (ℕ → B) → ℕ → B
set_at n b f m = if m == n then b else f m

-- Durations are nanoseconds.
abbrev pub min_interval : ℤ
min_interval = pos 1000000000

-- `Register`
unfoldable pub register : {A : Type 0} → Text → A → Text → ℤ → ℤ → Collector A → Collector A
unfolding insert
register k a node_name interval timeout c = record {
  runners = insert k c.next c.runners;
  next = suc c.next;
  runner =
      set_at c.next
        (some (record {
          agent = a;
          node_name = node_name;
          interval = max_ℤ interval min_interval;
          timeout = timeout;
        }))
        c.runner;
  running = set_at c.next true c.running;
}

-- `Unregister`
unfoldable pub unregister : {A : Type 0} → Text → Collector A → Collector A
unfolding lookup delete
unregister k c = elim (lookup k c.runners) [
  | none ↦ record c { runners = delete k c.runners }
  | some n ↦ record c { runners = delete k c.runners; running = set_at n false c.running }
]
