-- ===== src/Collector/Overlap.antt =====
-- wao-metrics-adapter/pkg/metrics/collector.go: the rounds of the loops of agentRunner.Run, each a
-- goroutine of its own, in steps that interleave. Between its steps a runner keeps the entry that
-- GetOrInit has returned. GetOrInit is one step; the time is read when the entry is written.
use waok8s.Prelude.{
  ℕ, suc, ◌≡◌, refl, ap, ◌∙◌, List, [], ◌∷◌, Bool, true, false, ◌&&◌, some, Text, Dict, lookup,
  insert, lookup_or, lookup-insert_self, text_eq, text_eq_self, if◌then◌else◌,
}
use waok8s.Collector.{ValueType, MetricData, store_key_for_node, get_or_init, with_value}
use waok8s.Collector.Laws.{get_or_init-entry, lookup_or-get_or_init}

-- Where a runner is: it waits, or holds an entry and the value that it has fetched.
pub data Phase (F : Type 0) : Type 0 where
  waiting : Phase F
  holding : MetricData F → F → Phase F

-- The store, the time, and where the runner for a value of a node is.
pub record Rounds (F : Type 0) : Type 0 where
  pub store : Dict (MetricData F)
  pub clock : ℕ
  pub phase : Text → ValueType → Phase F

abbrev pub same_type : ValueType → ValueType → Bool
same_type ValueType.inlet_temperature ValueType.inlet_temperature = true
same_type ValueType.inlet_temperature ValueType.delta_pressure = false
same_type ValueType.delta_pressure ValueType.inlet_temperature = false
same_type ValueType.delta_pressure ValueType.delta_pressure = true

same_type_self : (t : ValueType) → same_type t t ≡ true
same_type_self ValueType.inlet_temperature = refl
same_type_self ValueType.delta_pressure = refl

abbrev pub set_phase :
    {F : Type 0}
    → Text
    → ValueType
    → Phase F
    → (Text → ValueType → Phase F)
    → Text
    → ValueType
    → Phase F
set_phase node t p phase n u = if text_eq node n && same_type t u then p else phase n u

-- What a runner does, and the passing of time.
pub data RoundEvent (F : Type 0) : Type 0 where
  fails : Text → ValueType → RoundEvent F
  reads : Text → ValueType → F → RoundEvent F
  writes : Text → ValueType → RoundEvent F
  tick : RoundEvent F

module _ {F : Type 0} (zero_data : MetricData F) where
  -- A fetched value `v`, up to the return of GetOrInit.
  unfoldable pub begin_round : Text → ValueType → F → Rounds F → Rounds F
  unfolding get_or_init store_key_for_node
  begin_round node t v s =
      let (m, store') = get_or_init zero_data (store_key_for_node node) s.store in
      record s { store = store'; phase = set_phase node t (holding m v) s.phase }

  -- The switch on the type of the value, and Set.
  unfoldable pub end_round : Text → ValueType → MetricData F → F → Rounds F → Rounds F
  unfolding with_value insert store_key_for_node
  end_round node t m v s = record s {
    store = insert (store_key_for_node node) (with_value zero_data t v s.clock m) s.store;
    phase = set_phase node t waiting s.phase;
  }

  pub data RoundStep : RoundEvent F → Rounds F → Rounds F → Type 0 where
    fail :
        (s : Rounds F) (node : Text) (t : ValueType)
        → s.phase node t ≡ waiting
        → RoundStep (fails node t) s s
    read :
        (s : Rounds F) (node : Text) (t : ValueType) (v : F)
        → s.phase node t ≡ waiting
        → RoundStep (reads node t v) s (begin_round node t v s)
    write :
        (s : Rounds F) (node : Text) (t : ValueType) (m : MetricData F) (v : F)
        → s.phase node t ≡ holding m v
        → RoundStep (writes node t) s (end_round node t m v s)
    pass : (s : Rounds F) → RoundStep tick s (record s { clock = suc s.clock })

  pub data RoundSteps : List (RoundEvent F) → Rounds F → Rounds F → Type 0 where
    stop : (s : Rounds F) → RoundSteps [] s s
    next :
        {e : RoundEvent F} {es : List (RoundEvent F)} {s t u : Rounds F}
        → RoundStep e s t
        → RoundSteps es t u
        → RoundSteps (e ∷ es) s u

  -- The entry of a node.
  abbrev pub entry_of : Text → Rounds F → MetricData F
  entry_of node s = lookup_or zero_data (store_key_for_node node) s.store

  module _ (node : Text) (t : ValueType) (s : Rounds F) where
    set_phase_self : (p : Phase F) → set_phase node t p s.phase node t ≡ p
    set_phase_self p = rw (text_eq_self node, same_type_self t) refl

    begin_round-phase :
        (v : F) → (begin_round node t v s).phase node t ≡ holding (entry_of node s) v
    unfolding begin_round
    begin_round-phase v =
        set_phase_self (holding (get_or_init zero_data (store_key_for_node node) s.store).0 v)
        ∙ ap (λ m. holding m v) (get_or_init-entry zero_data (store_key_for_node node) s.store)

    begin_round-other :
        (u : ValueType) (v : F)
        → same_type t u ≡ false
        → (begin_round node t v s).phase node u ≡ s.phase node u
    unfolding begin_round
    begin_round-other u v e = rw (e, text_eq_self node) refl

    begin_round-entry : (v : F) → entry_of node (begin_round node t v s) ≡ entry_of node s
    unfolding begin_round
    begin_round-entry v = lookup_or-get_or_init zero_data (store_key_for_node node) s.store

    end_round-other :
        (u : ValueType) (m : MetricData F) (v : F)
        → same_type t u ≡ false
        → (end_round node t m v s).phase node u ≡ s.phase node u
    unfolding end_round
    end_round-other u m v e = rw (e, text_eq_self node) refl

    end_round-lookup :
        (m : MetricData F) (v : F)
        → lookup (store_key_for_node node) (end_round node t m v s).store
          ≡ some (with_value zero_data t v s.clock m)
    unfolding end_round
    end_round-lookup m v =
        lookup-insert_self (store_key_for_node node) (with_value zero_data t v s.clock m) s.store

    end_round-entry :
        (m : MetricData F) (v : F)
        → entry_of node (end_round node t m v s) ≡ with_value zero_data t v s.clock m
    unfolding lookup_or
    end_round-entry m v = rw (end_round-lookup m v, lookup_or) refl

  -- Both runners of a node are at the start of a round.
  abbrev pub BothWait : Text → Rounds F → Type 0
  BothWait node s =
      (s.phase node ValueType.inlet_temperature ≡ waiting)
      × (s.phase node ValueType.delta_pressure ≡ waiting)

  -- The store has an entry of the node with these values.
  abbrev pub Holds : Text → Rounds F → F → ℕ → F → Type 0
  Holds node s temp temp_time pressure =
      (m : MetricData F) × (lookup (store_key_for_node node) s.store ≡ some m)
      × (m.inlet_temp ≡ temp)
      × (m.inlet_temp_timestamp ≡ temp_time)
      × (m.delta_p ≡ pressure)

  module _ (node : Text) (v w : F) (s : Rounds F) (wait : BothWait node s) where
    one_by_one :
        (s' : Rounds F) × RoundSteps
          (reads node ValueType.inlet_temperature v
            ∷ writes node ValueType.inlet_temperature
            ∷ reads node ValueType.delta_pressure w
            ∷ writes node ValueType.delta_pressure
            ∷ [])
          s
          s'
        × Holds node s' v s.clock w
    unfolding with_value begin_round
    one_by_one =
        let temp = ValueType.inlet_temperature in
        let pressure = ValueType.delta_pressure in
        let s1 = begin_round node temp v s in
        let s2 = end_round node temp (entry_of node s) v s1 in
        let s3 = begin_round node pressure w s2 in
        let m = entry_of node s2 in
        let still : s2.phase node pressure ≡ waiting =
          end_round-other node temp s1 pressure (entry_of node s) v refl
          ∙ begin_round-other node temp s pressure v refl
          ∙ wait.1 in
        let kept : m.inlet_temp ≡ v =
          ap (λ (x : MetricData F). x.inlet_temp)
            (end_round-entry node temp s1 (entry_of node s) v) in
        (
          end_round node pressure m w s3,
          next (read s node temp v wait.0) (
              next (write s1 node temp (entry_of node s) v (begin_round-phase node temp s v)) (
                next (read s2 node pressure w still) (
                  next (write s3 node pressure m w (begin_round-phase node pressure s2 w))
                    (stop _)))),
          (
            with_value zero_data pressure w s3.clock m,
            end_round-lookup node pressure s3 m w,
            kept,
            ap (λ (x : MetricData F). x.inlet_temp_timestamp)
                (end_round-entry node temp s1 (entry_of node s) v),
            refl,
          ),
        )

    overlapping :
        (s' : Rounds F) × RoundSteps
          (reads node ValueType.inlet_temperature v
            ∷ reads node ValueType.delta_pressure w
            ∷ writes node ValueType.inlet_temperature
            ∷ writes node ValueType.delta_pressure
            ∷ [])
          s
          s'
        × Holds node s' (entry_of node s).inlet_temp (entry_of node s).inlet_temp_timestamp w
    unfolding with_value
    overlapping =
        let temp = ValueType.inlet_temperature in
        let pressure = ValueType.delta_pressure in
        let m = entry_of node s in
        let s1 = begin_round node temp v s in
        let s2 = begin_round node pressure w s1 in
        let s3 = end_round node temp m v s2 in
        let first : s2.phase node temp ≡ holding m v =
          begin_round-other node pressure s1 temp w refl ∙ begin_round-phase node temp s v in
        let second : s3.phase node pressure ≡ holding m w =
          end_round-other node temp s2 pressure m v refl
          ∙ begin_round-phase node pressure s1 w
          ∙ ap (λ x. holding x w) (begin_round-entry node temp s v) in
        (
          end_round node pressure m w s3,
          next (read s node temp v wait.0) (
              next
                (read s1 node pressure w (begin_round-other node temp s pressure v refl ∙ wait.1))
                (next (write s2 node temp m v first)
                  (next (write s3 node pressure m w second) (stop _)))),
          (
            with_value zero_data pressure w s3.clock m,
            end_round-lookup node pressure s3 m w,
            refl,
            refl,
            refl,
          ),
        )

  -- The two runners of a node can do the same four steps in two orders, from each state where both wait.
  -- One round after the other leaves the temperature and the pressure that were fetched. If both read
  -- before either writes, the temperature that was fetched is lost: the entry holds the one from before,
  -- with its time, and the new pressure.
  pub two_rounds_lose :
      (node : Text) (v w : F) (s : Rounds F)
      → BothWait node s
      → ((s' : Rounds F) × RoundSteps
            (reads node ValueType.inlet_temperature v
              ∷ writes node ValueType.inlet_temperature
              ∷ reads node ValueType.delta_pressure w
              ∷ writes node ValueType.delta_pressure
              ∷ [])
            s
            s'
          × Holds node s' v s.clock w)
        × ((s' : Rounds F) × RoundSteps
              (reads node ValueType.inlet_temperature v
                ∷ reads node ValueType.delta_pressure w
                ∷ writes node ValueType.inlet_temperature
                ∷ writes node ValueType.delta_pressure
                ∷ [])
              s
              s'
            × Holds node s' (entry_of node s).inlet_temp (entry_of node s).inlet_temp_timestamp w)
  two_rounds_lose node v w s wait = (one_by_one node v w s wait, overlapping node v w s wait)
