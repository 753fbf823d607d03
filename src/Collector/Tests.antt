-- ===== src/Collector/Tests.antt =====
-- Runs of the collector and of its store.
use waok8s.Prelude.{
  ℕ, ◌≡◌, ◌≢◌, Text, Dict, lit, lookup, lookup_or, refl, [], ◌∷◌, some, none, false,
}
use waok8s.Prelude.Int64.{pos}
use waok8s.Collector.{
  ValueType, MetricData, store_key_for_node, with_value, run_round, Collector, register,
}
use waok8s.Collector.Laws.{run_round-entry}
use waok8s.Collector.Overlap.{Rounds, waiting, reads, writes, RoundSteps, Holds, two_rounds_lose}

abbrev zero_data : MetricData ℕ
zero_data = record { inlet_temp = 0; inlet_temp_timestamp = 0; delta_p = 0; delta_p_timestamp = 0 }

abbrev n1 : Text
n1 = lit "n1"

abbrev no_data : Dict (MetricData ℕ)
no_data = []

run_round-entry_run :
    (lookup
        (store_key_for_node n1)
        (run_round zero_data n1 ValueType.inlet_temperature (some 20) 5 no_data)
      ≡ some (
          with_value zero_data ValueType.inlet_temperature 20 5
            (lookup_or zero_data (store_key_for_node n1) no_data)))
    × ((k : Text)
        → store_key_for_node n1 ≢ k
        → lookup k (run_round zero_data n1 ValueType.inlet_temperature (some 20) 5 no_data)
          ≡ lookup k no_data)
run_round-entry_run = run_round-entry zero_data n1 ValueType.inlet_temperature 20 5 no_data

-- Both runners of the node wait, and the store is empty.
abbrev both_wait : Rounds ℕ
both_wait = record { store = no_data; clock = 5; phase = λ node t. waiting }

two_rounds_lose_example :
    ((s' : Rounds ℕ) × RoundSteps zero_data
        (reads n1 ValueType.inlet_temperature 20
          ∷ writes n1 ValueType.inlet_temperature
          ∷ reads n1 ValueType.delta_pressure 7
          ∷ writes n1 ValueType.delta_pressure
          ∷ [])
        both_wait
        s'
      × Holds zero_data n1 s' 20 5 7)
    × ((s' : Rounds ℕ) × RoundSteps zero_data
          (reads n1 ValueType.inlet_temperature 20
            ∷ reads n1 ValueType.delta_pressure 7
            ∷ writes n1 ValueType.inlet_temperature
            ∷ writes n1 ValueType.delta_pressure
            ∷ [])
          both_wait
          s'
        × Holds zero_data n1 s' 0 0 7)
unfolding lookup lookup_or
two_rounds_lose_example = two_rounds_lose zero_data n1 20 7 both_wait (refl, refl)

abbrev idle : Collector ℕ
idle = record { runners = []; next = 0; runner = λ n. none; running = λ n. false }

abbrev key : Text
key = lit "default/n1#inlet_temp"

abbrev once : Collector ℕ
once = register key 7 n1 (pos 15000000000) (pos 14700000000) idle
