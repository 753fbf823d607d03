-- ===== src/Agents/Fake.antt =====
-- wao-metrics-adapter/pkg/metrics/fake/agent.go: an agent that answers a fixed value after a delay.
use waok8s.Prelude.{true, false, Option, none, some, Result, ok, err}
use waok8s.Prelude.Int64.{ℤ, ltb_ℤ}
use waok8s.Agents.Http.{HttpError}
use waok8s.Collector.{ValueType}

-- `FakeAgent`
pub record FakeAgent (F : Type 0) : Type 0 where
  pub type_ : ValueType
  pub value : F
  pub error : Option HttpError
  pub delay : ℤ

-- `NewInletTempAgent`, `NewDeltaPAgent`
unfoldable pub new_inlet_temp_agent : {F : Type 0} → F → Option HttpError → ℤ → FakeAgent F
new_inlet_temp_agent value error delay = record {
  type_ = ValueType.inlet_temperature;
  value = value;
  error = error;
  delay = delay;
}

unfoldable pub new_delta_p_agent : {F : Type 0} → F → Option HttpError → ℤ → FakeAgent F
new_delta_p_agent value error delay = record {
  type_ = ValueType.delta_pressure;
  value = value;
  error = error;
  delay = delay;
}

-- `Fetch`, for a context that is done after `deadline`; when both are ready at once, the source may
-- choose either, and here the delay wins.
unfoldable pub fetch : {F : Type 0} → ℤ → FakeAgent F → Result HttpError F
fetch deadline a = elim (ltb_ℤ deadline a.delay) [
  | true ↦ err HttpError.cancelled
  | false ↦ elim a.error [ some e ↦ err e | none ↦ ok a.value ]
]
