-- ===== src/Agents/Dpapi.antt =====
-- wao-metrics-adapter/pkg/metrics/dpapi/agent.go: the differential pressure.
use waok8s.Prelude.{
  true, false, List, [], ◌∷◌, Option, none, Text, lit, Result, ok, err, or_fail, ◌>>=◌,
}
use waok8s.Agents.Http.{HttpError, Net, RequestEditorFn, call, is_empty}

-- `DeltaPAgent`
pub record DeltaPAgent : Type 0 where
  pub address : Text
  pub sensor_name : Text
  pub node_name : Text
  pub node_ip : Text
  pub editor_fns : List RequestEditorFn

-- `sensorValue`
pub record SensorValue (F : Type 0) : Type 0 where
  pub sensor_id : Text
  pub pressure : F
  pub temperature : F

module _ {F Body : Type 0} (net : Net Body)
    (decode_sensors : Body → Option (List (SensorValue F))) where
  -- `Endpoint`
  unfoldable pub endpoint : DeltaPAgent → Option Text
  endpoint a = elim (is_empty a.sensor_name) [
    | false ↦ net.join_path a.address (lit "api" ∷ lit "sensor" ∷ a.sensor_name ∷ [])
    | true ↦ elim (is_empty a.node_name) [
      | false ↦
          net.join_path a.address (lit "api" ∷ lit "sensor" ∷ lit "by_nodename" ∷ a.node_name ∷ [])
      | true ↦ elim (is_empty a.node_ip) [
        | false ↦
            net.join_path a.address
              (lit "api" ∷ lit "sensor" ∷ lit "by_nodeaddress" ∷ a.node_ip ∷ [])
        | true ↦ none
      ]
    ]
  ]

  -- `apiResp.Sensors[0]`, after the test of its length.
  unfoldable pub first_sensor : List (SensorValue F) → Result HttpError (SensorValue F)
  first_sensor [] = err HttpError.invalid_response
  first_sensor (v ∷ vs) = ok v

  -- `GetSensorValue`
  unfoldable pub get_sensor_value : DeltaPAgent → Result HttpError (SensorValue F)
  unfolding call endpoint first_sensor
  get_sensor_value a =
      call net a.editor_fns (lit "GET") (endpoint a) HttpError.no_endpoint (ok [])
        (λ body. or_fail (decode_sensors body) HttpError.not_decoded >>= first_sensor)

  -- `Fetch`
  unfoldable pub fetch : DeltaPAgent → Result HttpError F
  unfolding get_sensor_value
  fetch a = get_sensor_value a >>= λ v. ok v.pressure
