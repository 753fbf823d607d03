-- ===== src/Agents/Redfish.antt =====
-- wao-metrics-adapter/pkg/metrics/redfish/agent.go: the inlet temperature from a Redfish server, whose
-- kind is found by trying all.
use waok8s.Prelude.{
  true, false, List, [], ◌∷◌, Option, none, some, Text, lit, text_eq, Result, ok, err, or_fail,
  ◌>>=◌,
}
use waok8s.Agents.Http.{HttpError, Net, RequestEditorFn, call}

pub data ServerType : Type 0 where
  auto_detect delli_drac lenovo_xclarity supermicro_ssm : ServerType
  other_server : Text → ServerType

-- `json.Decoder.Decode` for the three types `apiResponse`.
pub record Decoders (F Body : Type 0) : Type 0 where
  pub decode_reading : Body → Option F
  pub decode_named_reading : Body → Option (Text × F)
  pub decode_temperatures : Body → Option (List (Text × F))

module _ {F Body : Type 0} (net : Net Body) (decoders : Decoders F Body) where
  -- `GetInletTempForTypeDelliDRAC`
  unfoldable pub get_inlet_temp_delli_drac : Text → List RequestEditorFn → Result HttpError F
  unfolding call
  get_inlet_temp_delli_drac server fns =
      call net fns (lit "GET")
        (net.join_path server
          (lit "redfish/v1/Chassis/System.Embedded.1/Sensors/SystemBoardInletTemp" ∷ []))
        HttpError.bad_url (ok [])
        (λ body. or_fail (decoders.decode_reading body) HttpError.not_decoded)

  -- `GetInletTempForTypeLenovoXClarity`
  unfoldable pub get_inlet_temp_lenovo_xclarity : Text → List RequestEditorFn → Result HttpError F
  unfolding call text_eq
  get_inlet_temp_lenovo_xclarity server fns =
      call net fns (lit "GET")
        (net.join_path server (lit "redfish/v1/Chassis/1/Sensors/" ∷ lit "128L0" ∷ []))
        HttpError.bad_url (ok [])
        (λ body. or_fail (decoders.decode_named_reading body) HttpError.not_decoded >>= λ answer.
          elim (text_eq answer.0 (lit "Ambient Temp")) [
            | true ↦ ok answer.1
            | false ↦ err HttpError.wrong_sensor
          ])

  -- The loop over `apiResp.Temperatures`.
  unfoldable pub find_temperature : Text → List (Text × F) → Option F
  unfolding text_eq
  find_temperature name [] = none
  find_temperature name ((sensor, celsius) ∷ sensors) = elim (text_eq sensor name) [
    | true ↦ some celsius
    | false ↦ find_temperature name sensors
  ]

  -- `GetInletTempForTypeSupermicroSSM`
  unfoldable pub get_inlet_temp_supermicro_ssm : Text → List RequestEditorFn → Result HttpError F
  unfolding call find_temperature
  get_inlet_temp_supermicro_ssm server fns =
      call net fns (lit "GET") (net.join_path server (lit "redfish/v1/Chassis/1/Thermal" ∷ []))
        HttpError.bad_url (ok [])
        (λ body. or_fail (decoders.decode_temperatures body) HttpError.not_decoded >>= λ sensors.
          or_fail (find_temperature (lit "System Temp") sensors) HttpError.sensor_not_found)

  -- `GetInletTempFns`
  unfoldable pub get_inlet_temp_fns :
      ServerType → Option (Text → List RequestEditorFn → Result HttpError F)
  get_inlet_temp_fns ServerType.auto_detect = none
  get_inlet_temp_fns ServerType.delli_drac = some get_inlet_temp_delli_drac
  get_inlet_temp_fns ServerType.lenovo_xclarity = some get_inlet_temp_lenovo_xclarity
  get_inlet_temp_fns ServerType.supermicro_ssm = some get_inlet_temp_supermicro_ssm
  get_inlet_temp_fns (ServerType.other_server s) = none

-- `InletTempAgent`
pub record InletTempAgent : Type 0 where
  pub address : Text
  pub server_type : ServerType
  pub editor_fns : List RequestEditorFn

-- The two channels after all goroutines are done. Each one has sent the result of its kind of server,
-- in the order `finished`.
unfoldable pub gather :
    {F : Type 0}
    → (ServerType → Result HttpError F)
    → List ServerType
    → List (ServerType × F) × List HttpError
gather try_ [] = ([], [])
gather try_ (st ∷ finished) =
    let (results, errors) = gather try_ finished in
    elim (try_ st) [ ok v ↦ ((st, v) ∷ results, errors) | err e ↦ (results, e ∷ errors) ]

-- `errors.Join` of the error so far with each of the others.
unfoldable pub join_errors : HttpError → List HttpError → HttpError
join_errors e [] = e
join_errors e (f ∷ errors) = join_errors (HttpError.joined e f) errors

module _ {F Body : Type 0} (net : Net Body) (decoders : Decoders F Body) where
  -- A call of the function of a kind of server.
  unfoldable pub try_server : InletTempAgent → ServerType → Result HttpError F
  unfolding get_inlet_temp_fns
  try_server a st = elim (get_inlet_temp_fns net decoders st) [
    | none ↦ err HttpError.no_endpoint
    | some fn ↦ fn a.address a.editor_fns
  ]

  -- `Fetch`: the result, and the agent after it. The goroutines finish in the order `finished`.
  unfoldable pub fetch : List ServerType → InletTempAgent → Result HttpError F × InletTempAgent
  unfolding get_inlet_temp_fns gather try_server join_errors
  fetch finished a = elim (get_inlet_temp_fns net decoders a.server_type) [
    | some fn ↦ (fn a.address a.editor_fns, a)
    | none ↦
        let (results, errors) = gather (try_server a) finished in
        elim results [
          | [] ↦ (err (join_errors HttpError.all_failed errors), a)
          | r ∷ rest ↦ (ok r.1, record a { server_type = r.0 })
        ]
  ]
