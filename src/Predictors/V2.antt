-- ===== src/Predictors/V2.antt =====
-- wao-metrics-adapter/pkg/predictor/v2inferenceprotocol/powerconsumption.go: a predictor of watts that
-- speaks version 2 of the inference protocol.
use waok8s.Prelude.{
  ℕ, true, false, List, [], ◌∷◌, Option, Text, lit, Result, ok, err, or_fail, ◌>>=◌,
}
use waok8s.Agents.Http.{HttpError, Net, RequestEditorFn, call, is_empty}

-- `PowerConsumptionPredictor`, less the HTTP client.
pub record PowerConsumptionPredictor : Type 0 where
  pub address : Text
  pub model_name : Text
  pub model_version : Text
  pub editor_fns : List RequestEditorFn

-- An entry of `Inputs` of `inferPowerConsumptionRequest`, whose numbers are of the type float32.
pub record InferInput (G : Type 0) : Type 0 where
  pub name : Text
  pub shape : List ℕ
  pub datatype : Text
  pub data_ : List (List G)

-- `newInferPowerConsumptionRequest`
unfoldable pub new_infer_power_consumption_request :
    {F G : Type 0} → (F → G) → F → F → F → List (InferInput G)
new_infer_power_consumption_request float32 cpu_usage ambient_temp static_pressure_diff =
    record {
      name = lit "predict-prob";
      shape = 1 ∷ 3 ∷ [];
      datatype = lit "FP32";
      data_ = (float32 cpu_usage ∷ float32 ambient_temp ∷ float32 static_pressure_diff ∷ []) ∷ [];
    }
    ∷ []

-- `Endpoint`
unfoldable pub endpoint : (Text → List Text → Option Text) → PowerConsumptionPredictor → Option Text
endpoint join_path p = elim (is_empty p.model_version) [
  | true ↦ join_path p.address (lit "v2/models" ∷ p.model_name ∷ lit "infer" ∷ [])
  | false ↦
      join_path p.address
        (lit "v2/models" ∷ p.model_name ∷ lit "versions" ∷ p.model_version ∷ lit "infer" ∷ [])
]

-- `apiResp.Outputs[0].Data[0]`, after the tests of the lengths.
unfoldable pub first_output : {F : Type 0} → List (List F) → Result HttpError F
first_output [] = err HttpError.invalid_response
first_output ([] ∷ outputs) = err HttpError.invalid_response
first_output ((watt ∷ data_) ∷ outputs) = ok watt

module _ {F G Body : Type 0} (net : Net Body) (float32 : F → G)
    (marshal : List (InferInput G) → Option Text)
    (decode_outputs : Body → Option (List (List F))) where
  -- `Predict`
  unfoldable pub predict : PowerConsumptionPredictor → F → F → F → Result HttpError F
  unfolding call endpoint first_output new_infer_power_consumption_request
  predict p cpu_usage inlet_temp delta_p =
      call net p.editor_fns (lit "POST") (endpoint net.join_path p) HttpError.no_endpoint
        (or_fail
          (marshal (new_infer_power_consumption_request float32 cpu_usage inlet_temp delta_p))
          HttpError.not_marshalled)
        (λ body. or_fail (decode_outputs body) HttpError.not_decoded >>= first_output)
