-- ===== src/Predictors/FromNodeConfig.antt =====
-- wao-metrics-adapter/pkg/predictor/fromnodeconfig/fromnodeconfig.go and pkg/predictor/fake: the provider or
-- the predictor that an endpoint term asks for.
use waok8s.Prelude.{
  Bool, true, false, List, [], ◌∷◌, ◌++◌, Option, none, some, Text, Dict, lit, text_eq, split,
  Result, ok, err, or_fail, ◌>>=◌,
}
use waok8s.Prelude.Int64.{ℤ, pos, ltb_ℤ}
use waok8s.NodeApi.{EndpointTerm, type_fake, type_redfish, type_v2_inference_protocol}
use waok8s.Agents.Http.{
  HttpError, RequestEditorFn, with_basic_auth, with_curl_logger, get_basic_auth, is_empty,
}
use waok8s.Predictors.V2.{PowerConsumptionPredictor}
use waok8s.Predictors.Redfish.{EndpointProvider}

pub data NewError : Type 0 where
  unknown_endpoint_type bad_endpoint no_model_name no_client : NewError

-- `FakeEndpointProvider`, `FakePowerConsumptionPredictor`; durations are nanoseconds.
pub record FakeEndpointProvider : Type 0 where
  pub endpoint_value : Text
  pub endpoint_error : Option HttpError
  pub get_value : Option EndpointTerm
  pub get_error : Option HttpError
  pub get_delay : ℤ

pub record FakePowerConsumptionPredictor (F : Type 0) : Type 0 where
  pub endpoint_value : Text
  pub endpoint_error : Option HttpError
  pub predict_value : F
  pub predict_error : Option HttpError
  pub predict_delay : ℤ

-- The common part of `Get` and `Predict` of the fakes, for a context that is done after `deadline`.
unfoldable pub after_delay : {A : Type 0} → ℤ → ℤ → Option HttpError → A → Result HttpError A
after_delay deadline delay error value = elim (ltb_ℤ deadline delay) [
  | true ↦ err HttpError.cancelled
  | false ↦ elim error [ some e ↦ err e | none ↦ ok value ]
]

unfoldable pub fake_get : ℤ → FakeEndpointProvider → Text → Result HttpError (Option EndpointTerm)
unfolding after_delay
fake_get deadline p predictor_type = after_delay deadline p.get_delay p.get_error p.get_value

unfoldable pub fake_predict :
    {F : Type 0} → ℤ → FakePowerConsumptionPredictor F → F → F → F → Result HttpError F
unfolding after_delay
fake_predict deadline p cpu_usage inlet_temp delta_p =
    after_delay deadline p.predict_delay p.predict_error p.predict_value

pub data AnyProvider : Type 0 where
  fake_provider : FakeEndpointProvider → AnyProvider
  redfish_provider : EndpointProvider → AnyProvider

pub data AnyPredictor (F : Type 0) : Type 0 where
  fake_predictor : FakePowerConsumptionPredictor F → AnyPredictor F
  v2_predictor : PowerConsumptionPredictor → AnyPredictor F

abbrev pub editors : Text → Text → List RequestEditorFn
editors username password = with_basic_auth username password ∷ with_curl_logger ∷ []

-- `newEndpointProvider`; `new_client` tells whether the generated client accepts the address.
unfoldable pub new_endpoint_provider_of :
    (Text → Bool) → Text → Text → Text → Text → Result NewError AnyProvider
unfolding text_eq with_basic_auth with_curl_logger
new_endpoint_provider_of new_client endpoint_type endpoint username password =
    elim (text_eq endpoint_type type_fake) [
      | true ↦ ok (
          fake_provider (record {
            endpoint_value = endpoint;
            endpoint_error = none;
            get_value = some (record {
              type_ = type_fake;
              endpoint = lit "https://fake-endpoint";
              basic_auth_secret = none;
              fetch_interval = none;
            });
            get_error = none;
            get_delay = pos 50000000;
          }))
      | false ↦ elim (text_eq endpoint_type type_redfish) [
        | true ↦ elim (new_client endpoint) [
          | true ↦ ok (
              redfish_provider
                (record { address = endpoint; editor_fns = editors username password }))
          | false ↦ err NewError.no_client
        ]
        | false ↦ err NewError.unknown_endpoint_type
      ]
    ]

-- `NewEndpointProvider`
unfoldable pub new_endpoint_provider :
    (Text → Bool)
    → (Text → Text → Option (Dict Text))
    → Text
    → EndpointTerm
    → Result NewError AnyProvider
unfolding new_endpoint_provider_of get_basic_auth
new_endpoint_provider new_client secrets namespace term =
    let (username, password) = get_basic_auth secrets namespace term.basic_auth_secret in
    new_endpoint_provider_of new_client term.type_ term.endpoint username password

-- The loop over `ss`: the names after the segments `models` and `versions`, the last ones of each.
unfoldable pub scan_segments : List Text → Text → Text → Text × Text
unfolding text_eq
scan_segments [] model_name model_version = (model_name, model_version)
scan_segments (s ∷ []) model_name model_version = (model_name, model_version)
scan_segments (s ∷ next ∷ ss) model_name model_version =
    scan_segments (next ∷ ss) (elim (text_eq s (lit "models")) [ true ↦ next | false ↦ model_name ])
      (elim (text_eq s (lit "versions")) [ true ↦ next | false ↦ model_version ])

-- `newPowerConsumptionPredictor`, with `url.Parse` as the scheme and the host of a URL.
unfoldable pub new_power_consumption_predictor_of :
    {F : Type 0}
    → F
    → (Text → Option (Text × Text))
    → Text
    → Text
    → Text
    → Text
    → Result NewError (AnyPredictor F)
unfolding text_eq split scan_segments with_basic_auth with_curl_logger
new_power_consumption_predictor_of fake_watt parse_url endpoint_type endpoint username password =
    elim (text_eq endpoint_type type_fake) [
      | true ↦ ok (
          fake_predictor (record {
            endpoint_value = endpoint;
            endpoint_error = none;
            predict_value = fake_watt;
            predict_error = none;
            predict_delay = pos 50000000;
          }))
      | false ↦ elim (text_eq endpoint_type type_v2_inference_protocol) [
        | true ↦ or_fail (parse_url endpoint) NewError.bad_endpoint >>= λ u.
            let scanned = scan_segments (split b'/' endpoint) [] [] in
            elim (is_empty scanned.0) [
              | true ↦ err NewError.no_model_name
              | false ↦ ok (
                  v2_predictor (record {
                    address = u.0 ++ (lit "://" ++ u.1);
                    model_name = scanned.0;
                    model_version = scanned.1;
                    editor_fns = editors username password;
                  }))
            ]
        | false ↦ err NewError.unknown_endpoint_type
      ]
    ]

-- `NewPowerConsumptionPredictor`
unfoldable pub new_power_consumption_predictor :
    {F : Type 0}
    → F
    → (Text → Option (Text × Text))
    → (Text → Text → Option (Dict Text))
    → Text
    → EndpointTerm
    → Result NewError (AnyPredictor F)
unfolding new_power_consumption_predictor_of get_basic_auth
new_power_consumption_predictor fake_watt parse_url secrets namespace term =
    let (username, password) = get_basic_auth secrets namespace term.basic_auth_secret in
    new_power_consumption_predictor_of fake_watt parse_url term.type_ term.endpoint username
      password
