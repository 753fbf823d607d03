-- ===== src/Predictors/Tests.antt =====
-- A provider and a predictor on a server whose answers are given.
use waok8s.Prelude.{
  ℕ, ◌≡◌, ◌↔◌, ◌||◌, text_eq, true, refl, Bool, List, [], ◌∷◌, ◌++◌, Option, none, some, Result, ok,
  err, Text, Dict, lit, arith,
}
use waok8s.NodeApi.{EndpointTerm}
use waok8s.Agents.Http.{Net, RequestEditorFn}
use waok8s.Predictors.V2.{PowerConsumptionPredictor, endpoint, predict}
use waok8s.Predictors.Redfish.{
  MachineLearningModel, EndpointProvider, returned, panicked, get_models, get,
  type_power_consumption, type_response_time,
}
use waok8s.Predictors.FromNodeConfig.{v2_predictor, new_power_consumption_predictor}
use waok8s.Predictors.Laws.{
  named_model, predictor-provider, predictor-provider_no_version, get-panics, AnswersNoJson,
}

-- A join that drops empty elements.
abbrev join_elements : List Text → Text
join_elements [] = []
join_elements ([] ∷ rest) = join_elements rest
join_elements ((c ∷ s) ∷ rest) = b'/' ∷ ((c ∷ s) ++ join_elements rest)

abbrev net : Net Text
net = record {
  join_path = λ base elements. some (base ++ join_elements elements);
  new_request = λ method url body.
      some (record { method = method; url = url; body = body; basic_auth = none });
  send = λ req. some (200, req.url);
}

abbrev provider : EndpointProvider
provider = record { address = lit "http://bmc"; editor_fns = [] }

abbrev members : Text → Option (List Text)
members body = some (lit "/redfish/v1/Systems/1" ∷ [])

abbrev model_of : Text → MachineLearningModel
model_of version = record {
  power_consumption_model = named_model (lit "http") (lit "h") (lit "m") version;
  response_time_model = none;
}

abbrev client_of :
    Text → Text → Text → List RequestEditorFn → Option (ℕ × Option MachineLearningModel)
client_of version address system_id fns = some (200, some (model_of version))

abbrev parse_url : Text → Option (Text × Text)
parse_url url = some (lit "http", lit "h")

abbrev no_secrets : Text → Text → Option (Dict Text)
no_secrets namespace name = none

models_found :
    (version : Text)
    → get_models net members (client_of version) provider ≡ ok (some (model_of version))
unfolding get_models
models_found version = refl

-- An answer that is no JSON.
get-panics_example :
    (get net members (λ address system_id fns. some (200, none)) provider type_power_consumption
      ≡ panicked)
    ↔ (AnswersNoJson net members (λ address system_id fns. some (200, none)) provider
        × ((text_eq type_power_consumption type_power_consumption
              || text_eq type_power_consumption type_response_time)
            ≡ true))
get-panics_example =
    get-panics net members (λ address system_id fns. some (200, none)) provider
      type_power_consumption

watts_read :
    predict net
      (λ (x : ℕ). x)
      (λ inputs. some [])
      (λ body. some ((95 ∷ []) ∷ []))
      (record {
        address = lit "http://h";
        model_name = lit "m";
        model_version = [];
        editor_fns = [];
      })
      10
      22
      1
    ≡ ok 95
unfolding predict
watts_read = refl

predictor-provider_example :
    (term : EndpointTerm) × (p : PowerConsumptionPredictor) × (get net members
        (client_of (lit "v1"))
        provider
        type_power_consumption
      ≡ returned (ok term))
    × (new_power_consumption_predictor {F = ℕ} 3 parse_url no_secrets (lit "ns") term
        ≡ ok (v2_predictor p))
    × (p.model_name ≡ lit "m")
    × (p.model_version ≡ lit "v1")
    × (endpoint net.join_path p ≡ some term.endpoint)
unfolding waok8s.Prelude.text_eq waok8s.Predictors.Scan.joined
predictor-provider_example =
    predictor-provider net members (client_of (lit "v1")) 3 parse_url no_secrets (lit "ns") provider
      (model_of (lit "v1")) (lit "http") (lit "h") (lit "m") (lit "v1") (models_found (lit "v1"))
      refl (ground arith) (ground arith) (ground arith) (ground arith) refl refl refl refl refl refl
      refl

predictor-provider_no_version_run :
    (term : EndpointTerm) × (p : PowerConsumptionPredictor) × (get net members
        (client_of [])
        provider
        type_power_consumption
      ≡ returned (ok term))
    × (new_power_consumption_predictor {F = ℕ} 3 parse_url no_secrets (lit "ns") term
        ≡ ok (v2_predictor p))
    × (p.model_version ≡ lit "infer")
unfolding waok8s.Prelude.text_eq waok8s.Predictors.Scan.joined
predictor-provider_no_version_run =
    predictor-provider_no_version net members (client_of []) 3 parse_url no_secrets (lit "ns")
      provider (model_of []) (lit "http") (lit "h") (lit "m") (models_found []) refl (ground arith)
      (ground arith) (ground arith) refl refl refl refl
