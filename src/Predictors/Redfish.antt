-- ===== src/Predictors/Redfish.antt =====
-- wao-metrics-adapter/pkg/predictor/redfish/endpointprovider.go: a Redfish server names the model that
-- predicts for its node. The generated client is a parameter.
use waok8s.Prelude.{
  ℕ, true, false, List, [], ◌∷◌, Option, none, some, Text, lit, text_eq, split, Result, ok, err,
  or_fail, ◌>>=◌, ◌==◌,
}
use waok8s.NodeApi.{EndpointTerm}
use waok8s.Agents.Http.{HttpError, Net, RequestEditorFn, call}

-- The types of the generated client that the provider reads; each field is a pointer.
pub record ModelEntry : Type 0 where
  pub type_ : Option Text
  pub url : Option Text
  pub name : Option Text
  pub version : Option Text

pub record MachineLearningModel : Type 0 where
  pub power_consumption_model : Option ModelEntry
  pub response_time_model : Option ModelEntry

pub data ProviderError : Type 0 where
  no_system : HttpError → ProviderError
  no_answer invalid_model unknown_predictor_type bad_model_url : ProviderError
  model_status : ℕ → ProviderError

-- `EndpointProvider`, less the HTTP clients.
pub record EndpointProvider : Type 0 where
  pub address : Text
  pub editor_fns : List RequestEditorFn

abbrev pub type_power_consumption : Text
type_power_consumption = lit "PowerConsumption"

abbrev pub type_response_time : Text
type_response_time = lit "ResponseTime"

-- `ss[len(ss)-1]`, of a split, which is never empty.
unfoldable pub last_of : List Text → Text
last_of [] = []
last_of (s ∷ []) = s
last_of (s ∷ t ∷ ss) = last_of (t ∷ ss)

-- The strings of a model, if no pointer is nil.
unfoldable pub model_strings : Option ModelEntry → Option (Text × (Text × (Text × Text)))
model_strings none = none
model_strings (some m) = elim m.type_ [
  | none ↦ none
  | some type_ ↦ elim m.url [
    | none ↦ none
    | some url ↦ elim m.name [
      | none ↦ none
      | some name ↦ elim m.version [
        | none ↦ none
        | some version ↦ some (type_, (url, (name, version)))
      ]
    ]
  ]
]

-- What `Get` ends in.
pub data GetOutcome : Type 0 where
  returned : Result ProviderError EndpointTerm → GetOutcome
  panicked : GetOutcome

module _ {Body : Type 0} (net : Net Body) (decode_members : Body → Option (List Text))
    (get_model_with_response : Text
      → Text
      → List RequestEditorFn
      → Option (ℕ × Option MachineLearningModel)) where
  -- `getSystemID`
  unfoldable pub get_system_id : EndpointProvider → Result HttpError Text
  unfolding call split last_of
  get_system_id p =
      call net p.editor_fns (lit "GET") (net.join_path p.address (lit "redfish/v1/Systems" ∷ []))
        HttpError.bad_url (ok [])
        (λ body. or_fail (decode_members body) HttpError.not_decoded >>= λ members. elim members [
          | [] ↦ err HttpError.invalid_response
          | odata_id ∷ rest ↦ ok (last_of (split b'/' odata_id))
        ])

  -- `GetModels`: the model is a pointer, which the client leaves nil unless the answer is JSON.
  unfoldable pub get_models : EndpointProvider → Result ProviderError (Option MachineLearningModel)
  unfolding get_system_id
  get_models p = elim (get_system_id p) [
    | err e ↦ err (ProviderError.no_system e)
    | ok system_id ↦ elim (get_model_with_response p.address system_id p.editor_fns) [
      | none ↦ err ProviderError.no_answer
      | some answer ↦ elim (answer.0 == 200) [
        | true ↦ ok answer.1
        | false ↦ err (ProviderError.model_status answer.0)
      ]
    ]
  ]

  -- The end of `Get`, for the model that the switch has chosen.
  unfoldable pub term_of_model : Option ModelEntry → Result ProviderError EndpointTerm
  unfolding model_strings
  term_of_model m = or_fail (model_strings m) ProviderError.invalid_model >>= λ s.
      or_fail
        (net.join_path s.1.0
          (lit "v2/models" ∷ s.1.1.0 ∷ lit "versions" ∷ s.1.1.1 ∷ lit "infer" ∷ []))
        ProviderError.bad_model_url
      >>= λ ep.
          ok
            (record { type_ = s.0; endpoint = ep; basic_auth_secret = none; fetch_interval = none })

  -- `Get`
  unfoldable pub get : EndpointProvider → Text → GetOutcome
  unfolding get_models term_of_model text_eq
  get p predictor_type = elim (get_models p) [
    | err e ↦ returned (err e)
    | ok models ↦ elim (text_eq predictor_type type_power_consumption) [
      | true ↦ elim models [
        | none ↦ panicked
        | some m ↦ returned (term_of_model m.power_consumption_model)
      ]
      | false ↦ elim (text_eq predictor_type type_response_time) [
        | true ↦ elim models [
          | none ↦ panicked
          | some m ↦ returned (term_of_model m.response_time_model)
        ]
        | false ↦ returned (err ProviderError.unknown_predictor_type)
      ]
    ]
  ]
