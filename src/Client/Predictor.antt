-- ===== src/Client/Predictor.antt =====
-- wao-metrics-adapter/pkg/client/predictor.go: CachedPredictorClient, one call at a time.
-- Times are natural numbers. `show` is the format `%f`.
pub mod Laws
pub mod Refinement
mod Tests
use waok8s.Prelude.{
  ℕ, ◌+◌, Bool, List, [], ◌∷◌, ◌++◌, Option, none, some, Text, Dict, lit, lookup, insert, delete,
  text_eq, ltb, if◌then◌else◌, Result, ok, err, ◌≡◌, refl, ◌≢◌, ◌<◌, true, false, arith,
  text_eq_iff, lookup-insert, lookup-insert_self, Option-cases, Bool-cases, Result-cases, inl, inr,
}
use waok8s.NodeApi.{EndpointTerm}

abbrev pub value_type_power_consumption_endpoint : Text
value_type_power_consumption_endpoint = lit "PowerConsumptionEndpoint"

abbrev pub value_type_watt : Text
value_type_watt = lit "Watt"

pub data DoError : Type 0 where
  request_failed unknown_value_type : DoError

-- `predictionCache`, less its mutex.
pub record PredictionCache (F : Type 0) : Type 0 where
  pub power_consumption_endpoint : Option EndpointTerm
  pub watt : F
  pub expired_at : ℕ

-- The providers and the predictors that package fromnodeconfig makes, as the functions that they are
-- used for; what fails is `none`, and the endpoint is a pointer.
pub record Predictors (F : Type 0) : Type 0 where
  pub new_endpoint_provider : Text → EndpointTerm → Option (Text → Option (Option EndpointTerm))
  pub new_power_consumption_predictor : Text → EndpointTerm → Option (F → F → F → Option F)

-- The arguments of `do`.
pub record Query (F : Type 0) : Type 0 where
  pub value_type : Text
  pub namespace : Text
  pub endpoint_term : EndpointTerm
  pub predictor_type : Text
  pub cpu_usage : F
  pub inlet_temp : F
  pub delta_p : F

module _ {F : Type 0} (zero_f : F) (show : F → Text) where
  -- `predictorCacheKey`
  unfoldable pub predictor_cache_key : Query F → Text
  predictor_cache_key q =
      let secret_name : Text = elim q.endpoint_term.basic_auth_secret [ none ↦ [] | some s ↦ s ] in
      let ep =
        q.endpoint_term.type_ ++ (b'|' ∷ (q.endpoint_term.endpoint ++ (b'|' ∷ secret_name))) in
      q.value_type
      ++ (b'#'
          ∷ (q.namespace
              ++ (b'#'
                  ∷ (ep
                      ++ (b'#'
                          ∷ (q.predictor_type
                              ++ (b'#'
                                  ∷ (show q.cpu_usage
                                      ++ (b'#'
                                          ∷ (show q.inlet_temp ++ (b'#' ∷ show q.delta_p)))))))))))

  abbrev pub empty_prediction : ℕ → PredictionCache F
  empty_prediction expired_at = record {
    power_consumption_endpoint = none;
    watt = zero_f;
    expired_at = expired_at;
  }

  module _ (ttl : ℕ) (o : Predictors F) where
    -- The case `valueTypePowerConsumptionEndpoint`.
    unfoldable pub provided : Query F → PredictionCache F → Option (PredictionCache F)
    provided q cv = elim (o.new_endpoint_provider q.namespace q.endpoint_term) [
      | none ↦ none
      | some provider ↦ elim (provider q.predictor_type) [
        | none ↦ none
        | some ep ↦ some (record cv { power_consumption_endpoint = ep })
      ]
    ]

    -- The case `valueTypeWatt`.
    unfoldable pub predicted_watt : Query F → PredictionCache F → Option (PredictionCache F)
    predicted_watt q cv = elim (o.new_power_consumption_predictor q.namespace q.endpoint_term) [
      | none ↦ none
      | some predict ↦ elim (predict q.cpu_usage q.inlet_temp q.delta_p) [
        | none ↦ none
        | some watt ↦ some (record cv { watt = watt })
      ]
    ]

    -- What follows a request: the entry is stored again, or deleted.
    unfoldable pub settled :
        Text
        → Option (PredictionCache F)
        → Dict (PredictionCache F)
        → Result DoError (PredictionCache F) × Dict (PredictionCache F)
    unfolding insert delete
    settled key none cache = (err request_failed, delete key cache)
    settled key (some cv) cache = (ok cv, insert key cv cache)

    -- The part of `do` after a miss. The last case deletes nothing: it calls `Delete` with the entry
    -- in the place of the key.
    unfoldable pub request :
        ℕ
        → Query F
        → Dict (PredictionCache F)
        → Result DoError (PredictionCache F) × Dict (PredictionCache F)
    unfolding provided predicted_watt settled predictor_cache_key insert text_eq
    request now q cache =
        let key = predictor_cache_key q in
        let cv = empty_prediction (now + ttl) in
        let stored = insert key cv cache in
        if text_eq q.value_type value_type_power_consumption_endpoint
        then settled key (provided q cv) stored
        else if text_eq q.value_type value_type_watt
        then settled key (predicted_watt q cv) stored
        else (err unknown_value_type, stored)

    -- `do`
    unfoldable pub do_query :
        ℕ
        → Query F
        → Dict (PredictionCache F)
        → Result DoError (PredictionCache F) × Dict (PredictionCache F)
    unfolding request lookup
    do_query now q cache =
        let missed = request now q cache in
        elim (lookup (predictor_cache_key q) cache) [
          | none ↦ missed
          | some cv ↦ if ltb now cv.expired_at then (ok cv, cache) else missed
        ]

    -- `GetPredictorEndpoint`
    unfoldable pub get_predictor_endpoint :
        ℕ
        → Text
        → EndpointTerm
        → Text
        → Dict (PredictionCache F)
        → Result DoError (Option EndpointTerm) × Dict (PredictionCache F)
    unfolding do_query
    get_predictor_endpoint now ns ep predictor_type cache =
        let (r, cache') =
          do_query now
            (record {
              value_type = value_type_power_consumption_endpoint;
              namespace = ns;
              endpoint_term = ep;
              predictor_type = predictor_type;
              cpu_usage = zero_f;
              inlet_temp = zero_f;
              delta_p = zero_f;
            })
            cache in
        (elim r [ ok cv ↦ ok cv.power_consumption_endpoint | err e ↦ err e ], cache')

    -- `PredictPowerConsumption`
    unfoldable pub predict_power_consumption :
        ℕ
        → Text
        → EndpointTerm
        → F
        → F
        → F
        → Dict (PredictionCache F)
        → Result DoError F × Dict (PredictionCache F)
    unfolding do_query
    predict_power_consumption now ns ep cpu_usage inlet_temp delta_p cache =
        let (r, cache') =
          do_query now
            (record {
              value_type = value_type_watt;
              namespace = ns;
              endpoint_term = ep;
              predictor_type = [];
              cpu_usage = cpu_usage;
              inlet_temp = inlet_temp;
              delta_p = delta_p;
            })
            cache in
        (elim r [ ok cv ↦ ok cv.watt | err e ↦ err e ], cache')
