-- ===== src/Client/Predictor/Tests.antt =====
-- Runs of the predictor client.
use waok8s.Prelude.{
  ℕ, ◌+◌, ◌*◌, ◌≡◌, refl, List, [], ◌∷◌, inr, none, some, Text, Dict, lit, lookup, text_eq, arith,
  ok, err,
}
use waok8s.Samples.{fake_term}
use waok8s.Client.Predictor.{
  Query, Predictors, PredictionCache, do_query, predict_power_consumption, empty_prediction,
  unknown_value_type, request_failed,
}
use waok8s.Client.Predictor.Refinement.{IsProper, run_memory, run_cache, do_query-refines_memory}
use waok8s.Client.Predictor.Laws.{do_query_again, do_query_unknown}

abbrev show : ℕ → Text
show n = n ∷ []

abbrev predictors : Predictors ℕ
predictors = record {
  new_endpoint_provider = λ ns ep. none;
  new_power_consumption_predictor =
      λ ns ep. some (λ cpu inlet delta. some (10 * cpu + inlet + delta));
}

abbrev no_predictors : Predictors ℕ
no_predictors = record {
  new_endpoint_provider = λ ns ep. none;
  new_power_consumption_predictor = λ ns ep. none;
}

abbrev no_entries : Dict (PredictionCache ℕ)
no_entries = []

abbrev watts : Query ℕ
watts = record {
  value_type = lit "Watt";
  namespace = lit "wao-system";
  endpoint_term = fake_term;
  predictor_type = [];
  cpu_usage = 3;
  inlet_temp = 20;
  delta_p = 7;
}

abbrev answer : PredictionCache ℕ
answer = record { power_consumption_endpoint = none; watt = 57; expired_at = 130 }

do_query_run : (do_query 0 show 30 predictors 100 watts no_entries).0 ≡ ok answer
unfolding do_query text_eq
do_query_run = refl

predict_run :
    (predict_power_consumption 0 show 30 predictors 100
      (lit "wao-system")
      fake_term
      3
      20
      7
      no_entries).0
    ≡ ok 57
unfolding predict_power_consumption text_eq
predict_run = refl

watts-IsProper : IsProper 0 show watts
watts-IsProper = record {
  known = inr refl;
  namespace_lacks = omega arith;
  type_lacks = omega arith;
  endpoint_lacks = tt;
  secret_lacks = tt;
  type_no_bar = omega arith;
  endpoint_no_bar = tt;
  predictor_lacks = tt;
  cpu_lacks = omega arith;
  inlet_lacks = omega arith;
}

-- The second call is answered from the cache, the third one after it has expired.
abbrev three_calls : List (Predictors ℕ × (ℕ × Query ℕ))
three_calls =
    (predictors, (100, watts)) ∷ (no_predictors, (120, watts)) ∷ (no_predictors, (140, watts)) ∷ []

three_answers :
    run_memory 0 show 30 three_calls (λ ts. none) ≡ ok answer ∷ ok answer ∷ err request_failed ∷ []
unfolding run_memory text_eq waok8s.Client.Predictor.Refinement.answered
    waok8s.Client.Predictor.predicted_watt waok8s.Client.Predictor.Refinement.asked
three_answers = refl

do_query-refines_memory_example :
    run_cache 0 show 30 three_calls [] ≡ run_memory 0 show 30 three_calls (λ ts. none)
do_query-refines_memory_example =
    do_query-refines_memory 0 show 30 three_calls
      (watts-IsProper, (watts-IsProper, (watts-IsProper, tt)))

do_query_repeated :
    do_query 0 show 30 no_predictors 120 watts
      (do_query 0 show 30 predictors 100 watts no_entries).1
    ≡ (ok answer, (do_query 0 show 30 predictors 100 watts no_entries).1)
do_query_repeated =
    do_query_again 0 show 30 predictors 100 watts no_entries no_predictors 120 watts refl
      do_query_run (omega arith)

abbrev seconds : Query ℕ
seconds = record watts { value_type = lit "ResponseTime" }

nothing_found : (k : Text) → lookup k no_entries ≡ none
unfolding lookup
nothing_found k = refl

do_query_of_unknown_type :
    ((do_query 0 show 30 predictors 100 seconds no_entries).0 ≡ err unknown_value_type)
    × ((do_query 0 show 30 predictors 120 seconds
          (do_query 0 show 30 predictors 100 seconds no_entries).1).0
        ≡ ok (empty_prediction 0 show 130))
do_query_of_unknown_type =
    do_query_unknown 0 show 30 predictors 100 seconds no_entries 120 (ground arith) (ground arith)
      (nothing_found _) (omega arith)
