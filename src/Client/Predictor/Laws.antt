-- ===== src/Client/Predictor/Laws.antt =====
-- What CachedPredictorClient remembers.
use waok8s.Prelude.{
  ℕ, ◌+◌, ◌<◌, ◌≡◌, refl, ap, ◌∙◌, ◌≢◌, inl, inr, true, false, Option, none, some, Text, Dict,
  lookup, insert, text_eq, text_eq_iff, ltb, ok, err, lookup-insert_self, arith, Bool-cases,
  Option-cases,
}
use waok8s.Client.Predictor.{
  Query, Predictors, PredictionCache, predictor_cache_key, empty_prediction, settled, request,
  do_query, value_type_power_consumption_endpoint, value_type_watt, unknown_value_type,
}

module _ {F : Type 0} (zero_f : F) (show : F → Text) (ttl : ℕ) (o : Predictors F) (now : ℕ)
    (q : Query F) (cache : Dict (PredictionCache F)) where
  settled-found :
      (r : Option (PredictionCache F)) (stored : Dict (PredictionCache F)) {cv : PredictionCache F}
      → (settled zero_f show ttl o (predictor_cache_key zero_f show q) r stored).0 ≡ ok cv
      → lookup
          (predictor_cache_key zero_f show q)
          (settled zero_f show ttl o (predictor_cache_key zero_f show q) r stored).1
        ≡ some cv
  unfolding settled
  settled-found none stored e = absurd (ground arith)
  settled-found (some cv') stored e =
      ground (arith, lookup-insert_self (predictor_cache_key zero_f show q) cv' stored)

  request-found :
      {cv : PredictionCache F}
      → (request zero_f show ttl o now q cache).0 ≡ ok cv
      → lookup (predictor_cache_key zero_f show q) (request zero_f show ttl o now q cache).1
        ≡ some cv
  unfolding request
  request-found {cv} e =
      elim (Bool-cases (text_eq q.value_type value_type_power_consumption_endpoint)) [
        | inl a ↦ rw (a, request) (settled-found _ _ (rw (a, request) at e))
        | inr a ↦ elim (Bool-cases (text_eq q.value_type value_type_watt)) [
          | inl b ↦ rw (a, b, request) (settled-found _ _ (rw (a, b, request) at e))
          | inr b ↦ absurd (ground arith)
        ]
      ]

  found_again :
      {cv : PredictionCache F}
      → (do_query zero_f show ttl o now q cache).0 ≡ ok cv
      → lookup (predictor_cache_key zero_f show q) (do_query zero_f show ttl o now q cache).1
        ≡ some cv
  unfolding do_query
  found_again {cv} e = elim (Option-cases (lookup (predictor_cache_key zero_f show q) cache)) [
    | inl n ↦ rw (n, do_query) (request-found (rw (n, do_query) at e))
    | inr (old, f) ↦ elim (Bool-cases (ltb now old.expired_at)) [
      | inl fresh ↦ ground arith
      | inr stale ↦
          rw (f, do_query)
            (rw (stale, do_query) (request-found (rw (stale, do_query) at (rw (f, do_query) at e))))
    ]
  ]

  -- A query that succeeds is remembered: until the entry expires, a query with the same key returns the
  -- same entry, whatever the predictors would say by then, and changes nothing.
  pub do_query_again :
      {cv : PredictionCache F} (o' : Predictors F) (later : ℕ) (q' : Query F)
      → predictor_cache_key zero_f show q' ≡ predictor_cache_key zero_f show q
      → (do_query zero_f show ttl o now q cache).0 ≡ ok cv
      → later < cv.expired_at
      → do_query zero_f show ttl o' later q' (do_query zero_f show ttl o now q cache).1
        ≡ (ok cv, (do_query zero_f show ttl o now q cache).1)
  unfolding do_query
  do_query_again {cv} o' later q' same e fresh =
      let in_time : ltb later cv.expired_at ≡ true = ground arith in
      let again : lookup (predictor_cache_key zero_f show q')
            (do_query zero_f show ttl o now q cache).1
          ≡ some cv =
        ap (λ k. lookup k (do_query zero_f show ttl o now q cache).1) same ∙ found_again e in
      rw (again, do_query) (rw (in_time, do_query) refl)

  do_query-unknown :
      q.value_type ≢ value_type_power_consumption_endpoint
      → q.value_type ≢ value_type_watt
      → lookup (predictor_cache_key zero_f show q) cache ≡ none
      → do_query zero_f show ttl o now q cache ≡ (
        err unknown_value_type,
        insert (predictor_cache_key zero_f show q) (empty_prediction zero_f show (now + ttl)) cache,
      )
  unfolding do_query request
  do_query-unknown a b miss =
      let no_endpoint : text_eq q.value_type value_type_power_consumption_endpoint ≡ false =
        ground (arith, text_eq_iff q.value_type value_type_power_consumption_endpoint) in
      let no_watt : text_eq q.value_type value_type_watt ≡ false =
        ground (arith, text_eq_iff q.value_type value_type_watt) in
      rw (miss, do_query) (rw (no_endpoint, no_watt, request) refl)

  -- A query of an unknown type fails when nothing is cached for it, and leaves the empty entry behind:
  -- the same query succeeds with it until it expires.
  pub do_query_unknown :
      (later : ℕ)
      → q.value_type ≢ value_type_power_consumption_endpoint
      → q.value_type ≢ value_type_watt
      → lookup (predictor_cache_key zero_f show q) cache ≡ none
      → later < now + ttl
      → ((do_query zero_f show ttl o now q cache).0 ≡ err unknown_value_type)
        × ((do_query zero_f show ttl o later q (do_query zero_f show ttl o now q cache).1).0
            ≡ ok (empty_prediction zero_f show (now + ttl)))
  unfolding do_query request
  do_query_unknown later a b miss fresh =
      let first = do_query-unknown a b miss in
      let found =
        lookup-insert_self (predictor_cache_key zero_f show q)
          (empty_prediction zero_f show (now + ttl)) cache in
      let in_time : ltb later (now + ttl) ≡ true = ground arith in
      rw first (refl, rw (found, do_query) (rw (in_time, do_query) refl))
