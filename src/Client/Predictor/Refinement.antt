-- ===== src/Client/Predictor/Refinement.antt =====
-- CachedPredictorClient.do against a memory that is indexed by what is asked, and not by one text.
use mathlib.Core.Path.{ap₂}
use waok8s.Prelude.{
  ℕ, ◌+◌, ◌≡◌, refl, ap, ◌∙◌, ◌↔◌, ◌⊎◌, inl, inr, Bool, true, false, ◌&&◌, List, [], ◌∷◌, ◌++◌,
  Option, none, some, Text, Dict, lookup, insert, lookup-insert, lookup-delete, text_eq,
  text_eq_iff, text_eq_self, ltb, if◌then◌else◌, Result, ok, err, All, arith, Bool-cases,
  Option-cases,
}
use waok8s.Client.Keys.{Lacks, Lacks-append, append-sep_injective}
use waok8s.Client.Predictor.{
  Predictors, PredictionCache, Query, DoError, request_failed,
  value_type_power_consumption_endpoint, value_type_watt, predictor_cache_key, empty_prediction,
  provided, predicted_watt, settled, request, do_query,
}

abbrev pub same_texts : List Text → List Text → Bool
same_texts [] [] = true
same_texts [] (t ∷ ts) = false
same_texts (s ∷ ss) [] = false
same_texts (s ∷ ss) (t ∷ ts) = text_eq s t && same_texts ss ts

same_texts_iff : (ss ts : List Text) → (same_texts ss ts ≡ true) ↔ (ss ≡ ts)
same_texts_iff [] [] = (λ e. refl, λ e. refl)
same_texts_iff [] (t ∷ ts) = (λ e. cc, λ e. cc)
same_texts_iff (s ∷ ss) [] = (λ e. cc, λ e. cc)
same_texts_iff (s ∷ ss) (t ∷ ts) = ground (arith, text_eq_iff s t, same_texts_iff ss ts)

-- The memory: one cell for each list of texts, and one cell of it set.
abbrev pub Memory : Type 0 → Type 0
Memory F = List Text → Option (PredictionCache F)

abbrev pub set_cell : {F : Type 0} → List Text → Option (PredictionCache F) → Memory F → Memory F
set_cell at v memory = λ ts. if same_texts at ts then v else memory ts

-- The key, from what is asked.
abbrev joined : List Text → Text
joined (value_type ∷ namespace ∷ type_ ∷ endpoint ∷ secret ∷ predictor ∷ cpu ∷ inlet ∷ delta ∷ []) =
    value_type
    ++ (b'#'
        ∷ (namespace
            ++ (b'#'
                ∷ ((type_ ++ (b'|' ∷ (endpoint ++ (b'|' ∷ secret))))
                    ++ (b'#'
                        ∷ (predictor ++ (b'#' ∷ (cpu ++ (b'#' ∷ (inlet ++ (b'#' ∷ delta)))))))))))
joined _ = []

module _ {F : Type 0} (zero_f : F) (show : F → Text) where
  abbrev pub secret_name_of : Query F → Text
  secret_name_of q = elim q.endpoint_term.basic_auth_secret [ none ↦ [] | some s ↦ s ]

  -- What a query asks.
  unfoldable pub asked : Query F → List Text
  asked q =
      q.value_type
      ∷ q.namespace
      ∷ q.endpoint_term.type_
      ∷ q.endpoint_term.endpoint
      ∷ secret_name_of q
      ∷ q.predictor_type
      ∷ show q.cpu_usage
      ∷ show q.inlet_temp
      ∷ show q.delta_p
      ∷ []

  -- A query of one of the two types, whose texts do not hold the separators of the key.
  pub record IsProper (q : Query F) : Type 0 where
    pub known :
        (q.value_type ≡ value_type_power_consumption_endpoint) ⊎ (q.value_type ≡ value_type_watt)
    pub namespace_lacks : Lacks b'#' q.namespace
    pub type_lacks : Lacks b'#' q.endpoint_term.type_
    pub endpoint_lacks : Lacks b'#' q.endpoint_term.endpoint
    pub secret_lacks : Lacks b'#' (secret_name_of q)
    pub type_no_bar : Lacks b'|' q.endpoint_term.type_
    pub endpoint_no_bar : Lacks b'|' q.endpoint_term.endpoint
    pub predictor_lacks : Lacks b'#' q.predictor_type
    pub cpu_lacks : Lacks b'#' (show q.cpu_usage)
    pub inlet_lacks : Lacks b'#' (show q.inlet_temp)

  type-Lacks : (q : Query F) → IsProper q → Lacks b'#' q.value_type
  type-Lacks q p = elim p.known [ inl e ↦ rw e (omega arith) | inr e ↦ rw e (omega arith) ]

  abbrev term_text : Query F → Text
  term_text q =
      q.endpoint_term.type_ ++ (b'|' ∷ (q.endpoint_term.endpoint ++ (b'|' ∷ secret_name_of q)))

  term-Lacks : (q : Query F) → IsProper q → Lacks b'#' (term_text q)
  term-Lacks q p = Lacks-append b'#' q.endpoint_term.type_ _ p.type_lacks (
    omega arith,
    Lacks-append b'#' q.endpoint_term.endpoint _ p.endpoint_lacks (omega arith, p.secret_lacks),
  )

  -- Proper queries with one key ask the same.
  predictor_cache_key_injective :
      (q r : Query F)
      → IsProper q
      → IsProper r
      → predictor_cache_key zero_f show q ≡ predictor_cache_key zero_f show r
      → asked q ≡ asked r
  unfolding predictor_cache_key asked
  predictor_cache_key_injective q r p s e =
      let (value_type, e1) =
        append-sep_injective b'#' _ _ _ _ (type-Lacks q p) (type-Lacks r s) e in
      let (namespace, e2) =
        append-sep_injective b'#' _ _ _ _ p.namespace_lacks s.namespace_lacks e1 in
      let (term, e3) = append-sep_injective b'#' _ _ _ _ (term-Lacks q p) (term-Lacks r s) e2 in
      let (predictor, e4) =
        append-sep_injective b'#' _ _ _ _ p.predictor_lacks s.predictor_lacks e3 in
      let (cpu, e5) = append-sep_injective b'#' _ _ _ _ p.cpu_lacks s.cpu_lacks e4 in
      let (inlet, delta) = append-sep_injective b'#' _ _ _ _ p.inlet_lacks s.inlet_lacks e5 in
      let (type_, f1) = append-sep_injective b'|' _ _ _ _ p.type_no_bar s.type_no_bar term in
      let (endpoint, secret) =
        append-sep_injective b'|' _ _ _ _ p.endpoint_no_bar s.endpoint_no_bar f1 in
      rw (value_type, namespace, type_, endpoint, secret, predictor, cpu, inlet, delta) refl

  -- And the key is made of nothing else.
  key_of_asked :
      (q r : Query F)
      → asked q ≡ asked r
      → predictor_cache_key zero_f show q ≡ predictor_cache_key zero_f show r
  unfolding predictor_cache_key asked
  key_of_asked q r e = ap joined e

  keys-agree :
      (q r : Query F)
      → IsProper q
      → IsProper r
      → text_eq (predictor_cache_key zero_f show q) (predictor_cache_key zero_f show r)
        ≡ same_texts (asked q) (asked r)
  keys-agree q r p s = elim (Bool-cases (same_texts (asked q) (asked r))) [
    | inl same ↦
        let one = key_of_asked q r ((same_texts_iff (asked q) (asked r)).0 same) in
        rw (same, one) (text_eq_self (predictor_cache_key zero_f show r))
    | inr differ ↦
        elim (Bool-cases
          (text_eq (predictor_cache_key zero_f show q) (predictor_cache_key zero_f show r))) [
            | inr other ↦ rw (other, differ) refl
            | inl one ↦
                let equal =
                  (same_texts_iff (asked q) (asked r)).1
                    (predictor_cache_key_injective q r p s ((text_eq_iff _ _).0 one)) in
                absurd (ground (arith, equal, differ))
          ]
  ]

  -- The answer of the predictors, as a new entry.
  unfoldable pub answered : ℕ → Predictors F → ℕ → Query F → Option (PredictionCache F)
  unfolding text_eq
  answered ttl o now q =
      if text_eq q.value_type value_type_power_consumption_endpoint
      then provided zero_f show ttl o q (empty_prediction zero_f show (now + ttl))
      else predicted_watt zero_f show ttl o q (empty_prediction zero_f show (now + ttl))

  -- A miss asks the predictors: an answer is remembered, and an error forgets what was known.
  unfoldable pub ask :
      ℕ → Predictors F → ℕ → Query F → Memory F → Result DoError (PredictionCache F) × Memory F
  ask ttl o now q memory = elim (answered ttl o now q) [
    | none ↦ (err request_failed, set_cell (asked q) none memory)
    | some cv ↦ (ok cv, set_cell (asked q) (some cv) memory)
  ]

  unfoldable pub remembered :
      ℕ → Predictors F → ℕ → Query F → Memory F → Result DoError (PredictionCache F) × Memory F
  unfolding ask
  remembered ttl o now q memory =
      let missed = ask ttl o now q memory in
      elim (memory (asked q)) [
        | none ↦ missed
        | some cv ↦ if ltb now cv.expired_at then (ok cv, memory) else missed
      ]

  -- The answers of a sequence of calls, each with its predictors and its time.
  unfoldable pub run_memory :
      ℕ → List (Predictors F × (ℕ × Query F)) → Memory F → List (Result DoError (PredictionCache F))
  unfolding remembered
  run_memory ttl [] memory = []
  run_memory ttl ((o, (now, q)) ∷ calls) memory =
      let (r, after) = remembered ttl o now q memory in r ∷ run_memory ttl calls after

  unfoldable pub run_cache :
      ℕ
      → List (Predictors F × (ℕ × Query F))
      → Dict (PredictionCache F)
      → List (Result DoError (PredictionCache F))
  unfolding do_query
  run_cache ttl [] cache = []
  run_cache ttl ((o, (now, q)) ∷ calls) cache =
      let (r, after) = do_query zero_f show ttl o now q cache in r ∷ run_cache ttl calls after

  module _ (ttl : ℕ) where
    -- The cache holds under the key of each proper query what the memory holds in its cell.
    abbrev Refines : Dict (PredictionCache F) → Memory F → Type 0
    Refines cache memory =
        (r : Query F)
        → IsProper r
        → lookup (predictor_cache_key zero_f show r) cache ≡ memory (asked r)

    request-settled :
        (o : Predictors F) (now : ℕ) (q : Query F) (cache : Dict (PredictionCache F))
        → IsProper q
        → request zero_f show ttl o now q cache
          ≡ settled zero_f show ttl o (predictor_cache_key zero_f show q) (answered ttl o now q) (
              insert
                (predictor_cache_key zero_f show q)
                (empty_prediction zero_f show (now + ttl))
                cache)
    unfolding request answered
    request-settled o now q cache p =
        elim (Bool-cases (text_eq q.value_type value_type_power_consumption_endpoint)) [
          | inl a ↦ rw (a, request, answered) refl
          | inr a ↦ elim p.known [
            | inl e ↦ absurd (
                ground
                  (arith, a, e, text_eq_iff q.value_type value_type_power_consumption_endpoint))
            | inr e ↦
                let b : text_eq q.value_type value_type_watt ≡ true =
                  (text_eq_iff q.value_type value_type_watt).1 e in
                rw (a, request, answered) (rw (b, request) refl)
          ]
        ]

    request-Refines :
        (o : Predictors F) (now : ℕ) (q : Query F) (cache : Dict (PredictionCache F))
        (memory : Memory F)
        → IsProper q
        → Refines cache memory
        → ((request zero_f show ttl o now q cache).0 ≡ (ask ttl o now q memory).0)
          × Refines (request zero_f show ttl o now q cache).1 (ask ttl o now q memory).1
    unfolding ask settled
    request-Refines o now q cache memory p h = elim (Option-cases (answered ttl o now q)) [
      | inl failed ↦ rw (request-settled o now q cache p) (
          rw (failed, ask, settled)
            (
              refl,
              λ r s.
                  lookup-delete (predictor_cache_key zero_f show q) _ _
                  ∙ rw (lookup-insert, keys-agree q r p s, h r s)
                      (at_test (same_texts (asked q) (asked r)) _ _ _),
            ))
      | inr (cv, found) ↦ rw (request-settled o now q cache p) (
          rw (found, ask, settled)
            (
              refl,
              λ r s.
                  lookup-insert (predictor_cache_key zero_f show q) _ cv _
                  ∙ rw (lookup-insert, keys-agree q r p s, h r s)
                      (at_test (same_texts (asked q) (asked r)) _ _ _),
            ))
    ]
      where
        at_test :
            (b : Bool) (x y z : Option (PredictionCache F))
            → (if b then x else (if b then y else z)) ≡ (if b then x else z)
        at_test true x y z = refl
        at_test false x y z = refl

    do_query-Refines :
        (o : Predictors F) (now : ℕ) (q : Query F) (cache : Dict (PredictionCache F))
        (memory : Memory F)
        → IsProper q
        → Refines cache memory
        → ((do_query zero_f show ttl o now q cache).0 ≡ (remembered ttl o now q memory).0)
          × Refines (do_query zero_f show ttl o now q cache).1 (remembered ttl o now q memory).1
    unfolding do_query remembered
    do_query-Refines o now q cache memory p h =
        let same = h q p in
        let missed = request-Refines o now q cache memory p h in
        elim (Option-cases (memory (asked q))) [
          | inl e ↦ rw (same, e, do_query, remembered) missed
          | inr (cv, e) ↦ elim (Bool-cases (ltb now cv.expired_at)) [
            | inl fresh ↦
                rw (same, e, do_query, remembered) (rw (fresh, do_query, remembered) (refl, h))
            | inr stale ↦
                rw (same, e, do_query, remembered) (rw (stale, do_query, remembered) missed)
          ]
        ]

    run-Refines :
        (calls : List (Predictors F × (ℕ × Query F))) (cache : Dict (PredictionCache F))
        (memory : Memory F)
        → All (λ call. IsProper (call.1).1) calls
        → Refines cache memory
        → run_cache ttl calls cache ≡ run_memory ttl calls memory
    unfolding run_cache run_memory
    run-Refines [] cache memory proper h = refl
    run-Refines ((o, (now, q)) ∷ calls) cache memory (p, proper) h =
        let (answer, after) = do_query-Refines o now q cache memory p h in
        ap₂ (λ r rs. r ∷ rs) answer (run-Refines calls _ _ proper after)

    -- Any sequence of queries of the two types, on an empty cache, is answered as by a memory that has
    -- one cell for each thing to ask, the floats read as they are shown: what the predictors answered last
    -- in this cell, until it expires. The texts hold no `#`, and the terms no `|` in their type and
    -- endpoint.
    pub do_query-refines_memory :
        (calls : List (Predictors F × (ℕ × Query F)))
        → All (λ call. IsProper (call.1).1) calls
        → run_cache ttl calls [] ≡ run_memory ttl calls (λ ts. none)
    unfolding lookup
    do_query-refines_memory calls proper = run-Refines calls [] (λ ts. none) proper (λ r s. refl)
