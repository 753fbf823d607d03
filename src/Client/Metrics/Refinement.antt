-- ===== src/Client/Metrics/Refinement.antt =====
-- CachedMetricsClient.get against a memory that is indexed by the metric itself, and not by a text.
use waok8s.Prelude.{
  ℕ, ◌+◌, ◌≡◌, refl, ◌∙◌, ◌↔◌, inl, inr, Bool, true, ◌&&◌, List, [], ◌∷◌, Option, none, some, Text,
  Dict, lookup, text_eq, text_eq_iff, text_eq_self, ltb, if◌then◌else◌, Result, ok, err, All, arith,
  Bool-cases, Option-cases, Result-cases,
}
use mathlib.Core.Path.{ap₂}
use waok8s.Kube.{NamespacedName}
use waok8s.Client.Keys.{Lacks}
use waok8s.Client.Metrics.{
  Origin, MetricsCache, GetError, metrics_cache_key, empty_entry, fill, fetch, get,
}
use waok8s.Client.Metrics.Laws.{Shows, IsName, metrics_cache_key_injective, lookup-fetch}

-- Whether two calls ask for the same metric.
abbrev pub same_metric : NamespacedName → Text → Text → NamespacedName → Text → Text → Bool
same_metric a s m b t n =
    text_eq a.namespace b.namespace && (text_eq a.name b.name && (text_eq s t && text_eq m n))

-- The memory, and one cell of it set.
abbrev pub Memory : Type 0 → Type 0
Memory C = NamespacedName → Text → Text → Option C

abbrev pub set_cell : {C : Type 0} → NamespacedName → Text → Text → Option C → Memory C → Memory C
set_cell a s m v memory = λ b t n. if same_metric a s m b t n then v else memory b t n

-- A call of `get`.
pub record Call (NM PM MV : Type 0) : Type 0 where
  pub origin : Origin NM PM MV
  pub now : ℕ
  pub obj : NamespacedName
  pub metric_type : Text
  pub metric_name : Text

module _ {NM PM MV : Type 0} where
  -- A miss asks the origin: an answer is remembered, and an error forgets what was known.
  unfoldable pub ask :
      ℕ
      → Origin NM PM MV
      → ℕ
      → NamespacedName
      → Text
      → Text
      → Memory (MetricsCache NM PM MV)
      → Result GetError (MetricsCache NM PM MV) × Memory (MetricsCache NM PM MV)
  ask ttl o now a s m memory = elim (fill o a s m (empty_entry (now + ttl))) [
    | ok cv ↦ (ok cv, set_cell a s m (some cv) memory)
    | err e ↦ (err e, set_cell a s m none memory)
  ]

  unfoldable pub remembered :
      ℕ
      → Origin NM PM MV
      → ℕ
      → NamespacedName
      → Text
      → Text
      → Memory (MetricsCache NM PM MV)
      → Result GetError (MetricsCache NM PM MV) × Memory (MetricsCache NM PM MV)
  unfolding ask
  remembered ttl o now a s m memory =
      let missed = ask ttl o now a s m memory in
      elim (memory a s m) [
        | none ↦ missed
        | some cv ↦ if ltb now cv.expired_at then (ok cv, memory) else missed
      ]

  abbrev pub IsProper : Call NM PM MV → Type 0
  IsProper c = IsName c.obj × Lacks b'#' c.metric_type

  -- The answers of a sequence of calls.
  unfoldable pub run_memory :
      ℕ
      → List (Call NM PM MV)
      → Memory (MetricsCache NM PM MV)
      → List (Result GetError (MetricsCache NM PM MV))
  unfolding remembered
  run_memory ttl [] memory = []
  run_memory ttl (c ∷ cs) memory =
      let (r, after) = remembered ttl c.origin c.now c.obj c.metric_type c.metric_name memory in
      r ∷ run_memory ttl cs after

  unfoldable pub run_cache :
      (NamespacedName → Text)
      → ℕ
      → List (Call NM PM MV)
      → Dict (MetricsCache NM PM MV)
      → List (Result GetError (MetricsCache NM PM MV))
  unfolding get
  run_cache show ttl [] cache = []
  run_cache show ttl (c ∷ cs) cache =
      let (r, after) = get show ttl c.origin c.now c.obj c.metric_type c.metric_name cache in
      r ∷ run_cache show ttl cs after

same_metric_iff :
    (a b : NamespacedName) (s t m n : Text)
    → (same_metric a s m b t n ≡ true) ↔ ((a ≡ b) × (s ≡ t) × (m ≡ n))
same_metric_iff a b s t m n = (forward, backward)
  where
    forward : same_metric a s m b t n ≡ true → (a ≡ b) × (s ≡ t) × (m ≡ n)
    forward e =
        let namespaces : a.namespace ≡ b.namespace = (text_eq_iff _ _).0 (ground (arith, e)) in
        let names : a.name ≡ b.name = (text_eq_iff _ _).0 (ground (arith, e)) in
        (
          ap₂ (λ x y. record { namespace = x; name = y }) namespaces names,
          (text_eq_iff s t).0 (ground (arith, e)),
          (text_eq_iff m n).0 (ground (arith, e)),
        )

    backward : (a ≡ b) × (s ≡ t) × (m ≡ n) → same_metric a s m b t n ≡ true
    backward (p, q, r) =
        rw (p, q, r)
          (ground
            (arith, text_eq_self b.namespace, text_eq_self b.name, text_eq_self t, text_eq_self n))

module _ (show : NamespacedName → Text) (joined : Shows show) where
  keys-agree :
      (a b : NamespacedName) (s t m n : Text)
      → IsName a
      → IsName b
      → Lacks b'#' s
      → Lacks b'#' t
      → text_eq (metrics_cache_key show a s m) (metrics_cache_key show b t n)
        ≡ same_metric a s m b t n
  keys-agree a b s t m n na nb ls lt = elim (Bool-cases (same_metric a s m b t n)) [
    | inl same ↦
        let (p, q, r) = (same_metric_iff a b s t m n).0 same in
        rw (same, p, q, r) (text_eq_self (metrics_cache_key show b t n))
    | inr differ ↦
        elim (Bool-cases (text_eq (metrics_cache_key show a s m) (metrics_cache_key show b t n))) [
          | inr other ↦ rw (other, differ) refl
          | inl one ↦
              let equal = (same_metric_iff a b s t m n).1 (
                metrics_cache_key_injective show a b s t m n joined na nb ls lt
                  ((text_eq_iff _ _).0 one)) in
              absurd (ground (arith, equal, differ))
        ]
  ]

module _ {NM PM MV : Type 0} (show : NamespacedName → Text) (joined : Shows show) (ttl : ℕ) where
  -- The cache holds under the key of each proper metric what the memory holds in its cell.
  abbrev pub Refines : Dict (MetricsCache NM PM MV) → Memory (MetricsCache NM PM MV) → Type 0
  Refines cache memory =
      (b : NamespacedName) (t n : Text)
      → IsName b
      → Lacks b'#' t
      → lookup (metrics_cache_key show b t n) cache ≡ memory b t n

  fetch-Refines :
      (o : Origin NM PM MV) (now : ℕ) (a : NamespacedName) (s m : Text)
      (cache : Dict (MetricsCache NM PM MV)) (memory : Memory (MetricsCache NM PM MV))
      → IsName a
      → Lacks b'#' s
      → Refines cache memory
      → ((fetch show ttl o now a s m cache).0 ≡ (ask ttl o now a s m memory).0)
        × Refines (fetch show ttl o now a s m cache).1 (ask ttl o now a s m memory).1
  unfolding ask fetch
  fetch-Refines o now a s m cache memory na ls h =
      elim (Result-cases (fill o a s m (empty_entry (now + ttl)))) [
        | inl (cv, f) ↦ (
          rw (f, fetch, ask) refl,
          λ b t n nb lt.
              lookup-fetch show ttl o now a s m cache (metrics_cache_key show b t n)
              ∙ rw (f, ask)
                  (rw (keys-agree show joined a b s t m n na nb ls lt, h b t n nb lt) refl),
        )
        | inr (e, f) ↦ (
          rw (f, fetch, ask) refl,
          λ b t n nb lt.
              lookup-fetch show ttl o now a s m cache (metrics_cache_key show b t n)
              ∙ rw (f, ask)
                  (rw (keys-agree show joined a b s t m n na nb ls lt, h b t n nb lt) refl),
        )
      ]

  get-Refines :
      (o : Origin NM PM MV) (now : ℕ) (a : NamespacedName) (s m : Text)
      (cache : Dict (MetricsCache NM PM MV)) (memory : Memory (MetricsCache NM PM MV))
      → IsName a
      → Lacks b'#' s
      → Refines cache memory
      → ((get show ttl o now a s m cache).0 ≡ (remembered ttl o now a s m memory).0)
        × Refines (get show ttl o now a s m cache).1 (remembered ttl o now a s m memory).1
  unfolding get remembered
  get-Refines o now a s m cache memory na ls h =
      let same = h a s m na ls in
      let missed = fetch-Refines o now a s m cache memory na ls h in
      elim (Option-cases (memory a s m)) [
        | inl e ↦ rw (same, e, get, remembered) missed
        | inr (cv, e) ↦ elim (Bool-cases (ltb now cv.expired_at)) [
          | inl fresh ↦ rw (same, e, get, remembered) (rw (fresh, get, remembered) (refl, h))
          | inr stale ↦ rw (same, e, get, remembered) (rw (stale, get, remembered) missed)
        ]
      ]

  run-Refines :
      (calls : List (Call NM PM MV)) (cache : Dict (MetricsCache NM PM MV))
      (memory : Memory (MetricsCache NM PM MV))
      → All IsProper calls
      → Refines cache memory
      → run_cache show ttl calls cache ≡ run_memory ttl calls memory
  unfolding run_cache run_memory
  run-Refines [] cache memory proper h = refl
  run-Refines (c ∷ cs) cache memory ((na, ls), proper) h =
      let (answer, after) =
        get-Refines c.origin c.now c.obj c.metric_type c.metric_name cache memory na ls h in
      ap₂ (λ r rs. r ∷ rs) answer (run-Refines cs _ _ proper after)

  -- Any sequence of calls of get for proper names and metric types without `#`, on an empty cache, is
  -- answered as by a memory that has one cell for each metric: what the origin answered last for this
  -- metric, until it expires.
  pub get-refines_memory :
      (calls : List (Call NM PM MV))
      → All IsProper calls
      → run_cache show ttl calls [] ≡ run_memory ttl calls (λ b t n. none)
  unfolding lookup
  get-refines_memory calls proper =
      run-Refines calls [] (λ b t n. none) proper (λ b t n nb lt. refl)
