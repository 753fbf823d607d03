-- ===== src/Client/Metrics/Laws.antt =====
-- What the cache of CachedMetricsClient holds, and what the callers get from it.
use waok8s.Prelude.{
  ℕ, ◌+◌, ◌<◌, ◌≡◌, refl, sym, ◌∙◌, ◌≢◌, ◌⊎◌, inl, inr, true, List, In, here, there, [], ◌∷◌, ◌++◌,
  Option, none, some, Text, Dict, lookup, insert, text_eq, text_eq_iff, ltb, if◌then◌else◌, Result,
  ok, err, lookup-insert, lookup-delete, text_eq_self, arith, Bool-cases, Option-cases,
  Result-cases,
}
use waok8s.Kube.{NamespacedName}
use mathlib.Core.Path.{ap₂}
use waok8s.Client.Keys.{Lacks, Lacks-append, append-sep_injective}
use waok8s.Client.Metrics.{
  Origin, MetricsCache, GetError, metrics_cache_key, empty_entry, fill, fetch, get,
  get_node_metrics, metric_type_node, metric_name_metrics,
}

-- `NamespacedName.String` joins the namespace and the name by a slash.
pub record Shows (show : NamespacedName → Text) : Type 0 where
  pub joined : (a : NamespacedName) → show a ≡ a.namespace ++ b'/' ∷ a.name

-- A namespace without a slash, and no part with the separator of the keys.
pub record IsName (a : NamespacedName) : Type 0 where
  pub no_slash : Lacks b'/' a.namespace
  pub namespace_lacks : Lacks b'#' a.namespace
  pub name_lacks : Lacks b'#' a.name

shown-Lacks :
    (show : NamespacedName → Text) (a : NamespacedName)
    → Shows show
    → IsName a
    → Lacks b'#' (show a)
shown-Lacks show a h n =
    rw (h.joined a)
      (Lacks-append b'#' a.namespace (b'/' ∷ a.name) n.namespace_lacks (omega arith, n.name_lacks))

show-injective :
    (show : NamespacedName → Text) (a b : NamespacedName)
    → Shows show
    → IsName a
    → IsName b
    → show a ≡ show b
    → a ≡ b
show-injective show a b h n m e =
    let (p, q) =
      append-sep_injective b'/' a.namespace b.namespace a.name b.name n.no_slash m.no_slash
        (sym (h.joined a) ∙ e ∙ h.joined b) in
    ap₂ (λ x y. record { namespace = x; name = y }) p q

-- Keys of different metrics differ, if the parts of the names and the metric types hold no `#` and the
-- namespaces no slash.
pub metrics_cache_key_injective :
    (show : NamespacedName → Text) (a b : NamespacedName) (s t m n : Text)
    → Shows show
    → IsName a
    → IsName b
    → Lacks b'#' s
    → Lacks b'#' t
    → metrics_cache_key show a s m ≡ metrics_cache_key show b t n
    → (a ≡ b) × (s ≡ t) × (m ≡ n)
unfolding metrics_cache_key
metrics_cache_key_injective show a b s t m n h na nb ls lt e =
    let (p, q) =
      append-sep_injective b'#' (show a) (show b) _ _ (shown-Lacks show a h na)
        (shown-Lacks show b h nb) e in
    let (r, u) = append-sep_injective b'#' s t m n ls lt q in
    (show-injective show a b h na nb p, r, u)

module _ {NM PM MV : Type 0} (show : NamespacedName → Text) (ttl : ℕ) where
  -- Each entry holds what the origin answered at one of the calls so far, for the metric that its key
  -- names, and expires when the time to live has passed since then.
  abbrev pub Filled : List (Origin NM PM MV × ℕ) → Dict (MetricsCache NM PM MV) → Type 0
  Filled calls cache =
      (k : Text) (cv : MetricsCache NM PM MV)
      → lookup k cache ≡ some cv
      → (o : Origin NM PM MV) × (at_time : ℕ) × (obj : NamespacedName) × (metric_type : Text)
        × (metric_name : Text) × In (o, at_time) calls
        × IsName obj
        × Lacks b'#' metric_type
        × (k ≡ metrics_cache_key show obj metric_type metric_name)
        × (fill o obj metric_type metric_name (empty_entry (at_time + ttl)) ≡ ok cv)

  Filled-later :
      (calls : List (Origin NM PM MV × ℕ)) (cache : Dict (MetricsCache NM PM MV))
      (call : Origin NM PM MV × ℕ)
      → Filled calls cache
      → Filled (call ∷ calls) cache
  Filled-later calls cache call h k cv e =
      let (o, t, obj, s, m, i, y, l, n, f) = h k cv e in (o, t, obj, s, m, there i, y, l, n, f)

  module _ (o : Origin NM PM MV) (now : ℕ) (obj : NamespacedName) (s m : Text)
      (cache : Dict (MetricsCache NM PM MV)) where
    -- The cache under another key, and under the key itself, after a miss.
    pub lookup-fetch :
        (k : Text)
        → lookup k (fetch show ttl o now obj s m cache).1 ≡ (
            if text_eq (metrics_cache_key show obj s m) k
            then elim (fill o obj s m (empty_entry (now + ttl))) [ ok cv ↦ some cv | err e ↦ none ]
            else lookup k cache)
    unfolding fetch
    lookup-fetch k = elim (Result-cases (fill o obj s m (empty_entry (now + ttl)))) [
      | inl (cv, f) ↦
          rw (f, fetch)
            (ground (
              arith,
              lookup-insert (metrics_cache_key show obj s m) k cv
                  (insert (metrics_cache_key show obj s m) (empty_entry (now + ttl)) cache),
              lookup-insert (metrics_cache_key show obj s m) k (empty_entry (now + ttl)) cache,
            ))
      | inr (x, f) ↦
          rw (f, fetch)
            (ground (
              arith,
              lookup-delete (metrics_cache_key show obj s m) k
                  (insert (metrics_cache_key show obj s m) (empty_entry (now + ttl)) cache),
              lookup-insert (metrics_cache_key show obj s m) k (empty_entry (now + ttl)) cache,
            ))
    ]

    fetch-Filled :
        (calls : List (Origin NM PM MV × ℕ))
        → IsName obj
        → Lacks b'#' s
        → Filled calls cache
        → Filled ((o, now) ∷ calls) (fetch show ttl o now obj s m cache).1
    fetch-Filled calls y l h k cv e =
        elim (Bool-cases (text_eq (metrics_cache_key show obj s m) k)) [
          | inl same ↦ elim (Result-cases (fill o obj s m (empty_entry (now + ttl)))) [
            | inl (cv', f) ↦ (
              o,
              now,
              obj,
              s,
              m,
              here refl,
              y,
              l,
              sym ((text_eq_iff _ k).0 same),
              ground (arith, lookup-fetch k),
            )
            | inr (x, f) ↦ absurd (ground (arith, lookup-fetch k))
          ]
          | inr other ↦ Filled-later calls cache (o, now) h k cv (ground (arith, lookup-fetch k))
        ]

    -- If each entry of the cache holds what the origin answered at one of the calls so far, for the metric
    -- that its key names, and expires when the time to live has passed since then, this is so again after a
    -- call for a proper name and a metric type without `#`, whether it succeeds or not, with this call among
    -- them.
    pub get-Filled :
        (calls : List (Origin NM PM MV × ℕ))
        → IsName obj
        → Lacks b'#' s
        → Filled calls cache
        → Filled ((o, now) ∷ calls) (get show ttl o now obj s m cache).1
    unfolding get
    get-Filled calls y l h = elim (Option-cases (lookup (metrics_cache_key show obj s m) cache)) [
      | inl n ↦ rw (n, get) (fetch-Filled calls y l h)
      | inr (cv, f) ↦ elim (Bool-cases (ltb now cv.expired_at)) [
        | inl fresh ↦ rw (f, get) (rw (fresh, get) (Filled-later calls cache (o, now) h))
        | inr stale ↦ rw (f, get) (rw (stale, get) (fetch-Filled calls y l h))
      ]
    ]

    -- Under these conditions a call that succeeds returns what the origin answered for this very metric,
    -- at this call or at one before.
    get_provenance :
        {cv : MetricsCache NM PM MV} (calls : List (Origin NM PM MV × ℕ))
        → Shows show
        → IsName obj
        → Lacks b'#' s
        → Filled calls cache
        → (get show ttl o now obj s m cache).0 ≡ ok cv
        → (o' : Origin NM PM MV) × (at_time : ℕ) × In (o', at_time) ((o, now) ∷ calls)
          × (fill o' obj s m (empty_entry (at_time + ttl)) ≡ ok cv)
    unfolding get fetch
    get_provenance {cv} calls n y l h r =
        elim (Option-cases (lookup (metrics_cache_key show obj s m) cache)) [
          | inl miss ↦ elim (Result-cases (fill o obj s m (empty_entry (now + ttl)))) [
            | inl (cv', f) ↦ (o, now, here refl, ground arith)
            | inr (x, f) ↦ absurd (ground arith)
          ]
          | inr (old, f) ↦ elim (Bool-cases (ltb now old.expired_at)) [
            | inl fresh ↦
                let (o', e, obj', s', m', i, y', l', k, g) =
                  h (metrics_cache_key show obj s m) old f in
                let (p, q, t) = metrics_cache_key_injective show obj obj' s s' m m' n y y' l l' k in
                (o', e, there i, rw (p, q, t) (ground arith))
            | inr stale ↦ elim (Result-cases (fill o obj s m (empty_entry (now + ttl)))) [
              | inl (cv', g) ↦ (o, now, here refl, ground arith)
              | inr (x, g) ↦ absurd (ground arith)
            ]
          ]
        ]

    -- A call answers from the cache, or fetches.
    get-cases :
        ((old : MetricsCache NM PM MV) × (lookup (metrics_cache_key show obj s m) cache ≡ some old)
          × (get show ttl o now obj s m cache ≡ (ok old, cache)))
        ⊎ (get show ttl o now obj s m cache ≡ fetch show ttl o now obj s m cache)
    unfolding get
    get-cases = elim (Option-cases (lookup (metrics_cache_key show obj s m) cache)) [
      | inl n ↦ inr (rw (n, get))
      | inr (old, f) ↦ elim (Bool-cases (ltb now old.expired_at)) [
        | inl fresh ↦ inl (old, f, rw (f, get) (rw (fresh, get)))
        | inr stale ↦ inr (rw (f, get) (rw (stale, get)))
      ]
    ]

    fetch-fill :
        {r : Result GetError (MetricsCache NM PM MV)}
        → (fetch show ttl o now obj s m cache).0 ≡ r
        → fill o obj s m (empty_entry (now + ttl)) ≡ r
    unfolding fetch
    fetch-fill e = elim (Result-cases (fill o obj s m (empty_entry (now + ttl)))) [
      | inl (cv, f) ↦ ground arith
      | inr (x, f) ↦ ground arith
    ]

    found_again :
        {cv : MetricsCache NM PM MV}
        → (get show ttl o now obj s m cache).0 ≡ ok cv
        → lookup (metrics_cache_key show obj s m) (get show ttl o now obj s m cache).1 ≡ some cv
    found_again {cv} r = elim get-cases [
      | inl (old, f, g) ↦ ground arith
      | inr g ↦
          let filled = fetch-fill (rw g at r) in
          rw g (
            ground (
              arith,
              lookup-fetch (metrics_cache_key show obj s m),
              text_eq_self (metrics_cache_key show obj s m),
            ))
    ]

    -- A call that succeeds is remembered: until the entry expires, a call for the same metric returns
    -- the same entry, whatever the origin would say by then, and changes nothing.
    get_again :
        {cv : MetricsCache NM PM MV} (o' : Origin NM PM MV) (later : ℕ)
        → (get show ttl o now obj s m cache).0 ≡ ok cv
        → later < cv.expired_at
        → get show ttl o' later obj s m (get show ttl o now obj s m cache).1
          ≡ (ok cv, (get show ttl o now obj s m cache).1)
    unfolding get
    get_again {cv} o' later r fresh = rw (found_again r, get) (rw (in_time, get) refl)
      where
        in_time : ltb later cv.expired_at ≡ true
        in_time = ground arith

    -- A call that fails leaves no entry for its metric, and the entries under other keys as they were.
    get_failed :
        {x : GetError}
        → (get show ttl o now obj s m cache).0 ≡ err x
        → (lookup (metrics_cache_key show obj s m) (get show ttl o now obj s m cache).1 ≡ none)
          × ((k : Text)
              → metrics_cache_key show obj s m ≢ k
              → lookup k (get show ttl o now obj s m cache).1 ≡ lookup k cache)
    get_failed {x} r = elim get-cases [
      | inl (old, f, g) ↦ absurd (ground arith)
      | inr g ↦
          let failed = fetch-fill (rw g at r) in
          rw g (
            ground (
              arith,
              lookup-fetch (metrics_cache_key show obj s m),
              text_eq_self (metrics_cache_key show obj s m),
            ),
            λ k other.
                ground (arith, lookup-fetch k, text_eq_iff (metrics_cache_key show obj s m) k),
          )
    ]

  fill-node :
      (o : Origin NM PM MV) (obj : NamespacedName) (e : ℕ) {cv : MetricsCache NM PM MV}
      → fill o obj metric_type_node metric_name_metrics (empty_entry e) ≡ ok cv
      → (v : NM) × (o.node_metrics obj.name ≡ some v) × (cv.node_metrics ≡ some v)
  unfolding fill text_eq
  fill-node o obj e r = elim (Option-cases (o.node_metrics obj.name)) [
    | inl n ↦ absurd (ground arith)
    | inr (v, f) ↦ (v, f, ground arith)
  ]

  -- One call at a time, on a cache filled as above and for a name without `#`, `GetNodeMetrics` never
  -- returns nil without an error: a result is what the origin has answered for this node.
  get_node_metrics_not_nil :
      (o : Origin NM PM MV) (now : ℕ) (name : Text) (calls : List (Origin NM PM MV × ℕ))
      (cache : Dict (MetricsCache NM PM MV)) {r : Option NM}
      → Shows show
      → Lacks b'#' name
      → Filled calls cache
      → (get_node_metrics show ttl o now name cache).0 ≡ ok r
      → (o' : Origin NM PM MV) × (v : NM) × (o'.node_metrics name ≡ some v) × (r ≡ some v)
  unfolding get_node_metrics
  get_node_metrics_not_nil o now name calls cache {r} n y h e =
      elim (Result-cases (get show ttl o now obj metric_type_node metric_name_metrics cache).0) [
        | inr (x, f) ↦ absurd (ground arith)
        | inl (cv, f) ↦
            let (o', exp, i, g) =
              get_provenance o now obj metric_type_node metric_name_metrics cache calls n
                (record { no_slash = tt; namespace_lacks = tt; name_lacks = y }) (omega arith) h
                f in
            let (v, p, q) = fill-node o' obj (exp + ttl) g in (o', v, p, ground arith)
      ]
    where
      obj : NamespacedName
      obj = record { namespace = []; name = name }
