-- ===== src/LoadBalancer/Service/Laws.antt =====
-- What ScoreService and Score promise for the weights that they store.
use waok8s.Prelude.{
  ℕ, ◌≤◌, ◌≡◌, refl, sym, ap, ◌⊎◌, inl, inr, ◌≢◌, List, [], ◌∷◌, some, Text, Dict, In, here, there,
  lookup, insert, lookup-insert, text_eq, text_eq_iff, Result, ok, err, arith, Option-cases,
  Result-cases, Bool-cases,
}
use waok8s.Prelude.Int64.{ℤ, pos}
use waok8s.Prelude.Float.{Floats}
use waok8s.Kube.{NamespacedName}
use waok8s.LoadBalancer.ScoreNode.{Stop, unscored, failed, panicked, score_node}
use waok8s.LoadBalancer.Weights.{normalize_scores}
use waok8s.LoadBalancer.Weights.Laws.{normalize_scores_range}
use waok8s.LoadBalancer.SvcPort.{decode_svc_port_name_string}
use waok8s.LoadBalancer.Service.{
  Endpoint, EndpointSlice, Service, ServiceEnv, slice_of, add_addresses, add_endpoint, node_name_of,
  watts_of, cpu_per_request, score_service, store_scores, score_from, score,
}

In-insert_cases :
    (k j : Text) (v w : ℤ) (m : Dict ℤ)
    → In (j, w) (insert k v m)
    → ((j ≡ k) × (w ≡ v)) ⊎ In (j, w) m
unfolding insert
In-insert_cases k j v w [] (here e) =
    inl (ap (λ (x : Text × ℤ). x.0) e, ap (λ (x : Text × ℤ). x.1) e)
In-insert_cases k j v w [] (there i) = elim i [ ]
In-insert_cases k j v w ((l, u) ∷ m) i = elim (Bool-cases (text_eq l k)) [
  | inl e ↦ head (rw (e, insert) at i)
  | inr e ↦ tail (rw (e, insert) at i) (In-insert_cases k j v w m)
]
  where
    head : In (j, w) ((k, v) ∷ m) → ((j ≡ k) × (w ≡ v)) ⊎ In (j, w) ((l, u) ∷ m)
    head (here e) = inl (ap (λ (x : Text × ℤ). x.0) e, ap (λ (x : Text × ℤ). x.1) e)
    head (there i) = inr (there i)

    tail :
        In (j, w) ((l, u) ∷ insert k v m)
        → (In (j, w) (insert k v m) → ((j ≡ k) × (w ≡ v)) ⊎ In (j, w) m)
        → ((j ≡ k) × (w ≡ v)) ⊎ In (j, w) ((l, u) ∷ m)
    tail (here e) rec = inr (here e)
    tail (there i) rec = elim (rec i) [ inl e ↦ inl e | inr i ↦ inr (there i) ]

In-add_addresses :
    (watt : ℤ) (addrs : List Text) (watts : Dict ℤ) (ip : Text) (w : ℤ)
    → In (ip, w) (add_addresses watt addrs watts)
    → (In ip addrs × (w ≡ watt)) ⊎ In (ip, w) watts
unfolding add_addresses
In-add_addresses watt [] watts ip w i = inr i
In-add_addresses watt (addr ∷ addrs) watts ip w i =
    elim (In-add_addresses watt addrs (insert addr watt watts) ip w i) [
      | inl (j, e) ↦ inl (there j, e)
      | inr j ↦ elim (In-insert_cases addr ip watt w watts j) [
        | inl (p, q) ↦ inl (here p, q)
        | inr k ↦ inr k
      ]
    ]

In-add_endpoint :
    (r : Result Stop ℤ) (addrs : List Text) (watts out : Dict ℤ) (ip : Text) (w : ℤ)
    → add_endpoint r addrs watts ≡ ok out
    → In (ip, w) out
    → (In ip addrs × ((r ≡ ok w) ⊎ ((r ≡ err unscored) × (w ≡ pos 0)))) ⊎ In (ip, w) watts
unfolding add_endpoint
In-add_endpoint (ok v) addrs watts out ip w e i =
    let f : add_addresses v addrs watts ≡ out = ground arith in
    elim (In-add_addresses v addrs watts ip w (rw f i)) [
      | inl (j, q) ↦ inl (j, inl (ap ok (sym q)))
      | inr j ↦ inr j
    ]
In-add_endpoint (err unscored) addrs watts out ip w e i =
    let f : add_addresses (pos 0) addrs watts ≡ out = ground arith in
    elim (In-add_addresses (pos 0) addrs watts ip w (rw f i)) [
      | inl (j, q) ↦ inl (j, inr (refl, q))
      | inr j ↦ inr j
    ]
In-add_endpoint (err failed) addrs watts out ip w e i =
    let f : watts ≡ out = ground arith in inr (rw f i)
In-add_endpoint (err panicked) addrs watts out ip w e i = absurd (ground arith)

module _ (fl : Floats) (env : ServiceEnv fl.F) (ip_family format : Text) where
  -- The watts of an endpoint, as the loop reads them from `ScoreNode`.
  abbrev pub WattOf : fl.F → Endpoint → ℤ → Type 0
  WattOf cpu ep w =
      (score_node fl env.nodes format (node_name_of ep) cpu ≡ ok w)
      ⊎ ((score_node fl env.nodes format (node_name_of ep) cpu ≡ err unscored) × (w ≡ pos 0))

  abbrev Found : fl.F → List Endpoint → Text → ℤ → Type 0
  Found cpu eps ip w = (ep : Endpoint) × In ep eps × In ip ep.addresses × WattOf cpu ep w

  In-watts_of :
      (cpu : fl.F) (watts : Dict ℤ) (eps : List Endpoint) (out : Dict ℤ) (ip : Text) (w : ℤ)
      → watts_of fl env ip_family format cpu watts eps ≡ ok out
      → In (ip, w) out
      → Found cpu eps ip w ⊎ In (ip, w) watts
  unfolding watts_of
  In-watts_of cpu watts [] out ip w e i = let f : watts ≡ out = ground arith in inr (rw f i)
  In-watts_of cpu watts (ep ∷ eps) out ip w e i =
      elim (Result-cases
        (add_endpoint (score_node fl env.nodes format (node_name_of ep) cpu) ep.addresses watts)) [
          | inr (x, f) ↦ absurd (ground arith)
          | inl (watts', f) ↦
              let rest : watts_of fl env ip_family format cpu watts' eps ≡ ok out = ground arith in
              elim (In-watts_of cpu watts' eps out ip w rest i) [
                | inl (ep', j, k, q) ↦ inl (ep', there j, k, q)
                | inr j ↦
                    elim (In-add_endpoint (score_node fl env.nodes format (node_name_of ep) cpu)
                      ep.addresses watts watts' ip w f j) [
                        | inl (k, q) ↦ inl (ep, here refl, k, q)
                        | inr k ↦ inr k
                      ]
              ]
        ]

  -- The weight of an address: it stems from the watts of an endpoint of the chosen slice.
  abbrev pub Weighted : NamespacedName → Text → ℤ → Type 0
  Weighted svc_name ip s =
      (svc : Service) × (slices : List EndpointSlice) × (es : EndpointSlice) × (ep : Endpoint) × (n
        k : ℕ)
      × (env.service svc_name ≡ some svc)
      × (env.endpoint_slices svc.namespace svc.name ≡ some slices)
      × (slice_of ip_family slices ≡ some es)
      × In ep es.endpoints
      × In ip ep.addresses
      × WattOf (cpu_per_request fl env ip_family format svc) ep (pos n)
      × (s ≡ pos k)
      × (k ≤ 100)

  -- Each weight that `ScoreService` returns lies from 0 to 100 and belongs to an address of an
  -- endpoint in the first slice of the IP family, for which `ScoreNode` has given natural watts, or 0
  -- without an error.
  pub score_service-Weighted :
      (svc_name : NamespacedName) (scores : Dict ℤ) (ip : Text) (s : ℤ)
      → score_service fl env ip_family format svc_name ≡ ok scores
      → In (ip, s) scores
      → Weighted svc_name ip s
  unfolding score_service
  score_service-Weighted svc_name scores ip s e i = elim (Option-cases (env.service svc_name)) [
    | inl n ↦ absurd (ground arith)
    | inr (svc, p) ↦ elim (Option-cases (env.endpoint_slices svc.namespace svc.name)) [
      | inl n ↦ absurd (ground arith)
      | inr (slices, q) ↦ elim (Option-cases (slice_of ip_family slices)) [
        | inl n ↦ absurd (ground arith)
        | inr (es, r) ↦
            elim (Result-cases (
              watts_of fl env ip_family format (cpu_per_request fl env ip_family format svc) []
                es.endpoints)) [
                  | inr (x, f) ↦ absurd (ground arith)
                  | inl (watts, f) ↦
                      let done : normalize_scores fl watts ≡ scores = ground arith in
                      let (n, k, j, t, b) = normalize_scores_range fl watts ip s (rw done i) in
                      elim (In-watts_of (cpu_per_request fl env ip_family format svc) []
                        es.endpoints watts ip (pos n) f j) [
                          | inl (ep, u, v, w) ↦ (svc, slices, es, ep, n, k, p, q, r, u, v, w, t, b)
                          | inr none_left ↦ elim none_left [ ]
                        ]
                ]
      ]
    ]
  ]

  -- `ScoreService` of the service that a service port's name stands for.
  abbrev pub service_of : Text → Result Stop (Dict ℤ)
  service_of name = score_service fl env ip_family format (record {
    namespace = (decode_svc_port_name_string name).namespace;
    name = (decode_svc_port_name_string name).svc_name;
  })

  store_scores-cases :
      (name : Text) (r : Result Stop (Dict ℤ)) (all out : Dict (Dict ℤ)) (key : Text)
      (scores : Dict ℤ)
      → store_scores name r all ≡ ok out
      → lookup key out ≡ some scores
      → ((name ≡ key) × (r ≡ ok scores) × (scores ≢ [])) ⊎ (lookup key all ≡ some scores)
  unfolding store_scores
  store_scores-cases name (ok []) all out key scores e f = inr (ground arith)
  store_scores-cases name (ok (s ∷ t)) all out key scores e f =
      ground (arith, lookup-insert name key (s ∷ t) all, text_eq_iff name key)
  store_scores-cases name (err unscored) all out key scores e f = inr (ground arith)
  store_scores-cases name (err failed) all out key scores e f = inr (ground arith)
  store_scores-cases name (err panicked) all out key scores e f = absurd (ground arith)

  score_from-stored :
      (all : Dict (Dict ℤ)) (names : List Text) (out : Dict (Dict ℤ)) (key : Text) (scores : Dict ℤ)
      → score_from fl env ip_family format all names ≡ ok out
      → lookup key out ≡ some scores
      → (In key names × (service_of key ≡ ok scores) × (scores ≢ []))
        ⊎ (lookup key all ≡ some scores)
  unfolding score_from
  score_from-stored all [] out key scores e f = inr (ground arith)
  score_from-stored all (name ∷ names) out key scores e f =
      elim (Result-cases (store_scores name (service_of name) all)) [
        | inr (x, g) ↦ absurd (ground arith)
        | inl (all', g) ↦
            let rest : score_from fl env ip_family format all' names ≡ ok out = ground arith in
            elim (score_from-stored all' names out key scores rest f) [
              | inl (i, p, q) ↦ inl (there i, p, q)
              | inr h ↦ elim (store_scores-cases name (service_of name) all all' key scores g h) [
                | inl (same, p, q) ↦ inl (here (sym same), rw (← same) p, q)
                | inr old ↦ inr old
              ]
            ]
      ]

  -- After `Score`, the weights under a key are those that `ScoreService` returns for the service of that
  -- name, there is at least one, and the name is among those asked for: nothing remains of an earlier
  -- run, and no failed service has weights.
  pub score-stored :
      (names : List Text) (out : Dict (Dict ℤ)) (key : Text) (scores : Dict ℤ)
      → score fl env ip_family format names ≡ ok out
      → lookup key out ≡ some scores
      → In key names × (service_of key ≡ ok scores) × (scores ≢ [])
  unfolding score lookup
  score-stored names out key scores e f = elim (score_from-stored [] names out key scores e f) [
    | inl found ↦ found
    | inr nothing ↦ absurd (ground arith)
  ]
