-- ===== src/LoadBalancer/Start.antt =====
-- wao-loadbalancer/pkg/proxy/nftables: NewWAOLB and betterChunkSize (wao.go), and NewProxier
-- (proxier.go). The clients and what else these make are parameters: each of them is there, or its
-- constructor fails.
use waok8s.Prelude.{
  ◌≡◌, ◌+◌, ◌/◌, inl, inr, refl, ℕ, Bool, true, [], Text, Option, none, some, Result, ok, err,
  or_fail, ◌>>=◌, min, max, ltb, if◌then◌else◌, arith, Result-cases,
}
use waok8s.Prelude.Int64.{ℤ, pos, ltb_ℤ}
use waok8s.LoadBalancer.Options.{
  WaolbOptions, OptionsError, defaulting_waolb_options, validating_waolb_options,
}
use waok8s.LoadBalancer.Sync.{Proxier}
use waok8s.LoadBalancer.Sync.Events.{new_proxier}

-- The constructors that NewWAOLB calls, in its order, and the client that reads through the cache.
pub record Clients (K : Type 0) : Type 0 where
  pub in_cluster_config : Option (Unit {0})
  pub client_set : Option K
  pub metrics_client : Option K
  pub discovery_client : Option K
  pub cache : Option K
  pub ctrlclient : K → Option K

pub data StartError : Type 0 where
  bad_options : OptionsError → StartError
  no_client no_tables : StartError

-- `WAOLB`, as it is made: the options, the clients, and the lifetimes of the two caches.
pub record Waolb (K : Type 0) : Type 0 where
  pub opts : WaolbOptions
  pub ctrlclient : K
  pub metrics_origin : K
  pub metrics_ttl : ℤ
  pub predictor_origin : K
  pub predictor_ttl : ℤ

-- An error of the validation, as an error of the start.
unfoldable pub checked : WaolbOptions → Result StartError (Unit {0})
unfolding validating_waolb_options
checked opts = elim (validating_waolb_options opts) [ ok u ↦ ok u | err e ↦ err (bad_options e) ]

-- `NewWAOLB`
unfoldable pub new_waolb : {K : Type 0} → Clients K → WaolbOptions → Result StartError (Waolb K)
unfolding checked defaulting_waolb_options
new_waolb clients given = do
  let opts = defaulting_waolb_options given
  u ← checked opts
  cfg ← or_fail clients.in_cluster_config no_client
  client_set ← or_fail clients.client_set no_client
  mc ← or_fail clients.metrics_client no_client
  dc ← or_fail clients.discovery_client no_client
  ca ← or_fail clients.cache no_client
  c ← or_fail (clients.ctrlclient ca) no_client
  ok record {
    opts = opts;
    ctrlclient = c;
    metrics_origin = mc;
    metrics_ttl = opts.metrics_cache_ttl;
    predictor_origin = client_set;
    predictor_ttl = opts.predictor_cache_ttl;
  }

-- `NewProxier`: `tables` is what getNFTablesInterface returns; with `initOnly` no proxier is made.
unfoldable pub start_proxier :
    {L M T K : Type 0}
    → Clients K
    → Option T
    → Bool
    → Text
    → Text
    → L
    → M
    → Result StartError (Option (Proxier L M T × Waolb K))
unfolding new_waolb
start_proxier clients tables init_only ip_family hostname no_labels no_endpoints = do
  nft ← or_fail tables no_tables
  if init_only
      then ok none
      else (new_waolb clients (record {
        ip_family = ip_family;
        metrics_cache_ttl = pos 0;
        predictor_cache_ttl = pos 0;
        cpu_usage_format = [];
      })
          >>= λ waolb. ok (some (new_proxier hostname no_labels no_endpoints nft, waolb)))

-- `betterChunkSize`; `sqrt` is `int(math.Sqrt(float64(n)))`.
unfoldable pub better_chunk_size : (ℕ → ℕ) → ℕ → ℕ → ℕ
better_chunk_size sqrt n parallelism =
    let s = sqrt n in let r = n / parallelism + 1 in if ltb r s then r else if ltb s 1 then 1 else s

-- It is the lesser of the root and of one more than n/parallelism, and 1 at least.
better_chunk_size_bounds :
    (sqrt : ℕ → ℕ) (n parallelism : ℕ)
    → better_chunk_size sqrt n parallelism ≡ max 1 (min (sqrt n) (n / parallelism + 1))
unfolding better_chunk_size
better_chunk_size_bounds sqrt n parallelism = ground arith

validating-ttl :
    (opts : WaolbOptions)
    → validating_waolb_options opts ≡ ok tt
    → (ltb_ℤ (pos 0) opts.metrics_cache_ttl ≡ true)
      × (ltb_ℤ (pos 0) opts.predictor_cache_ttl ≡ true)
unfolding validating_waolb_options
validating-ttl opts e = ground (arith, e)

-- What a chain of calls returned without an error, its first call did too.
first_returns {ℓ κ μ} :
    {B : Type κ} {E : Type μ} {A : Type ℓ} {result : B} (rest : A → Result E B) (first : Result E A)
    → (first >>= rest) ≡ ok result
    → (value : A) × (rest value ≡ ok result) × (first ≡ ok value)
first_returns rest (ok value) e = (value, e, refl)
first_returns rest (err x) e = cc

ok_inj : {K : Type 0} {a b : Waolb K} → ◌≡◌ {A = Result StartError (Waolb K)} (ok a) (ok b) → a ≡ b
ok_inj e = cc

checked-ok :
    (opts : WaolbOptions) {u : Unit {0}}
    → checked opts ≡ ok u
    → validating_waolb_options opts ≡ ok tt
unfolding checked
checked-ok opts e = elim (Result-cases (validating_waolb_options opts)) [
  | inl (u, f) ↦ f
  | inr (x, f) ↦ absurd (ground (arith, f, e))
]

-- A WAOLB has options that pass the validation, and lifetimes that are positive.
new_waolb-valid :
    {K : Type 0} (clients : Clients K) (given : WaolbOptions) (lb : Waolb K)
    → new_waolb clients given ≡ ok lb
    → (validating_waolb_options lb.opts ≡ ok tt)
      × (ltb_ℤ (pos 0) lb.metrics_ttl ≡ true)
      × (ltb_ℤ (pos 0) lb.predictor_ttl ≡ true)
unfolding new_waolb checked
new_waolb-valid clients given lb e =
    let (u, e1, f) = first_returns _ (checked (defaulting_waolb_options given)) e in
    let (cfg, e2, c1) = first_returns _ (or_fail clients.in_cluster_config no_client) e1 in
    let (client_set, e3, c2) = first_returns _ (or_fail clients.client_set no_client) e2 in
    let (mc, e4, c3) = first_returns _ (or_fail clients.metrics_client no_client) e3 in
    let (dc, e5, c4) = first_returns _ (or_fail clients.discovery_client no_client) e4 in
    let (ca, e6, c5) = first_returns _ (or_fail clients.cache no_client) e5 in
    let (c, e7, c6) = first_returns _ (or_fail (clients.ctrlclient ca) no_client) e6 in
    let valid = checked-ok (defaulting_waolb_options given) f in
    let (m, p) = validating-ttl (defaulting_waolb_options given) valid in
    let lb_of = ok_inj e7 in rw (← lb_of) (valid, m, p)
