-- ===== src/LoadBalancer/Sync/Total.antt =====
-- A sync comes to its end once Score has.
use waok8s.Prelude.{
  ◌<◌, ◌^◌, ◌≡◌, refl, Bool, true, false, not, ◌&&◌, inl, inr, List, [], ◌∷◌, Option, none, some,
  Text, Dict, In, here, there, length, All, map, ok, Result-cases, arith, Option-cases,
}
use waok8s.Prelude.Int64.{ℤ}
use waok8s.Prelude.Float.{Floats}
use waok8s.Kube.{NamespacedName}
use waok8s.LoadBalancer.Weights.{normalize_scores}
use waok8s.LoadBalancer.Service.{
  ServiceEnv, slice_of, watts_of, cpu_per_request, score_service, score,
}
use waok8s.LoadBalancer.Service.Laws.{score-stored}
use waok8s.LoadBalancer.Rules.{EndpointInfo}
use waok8s.LoadBalancer.Rules.Total.{IsInfo, AreNormalized, write-total}
use waok8s.LoadBalancer.Tables.{Command, NfTables}
use waok8s.LoadBalancer.Chains.{
  ServiceInfo, Categories, Settings, Log, uses_cluster_policy_chain, uses_local_policy_chain,
  add_policy_rules, service_rules, sync_service,
}
use waok8s.LoadBalancer.Chains.Contents.{Policy, cluster_policy, local_policy, endpoints_for}
use waok8s.LoadBalancer.Sync.{
  PortEntry, Update, Answer, Proxier, no_commands, sync_services, sync_proxy_rules,
}

module _ (fl : Floats) (env : ServiceEnv fl.F) (ip_family format : Text) where
  -- What `ScoreService` returns has been through normalizeScores.
  score_service-normalized :
      (svc_name : NamespacedName) (scores : Dict ℤ)
      → score_service fl env ip_family format svc_name ≡ ok scores
      → (watts : Dict ℤ) × (normalize_scores fl watts ≡ scores)
  unfolding score_service
  score_service-normalized svc_name scores e = elim (Option-cases (env.service svc_name)) [
    | inl n ↦ absurd (ground arith)
    | inr (svc, p) ↦ elim (Option-cases (env.endpoint_slices svc.namespace svc.name)) [
      | inl n ↦ absurd (ground arith)
      | inr (slices, q) ↦ elim (Option-cases (slice_of ip_family slices)) [
        | inl n ↦ absurd (ground arith)
        | inr (es, r) ↦
            elim (Result-cases (
              watts_of fl env ip_family format (cpu_per_request fl env ip_family format svc) []
                es.endpoints)) [
                  | inr (x, f) ↦ absurd (ground arith)
                  | inl (watts, f) ↦ (watts, ground arith)
                ]
      ]
    ]
  ]

  pub score-AreNormalized :
      (names : List Text) (all_scores : Dict (Dict ℤ))
      → score fl env ip_family format names ≡ ok all_scores
      → AreNormalized fl all_scores
  score-AreNormalized names all_scores e name scores l =
      let (_, stored, _) = score-stored fl env ip_family format names all_scores name scores e l in
      score_service-normalized _ scores stored

-- The endpoints are `*endpointInfo`s, and fewer than 2^56.
abbrev pub IsBounded : Categories → Type 0
IsBounded cat =
    (policy : Policy)
    → All IsInfo (endpoints_for cat policy) × (length (endpoints_for cat policy) < 2 ^ 56)

module _ (fl : Floats) (cfg : Settings) (all_scores : Dict (Dict ℤ))
    (normal : AreNormalized fl all_scores) where
  add_policy_rules-total :
      (svc : ServiceInfo) (used : Bool) (chain : Text) (eps : List (Option EndpointInfo))
      → All IsInfo eps
      → length eps < 2 ^ 56
      → (cmds : List Command) × (add_policy_rules cfg all_scores svc used chain eps ≡ some cmds)
  unfolding add_policy_rules
  add_policy_rules-total svc false chain eps infos b = ([], refl)
  add_policy_rules-total svc true chain eps infos b =
      let (rules, e) =
        write-total fl all_scores svc.name_string cfg.ip_family svc.client_ip eps normal infos b in
      elim (Option-cases (add_policy_rules cfg all_scores svc true chain eps)) [
        | inr written ↦ written
        | inl panic ↦ absurd (ground (arith, e, panic))
      ]

  service_rules-total :
      (svc : ServiceInfo) (cat : Categories)
      → IsBounded cat
      → (cmds : List Command) × (service_rules cfg all_scores svc cat ≡ some cmds)
  unfolding service_rules endpoints_for
  service_rules-total svc cat bounded =
      let (infos, b) = bounded cluster_policy in
      let (infos', b') = bounded local_policy in
      let (at_cluster, e) =
        add_policy_rules-total svc (uses_cluster_policy_chain svc cat) svc.cluster_policy_chain
          cat.cluster infos b in
      let (at_local, f) =
        add_policy_rules-total svc (uses_local_policy_chain svc cat) svc.local_policy_chain
          cat.local_endpoints infos' b' in
      elim (Option-cases (service_rules cfg all_scores svc cat)) [
        | inr written ↦ written
        | inl panic ↦ absurd (ground (arith, e, f, panic))
      ]

  sync_service-total :
      (skip : Bool) (svc : ServiceInfo) (cat : Categories) (log : Log)
      → IsBounded cat
      → (log' : Log) × (sync_service cfg all_scores skip svc cat log ≡ some log')
  unfolding sync_service
  sync_service-total true svc cat log bounded = (_, refl)
  sync_service-total false svc cat log bounded =
      let (cmds, e) = service_rules-total svc cat bounded in
      elim (Option-cases (sync_service cfg all_scores false svc cat log)) [
        | inr done ↦ done
        | inl panic ↦ absurd (ground (arith, e, panic))
      ]

  sync_services-total :
      {L M : Type 0} (categorize : L → M → PortEntry → ServiceInfo → Categories)
      (try_partial : Bool) (labels : L) (upd : Update M) (es : List PortEntry) (log : Log)
      → ((e : PortEntry)
          → In e es
          → (svc : ServiceInfo) → e.info ≡ some svc
          → IsBounded (categorize labels upd.endpoints e svc))
      → (out : Log) × (sync_services cfg categorize all_scores try_partial labels upd es log
          ≡ some out)
  unfolding sync_services
  sync_services-total categorize try_partial labels upd [] log bounded = (log, refl)
  sync_services-total categorize try_partial labels upd (e ∷ es) log bounded =
      at_info e.info refl (λ log'.
        sync_services-total categorize try_partial labels upd es log' (λ f m. bounded f (there m)))
    where
      at_info :
          (info : Option ServiceInfo)
          → e.info ≡ info
          → ((log' : Log)
              → (out : Log) × (sync_services cfg categorize all_scores try_partial labels upd es
                    log'
                  ≡ some out))
          → (out : Log) × (sync_services cfg categorize all_scores try_partial labels upd
                (e ∷ es)
                log
              ≡ some out)
      at_info none i rest = let (out, r) = rest log in (out, rw (i, sync_services) r)
      at_info (some svc) i rest =
          let (log', s) =
            sync_service-total (try_partial && not (upd.updated e.name)) svc
              (categorize labels upd.endpoints e svc) log (bounded e (here refl) svc i) in
          let (out, r) = rest log' in (out, rw (i, sync_services) (rw (s, sync_services) r))

module _ {L M T : Type 0} (cfg : Settings)
    (categorize : L → M → PortEntry → ServiceInfo → Categories) (fl : Floats) (format : Text)
    (nft : NfTables T) where
  -- If Score returns, so does syncProxyRules, whatever the floats do and nftables answers: no index is out
  -- of range where a load balancing rule is written. The endpoints are `*endpointInfo`s, and fewer than
  -- 2^56 for each service port.
  pub sync_proxy_rules-total :
      (env : ServiceEnv fl.F) (upd : Update M) (ans : Answer) (p : Proxier L M T)
      (all_scores : Dict (Dict ℤ))
      → score fl env cfg.ip_family format (map (λ (e : PortEntry). e.string) upd.ports)
        ≡ ok all_scores
      → ((e : PortEntry)
          → In e upd.ports
          → (svc : ServiceInfo) → e.info ≡ some svc
          → IsBounded (categorize p.node_labels upd.endpoints e svc))
      → (p' : Proxier L M T) × (sync_proxy_rules cfg categorize fl format nft env upd ans p ≡ ok p')
  unfolding sync_proxy_rules
  sync_proxy_rules-total env upd ans p all_scores s bounded =
      let normal = score-AreNormalized fl env cfg.ip_family format _ all_scores s in
      let (log, l) =
        sync_services-total fl cfg all_scores normal categorize (not p.need_full_sync) p.node_labels
          upd upd.ports no_commands bounded in
      elim (Result-cases (sync_proxy_rules cfg categorize fl format nft env upd ans p)) [
        | inl done ↦ done
        | inr (x, panic) ↦ absurd (ground (arith, s, l, panic))
      ]
