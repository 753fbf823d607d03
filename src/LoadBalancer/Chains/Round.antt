-- ===== src/LoadBalancer/Chains/Round.antt =====
-- One round of the loop over the service ports, as a whole.
use waok8s.Prelude.{
  ◌≡◌, ◌≢◌, inl, inr, refl, sym, ap, ◌∙◌, Bool, true, false, not, List, [], ◌∷◌, ◌++◌, Option, none,
  some, Text, Dict, text_eq, text_eq_self, map, if◌then◌else◌, arith, Bool-cases, Option-cases,
}
use waok8s.Prelude.Int64.{ℤ}
use waok8s.LoadBalancer.Rules.{EndpointInfo, Rule, write_service_to_endpoint_rules}
use waok8s.LoadBalancer.Tables.{Command, ChainRule, balancing, replay, replay-append}
use waok8s.LoadBalancer.Chains.{
  ServiceInfo, Categories, Settings, Log, has, ensure_chain, ensure_if, ensure_endpoints,
  ensure_chains, internal_traffic_chain, internal_rules, service_rules, sync_service,
}
use waok8s.LoadBalancer.Chains.Laws.{
  text_ne, IsFresh, Avoids, Agree, ensure_chains-Agree, ensure_chains-cluster, ensure_chains-local,
}
use waok8s.LoadBalancer.Chains.Contents.{
  Policy, cluster_policy, local_policy, chain_for, endpoints_for, is_internal, is_used,
  policy_content, IsApart, service_rules-parts, replay-parts, add_policy_rules-used,
  replay-add_policy_rules,
}

module _ (cfg : Settings) (all_scores : Dict (Dict ℤ)) (svc : ServiceInfo) (cat : Categories) where
  abbrev body : Policy → List Rule → List ChainRule
  body p written =
      (if is_internal svc p then internal_rules cfg svc cat else []) ++ map balancing written

  policy_content-written :
      (p : Policy) (written : List Rule)
      → write_service_to_endpoint_rules all_scores svc.name_string cfg.ip_family svc.client_ip
          (endpoints_for cat p)
        ≡ some written
      → policy_content cfg all_scores svc cat p ≡ some (body p written)
  unfolding policy_content
  policy_content-written p written w = rw (w, policy_content) refl

  -- The marks of internal traffic go to the chain of its policy.
  internal_rules-chain :
      (p : Policy)
      → svc.cluster_policy_chain ≢ svc.local_policy_chain
      → (if text_eq (internal_traffic_chain svc) (chain_for svc p)
          then internal_rules cfg svc cat
          else [])
        ≡ (if is_internal svc p then internal_rules cfg svc cat else [])
  unfolding internal_traffic_chain chain_for is_internal
  internal_rules-chain cluster_policy n = at_policy svc.internal_policy_local
    where
      at_policy :
          (b : Bool)
          → (if text_eq
                (if b then svc.local_policy_chain else svc.cluster_policy_chain)
                svc.cluster_policy_chain
              then internal_rules cfg svc cat
              else [])
            ≡ (if not b then internal_rules cfg svc cat else [])
      at_policy true = rw (text_ne _ _ (λ same. n (sym same))) refl
      at_policy false = rw (text_eq_self svc.cluster_policy_chain) refl
  internal_rules-chain local_policy n = at_policy svc.internal_policy_local
    where
      at_policy :
          (b : Bool)
          → (if text_eq
                (if b then svc.local_policy_chain else svc.cluster_policy_chain)
                svc.local_policy_chain
              then internal_rules cfg svc cat
              else [])
            ≡ (if b then internal_rules cfg svc cat else [])
      at_policy true = rw (text_eq_self svc.local_policy_chain) refl
      at_policy false = rw (text_ne _ _ n) refl

  service_rules-content :
      (p : Policy) (cmds : List Command)
      → service_rules cfg all_scores svc cat ≡ some cmds
      → IsApart svc cat
      → is_used svc cat p ≡ true
      → (content : List ChainRule) × (policy_content cfg all_scores svc cat p ≡ some content)
        × (replay (chain_for svc p) cmds [] ≡ content)
  unfolding is_used chain_for endpoints_for
  service_rules-content cluster_policy cmds e apart u =
      let (at_cluster, at_local, p, q, split) = service_rules-parts cfg all_scores svc cat cmds e in
      let (written, w, adds) = add_policy_rules-used cfg all_scores svc _ _ _ at_cluster p u in
      (
        body cluster_policy written,
        policy_content-written cluster_policy written w,
        rw split (
            replay-parts cfg all_scores svc cat svc.cluster_policy_chain at_cluster at_local []
              apart.cluster_apart
            ∙ replay-add_policy_rules svc.cluster_policy_chain cfg all_scores svc _ _ _ at_local _ q
                (λ same. apart.policies_differ (sym same))
            ∙ adds _
            ∙ ap (λ (l : List ChainRule). l ++ map balancing written)
                (internal_rules-chain cluster_policy apart.policies_differ)),
      )
  service_rules-content local_policy cmds e apart u =
      let (at_cluster, at_local, p, q, split) = service_rules-parts cfg all_scores svc cat cmds e in
      let (written, w, adds) = add_policy_rules-used cfg all_scores svc _ _ _ at_local q u in
      (
        body local_policy written,
        policy_content-written local_policy written w,
        rw split (
            replay-parts cfg all_scores svc cat svc.local_policy_chain at_cluster at_local []
              apart.local_apart
            ∙ ap (replay svc.local_policy_chain at_local) (
                replay-add_policy_rules svc.local_policy_chain cfg all_scores svc _ _ _ at_cluster _
                  p apart.policies_differ)
            ∙ adds _
            ∙ ap (λ (l : List ChainRule). l ++ map balancing written)
                (internal_rules-chain local_policy apart.policies_differ)),
      )

  -- A service port that is not skipped rewrites the policy chains that it uses.
  pub sync_service-content :
      (p : Policy) (log log' : Log) (rules : List ChainRule)
      → sync_service cfg all_scores false svc cat log ≡ some log'
      → IsApart svc cat
      → is_used svc cat p ≡ true
      → has log.active (chain_for svc p) ≡ false
      → (content : List ChainRule) × (policy_content cfg all_scores svc cat p ≡ some content)
        × (replay (chain_for svc p) log'.tx rules ≡ content)
        × (has log'.active (chain_for svc p) ≡ true)
  unfolding sync_service is_used chain_for
  sync_service-content p log log' rules e apart u new =
      elim (Option-cases (service_rules cfg all_scores svc cat)) [
        | inl n ↦ absurd (ground (arith, n, e))
        | inr (cmds, s) ↦
            let fresh = ensure_chains-used p u new in
            let (content, c, r) = service_rules-content p cmds s apart u in
            let made : Log = ensure_chains false svc cat log in
            let done : record made { tx = made.tx ++ cmds } ≡ log' = ground (arith, s, e) in
            (
              content,
              c,
              rw (← done)
                  (replay-append (chain_for svc p) made.tx cmds rules ∙ rw fresh.is_empty r),
              rw (← done) fresh.is_active,
            )
      ]
    where
      ensure_chains-used :
          (p : Policy)
          → is_used svc cat p ≡ true
          → has log.active (chain_for svc p) ≡ false
          → IsFresh (chain_for svc p) rules (ensure_chains false svc cat log)
      ensure_chains-used cluster_policy u new = ensure_chains-cluster rules svc cat log u new
      ensure_chains-used local_policy u new = ensure_chains-local rules svc cat log u new

module _ (cfg : Settings) (all_scores : Dict (Dict ℤ)) (svc : ServiceInfo) (cat : Categories) where
  -- The rules of a service go to its own chains.
  service_rules-Avoids :
      (c : Text) (cmds : List Command) (rules : List ChainRule)
      → service_rules cfg all_scores svc cat ≡ some cmds
      → Avoids c svc cat
      → replay c cmds rules ≡ rules
  unfolding internal_traffic_chain
  service_rules-Avoids c cmds rules e a =
      let (at_cluster, at_local, p, q, split) = service_rules-parts cfg all_scores svc cat cmds e in
      rw split (
        replay-parts cfg all_scores svc cat c at_cluster at_local rules a.not_endpoint
        ∙ replay-add_policy_rules c cfg all_scores svc _ _ _ at_local _ q a.not_local
        ∙ replay-add_policy_rules c cfg all_scores svc _ _ _ at_cluster _ p a.not_cluster
        ∙ not_internal svc.internal_policy_local)
    where
      not_internal :
          (b : Bool)
          → (if text_eq (if b then svc.local_policy_chain else svc.cluster_policy_chain) c
              then rules ++ internal_rules cfg svc cat
              else rules)
            ≡ rules
      not_internal true = rw (text_ne _ _ a.not_local) refl
      not_internal false = rw (text_ne _ _ a.not_cluster) refl

  -- A round leaves the chains of other services alone, and their place among the active ones.
  pub sync_service-Agree :
      (c : Text) (rules : List ChainRule) (skip : Bool) (log log' : Log)
      → sync_service cfg all_scores skip svc cat log ≡ some log'
      → Avoids c svc cat
      → Agree c rules log log'
  unfolding sync_service
  sync_service-Agree c rules true log log' e a =
      let done : ensure_chains true svc cat log ≡ log' = ground (arith, e) in
      rw (← done) (ensure_chains-Agree c rules true svc cat log a)
  sync_service-Agree c rules false log log' e a =
      elim (Option-cases (service_rules cfg all_scores svc cat)) [
        | inl n ↦ absurd (ground (arith, n, e))
        | inr (cmds, s) ↦
            let made : Log = ensure_chains false svc cat log in
            let done : record made { tx = made.tx ++ cmds } ≡ log' = ground (arith, s, e) in
            let same = ensure_chains-Agree c rules false svc cat log a in
            rw (← done) (
              same.0,
              replay-append c made.tx cmds rules ∙ service_rules-Avoids c cmds _ s a ∙ same.1,
            )
      ]

  ensure_chain-skip : (c : Text) (log : Log) → (ensure_chain true c log).tx ≡ log.tx
  unfolding ensure_chain
  ensure_chain-skip c log = ground arith

  ensure_if-skip : (used : Bool) (c : Text) (log : Log) → (ensure_if used true c log).tx ≡ log.tx
  unfolding ensure_if
  ensure_if-skip true c log = ensure_chain-skip c log
  ensure_if-skip false c log = refl

  ensure_endpoints-skip :
      (eps : List (Option EndpointInfo)) (log : Log) → (ensure_endpoints true eps log).tx ≡ log.tx
  unfolding ensure_endpoints
  ensure_endpoints-skip [] log = refl
  ensure_endpoints-skip (none ∷ eps) log = ensure_endpoints-skip eps log
  ensure_endpoints-skip (some ep ∷ eps) log =
      ensure_endpoints-skip eps _ ∙ ensure_chain-skip ep.chain_name log

  -- A service port that is skipped adds nothing to the transaction.
  pub sync_service-skip :
      (log log' : Log) → sync_service cfg all_scores true svc cat log ≡ some log' → log'.tx ≡ log.tx
  unfolding sync_service ensure_chains
  sync_service-skip log log' e =
      let done : ensure_chains true svc cat log ≡ log' = ground (arith, e) in
      rw (← done) (
        ensure_if-skip _ _ _
        ∙ ensure_if-skip _ _ _
        ∙ ensure_if-skip _ _ _
        ∙ ensure_if-skip _ _ _
        ∙ ensure_endpoints-skip cat.all_reachable log)

  -- What is active stays so.
  ensure_chain-active :
      (c d : Text) (skip : Bool) (log : Log)
      → has log.active c ≡ true
      → has (ensure_chain skip d log).active c ≡ true
  unfolding ensure_chain has
  ensure_chain-active c d skip log h = ground (arith, h)

  ensure_if-active :
      (c d : Text) (used skip : Bool) (log : Log)
      → has log.active c ≡ true
      → has (ensure_if used skip d log).active c ≡ true
  unfolding ensure_if
  ensure_if-active c d true skip log h = ensure_chain-active c d skip log h
  ensure_if-active c d false skip log h = h

  ensure_if_self :
      (c : Text) (used skip : Bool) (log : Log)
      → used ≡ true
      → has (ensure_if used skip c log).active c ≡ true
  unfolding ensure_if ensure_chain has
  ensure_if_self c true skip log u = elim (Bool-cases (has log.active c)) [
    | inl h ↦ rw h h
    | inr n ↦ rw (n, text_eq_self c) refl
  ]
  ensure_if_self c false skip log u = cc

  ensure_chains-active :
      (p : Policy) (skip : Bool) (log : Log)
      → is_used svc cat p ≡ true
      → has (ensure_chains skip svc cat log).active (chain_for svc p) ≡ true
  unfolding ensure_chains is_used chain_for
  ensure_chains-active cluster_policy skip log u =
      ensure_if-active _ _ _ _ _
        (ensure_if-active _ _ _ _ _ (ensure_if-active _ _ _ _ _ (ensure_if_self _ _ _ _ u)))
  ensure_chains-active local_policy skip log u =
      ensure_if-active _ _ _ _ _ (ensure_if-active _ _ _ _ _ (ensure_if_self _ _ _ _ u))

  -- A policy chain that is used counts as active, skipped or not.
  pub sync_service-active :
      (p : Policy) (skip : Bool) (log log' : Log)
      → sync_service cfg all_scores skip svc cat log ≡ some log'
      → is_used svc cat p ≡ true
      → has log'.active (chain_for svc p) ≡ true
  unfolding sync_service
  sync_service-active p true log log' e u =
      let done : ensure_chains true svc cat log ≡ log' = ground (arith, e) in
      rw (← done) (ensure_chains-active p true log u)
  sync_service-active p false log log' e u =
      elim (Option-cases (service_rules cfg all_scores svc cat)) [
        | inl n ↦ absurd (ground (arith, n, e))
        | inr (cmds, s) ↦
            let made : Log = ensure_chains false svc cat log in
            let done : record made { tx = made.tx ++ cmds } ≡ log' = ground (arith, s, e) in
            rw (← done) (ensure_chains-active p false log u)
      ]
