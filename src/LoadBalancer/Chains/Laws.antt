-- ===== src/LoadBalancer/Chains/Laws.antt =====
-- What one round of the loop over the service ports does to one chain.
use waok8s.Prelude.{
  ◌≡◌, ◌≢◌, ◌⊎◌, inl, inr, refl, ◌∙◌, Bool, true, false, List, [], ◌∷◌, ◌++◌, Option, none, some,
  Text, text_eq, text_eq_iff, text_eq_self, text_eq→eq, All, if◌then◌else◌, arith, Bool-cases,
}
use waok8s.LoadBalancer.Rules.{EndpointInfo}
use waok8s.LoadBalancer.Tables.{Command, ChainRule, replay, replay-append}
use waok8s.LoadBalancer.Chains.{
  ServiceInfo, Categories, Log, has, ensure_chain, ensure_if, ensure_endpoints, ensure_chains,
  uses_cluster_policy_chain, uses_local_policy_chain,
}

pub text_ne : (s t : Text) → s ≢ t → text_eq s t ≡ false
text_ne s t h = ground (arith, text_eq_iff s t)

module _ (c : Text) (rules : List ChainRule) where
  -- The chain is active, and empty after the transaction.
  pub record IsFresh (log : Log) : Type 0 where
    pub is_active : has log.active c ≡ true
    pub is_empty : replay c log.tx rules ≡ []

  ensure_chain-IsFresh : (d : Text) (log : Log) → IsFresh log → IsFresh (ensure_chain false d log)
  unfolding ensure_chain has replay
  ensure_chain-IsFresh d log f = elim (Bool-cases (has log.active d)) [
    | inl there_already ↦ rw there_already f
    | inr new ↦ elim (Bool-cases (text_eq d c)) [
      | inl same ↦ absurd (ground (arith, same, new, f.is_active, text_eq_iff d c))
      | inr other ↦ rw new record {
        is_active = rw (other, has) f.is_active;
        is_empty = replay-append c log.tx _ rules ∙ rw (f.is_empty, other) refl;
      }
    ]
  ]

  -- Not made yet, or fresh.
  abbrev Pending : Log → Type 0
  Pending log = (has log.active c ≡ false) ⊎ IsFresh log

  ensure_chain-makes : (log : Log) → Pending log → IsFresh (ensure_chain false c log)
  unfolding ensure_chain has replay
  ensure_chain-makes log (inr f) = ensure_chain-IsFresh c log f
  ensure_chain-makes log (inl e) = rw e record {
    is_active = rw (text_eq_self c, has) refl;
    is_empty = replay-append c log.tx _ rules ∙ rw (text_eq_self c) refl;
  }

  ensure_chain-Pending : (d : Text) (log : Log) → Pending log → Pending (ensure_chain false d log)
  unfolding ensure_chain has
  ensure_chain-Pending d log (inr f) = inr (ensure_chain-IsFresh d log f)
  ensure_chain-Pending d log (inl e) = elim (Bool-cases (has log.active d)) [
    | inl there_already ↦ rw there_already (inl e)
    | inr new ↦ elim (Bool-cases (text_eq d c)) [
      | inl same ↦ rw (text_eq→eq d c same) (inr (ensure_chain-makes log (inl e)))
      | inr other ↦ rw new (inl (rw (other, has) e))
    ]
  ]

  ensure_if-Pending :
      (used : Bool) (d : Text) (log : Log) → Pending log → Pending (ensure_if used false d log)
  unfolding ensure_if
  ensure_if-Pending true d log h = ensure_chain-Pending d log h
  ensure_if-Pending false d log h = h

  ensure_if-IsFresh :
      (used : Bool) (d : Text) (log : Log) → IsFresh log → IsFresh (ensure_if used false d log)
  unfolding ensure_if
  ensure_if-IsFresh true d log h = ensure_chain-IsFresh d log h
  ensure_if-IsFresh false d log h = h

  ensure_if-makes :
      (used : Bool) (log : Log) → used ≡ true → Pending log → IsFresh (ensure_if used false c log)
  unfolding ensure_if
  ensure_if-makes true log u h = ensure_chain-makes log h
  ensure_if-makes false log u h = cc

  ensure_endpoints-Pending :
      (eps : List (Option EndpointInfo)) (log : Log)
      → Pending log
      → Pending (ensure_endpoints false eps log)
  unfolding ensure_endpoints
  ensure_endpoints-Pending [] log h = h
  ensure_endpoints-Pending (none ∷ eps) log h = ensure_endpoints-Pending eps log h
  ensure_endpoints-Pending (some ep ∷ eps) log h =
      ensure_endpoints-Pending eps _ (ensure_chain-Pending ep.chain_name log h)

-- A policy chain that is used is made, and empty before the rules of its service.
module _ (rules : List ChainRule) (svc : ServiceInfo) (cat : Categories) (log : Log) where
  pub ensure_chains-cluster :
      uses_cluster_policy_chain svc cat ≡ true
      → has log.active svc.cluster_policy_chain ≡ false
      → IsFresh svc.cluster_policy_chain rules (ensure_chains false svc cat log)
  unfolding ensure_chains
  ensure_chains-cluster u e = ensure_if-IsFresh svc.cluster_policy_chain rules _ _ _ (
      ensure_if-IsFresh svc.cluster_policy_chain rules _ _ _ (
        ensure_if-IsFresh svc.cluster_policy_chain rules _ _ _ (
          ensure_if-makes svc.cluster_policy_chain rules _ _ u (
            ensure_endpoints-Pending svc.cluster_policy_chain rules cat.all_reachable log
              (inl e)))))

  pub ensure_chains-local :
      uses_local_policy_chain svc cat ≡ true
      → has log.active svc.local_policy_chain ≡ false
      → IsFresh svc.local_policy_chain rules (ensure_chains false svc cat log)
  unfolding ensure_chains
  ensure_chains-local u e = ensure_if-IsFresh svc.local_policy_chain rules _ _ _ (
      ensure_if-IsFresh svc.local_policy_chain rules _ _ _ (
        ensure_if-makes svc.local_policy_chain rules _ _ u (
          ensure_if-Pending svc.local_policy_chain rules _ _ _
            (ensure_endpoints-Pending svc.local_policy_chain rules cat.all_reachable log (inl e)))))

module _ (c : Text) where
  abbrev pub ChainNe : Option EndpointInfo → Type 0
  ChainNe none = Unit {0}
  ChainNe (some ep) = ep.chain_name ≢ c

  -- The chain is none of the service's.
  pub record Avoids (svc : ServiceInfo) (cat : Categories) : Type 0 where
    pub not_cluster : svc.cluster_policy_chain ≢ c
    pub not_local : svc.local_policy_chain ≢ c
    pub not_external : svc.external_chain ≢ c
    pub not_firewall : svc.firewall_chain ≢ c
    pub not_endpoint : All ChainNe cat.all_reachable

-- Another service's round leaves a chain alone.
module _ (c : Text) (rules : List ChainRule) where
  -- The same for the chain.
  abbrev pub Agree : Log → Log → Type 0
  Agree a b = (has b.active c ≡ has a.active c) × (replay c b.tx rules ≡ replay c a.tx rules)

  ensure_chain-Agree :
      (skip : Bool) (d : Text) (log : Log) → d ≢ c → Agree log (ensure_chain skip d log)
  unfolding ensure_chain has replay
  ensure_chain-Agree skip d log n = elim (Bool-cases (has log.active d)) [
    | inl there_already ↦ rw there_already (refl, refl)
    | inr new ↦ rw new (rw (text_ne d c n, has) refl, at_skip skip)
  ]
    where
      at_skip :
          (b : Bool)
          → replay c
              (if b then log.tx else log.tx ++ Command.add_chain d ∷ Command.flush_chain d ∷ [])
              rules
            ≡ replay c log.tx rules
      at_skip true = refl
      at_skip false = replay-append c log.tx _ rules ∙ rw (text_ne d c n) refl

  ensure_if-Agree :
      (used skip : Bool) (d : Text) (log : Log) → d ≢ c → Agree log (ensure_if used skip d log)
  unfolding ensure_if
  ensure_if-Agree true skip d log n = ensure_chain-Agree skip d log n
  ensure_if-Agree false skip d log n = (refl, refl)

  pub Agree-trans : (a b d : Log) → Agree a b → Agree b d → Agree a d
  Agree-trans a b d p q = (q.0 ∙ p.0, q.1 ∙ p.1)

  ensure_endpoints-Agree :
      (skip : Bool) (eps : List (Option EndpointInfo)) (log : Log)
      → All (ChainNe c) eps
      → Agree log (ensure_endpoints skip eps log)
  unfolding ensure_endpoints
  ensure_endpoints-Agree skip [] log h = (refl, refl)
  ensure_endpoints-Agree skip (none ∷ eps) log h = ensure_endpoints-Agree skip eps log h.1
  ensure_endpoints-Agree skip (some ep ∷ eps) log h =
      Agree-trans log _ _ (ensure_chain-Agree skip ep.chain_name log h.0)
        (ensure_endpoints-Agree skip eps _ h.1)

  pub ensure_chains-Agree :
      (skip : Bool) (svc : ServiceInfo) (cat : Categories) (log : Log)
      → Avoids c svc cat
      → Agree log (ensure_chains skip svc cat log)
  unfolding ensure_chains
  ensure_chains-Agree skip svc cat log a =
      Agree-trans log _ _ (ensure_endpoints-Agree skip cat.all_reachable log a.not_endpoint) (
        Agree-trans _ _ _ (ensure_if-Agree _ skip svc.cluster_policy_chain _ a.not_cluster) (
          Agree-trans _ _ _ (ensure_if-Agree _ skip svc.local_policy_chain _ a.not_local) (
            Agree-trans _ _ _ (ensure_if-Agree _ skip svc.external_chain _ a.not_external)
              (ensure_if-Agree _ skip svc.firewall_chain _ a.not_firewall))))
