-- ===== src/LoadBalancer/Sync/Invariant.antt =====
-- What the tables hold at any time, of the proxier that NewProxier makes.
use waok8s.Prelude.{
  ◌≡◌, ◌⊎◌, inl, inr, refl, sym, ap, ◌∙◌, Bool, true, false, not, ◌&&◌, List, some, Text, text_eq,
  Dict, In, Result, ok, arith, Bool-cases,
}
use waok8s.Prelude.Int64.{ℤ}
use waok8s.Prelude.Float.{Floats}
use waok8s.LoadBalancer.ScoreNode.{Stop}
use waok8s.LoadBalancer.Service.{ServiceEnv, score}
use waok8s.LoadBalancer.Tables.{NfTables}
use waok8s.LoadBalancer.Chains.{ServiceInfo, Categories, Settings}
use waok8s.LoadBalancer.Chains.Contents.{Policy, chain_for, is_used, policy_content}
use waok8s.LoadBalancer.Sync.{
  PortEntry, Update, Answer, Proxier, finish, sync_proxy_rules, on_node_update, on_node_delete,
}
use waok8s.LoadBalancer.Sync.Laws.{
  Separate, sync_proxy_rules-steps, sync_proxy_rules-rewrites, sync_proxy_rules-keeps,
}
use waok8s.LoadBalancer.Sync.Events.{
  Event, sync, service_synced, endpoint_slices_synced, node_update, node_delete, new_proxier,
  handle, IsFaithful, Reaches, start, next,
}

module _ {L M T : Type 0} (cfg : Settings)
    (categorize : L → M → PortEntry → ServiceInfo → Categories) (fl : Floats) (format : Text)
    (nft : NfTables T) where
  -- Weights that some call of `Score` has calculated.
  abbrev pub IsCalculated : Dict (Dict ℤ) → Type 0
  IsCalculated scores =
      (env : ServiceEnv fl.F) × (names : List Text) × (score fl env cfg.ip_family format names
        ≡ ok scores)

  -- A policy chain holds what it is meant to, for such weights and the endpoints of now.
  abbrev pub ChainHolds : Proxier L M T → PortEntry → ServiceInfo → Policy → Type 0
  ChainHolds p e svc policy =
      (scores : Dict (Dict ℤ)) × IsCalculated scores
      × (policy_content cfg scores svc (categorize p.node_labels p.endpoints e svc) policy
          ≡ some (nft.rules_of p.tables (chain_for svc policy)))

  -- Either the next sync will be a full one, or each policy chain that is used holds that.
  abbrev pub IsCurrent : Proxier L M T → Type 0
  IsCurrent p =
      (p.need_full_sync ≡ true)
      ⊎ ((e : PortEntry)
          → In e p.ports
          → (svc : ServiceInfo) → e.info ≡ some svc
          → (policy : Policy)
          → is_used svc (categorize p.node_labels p.endpoints e svc) policy ≡ true
          → ChainHolds p e svc policy)

  module _ (env : ServiceEnv fl.F) (upd : Update M) (ans : Answer) (p p' : Proxier L M T)
      (synced : sync_proxy_rules cfg categorize fl format nft env upd ans p ≡ ok p')
      (ready : p.initialized ≡ true) (separate : Separate cfg categorize p.node_labels upd)
      (tracks : (e : PortEntry)
        → In e upd.ports
        → (svc : ServiceInfo) → e.info ≡ some svc
        → upd.updated e.name ≡ false
        → In e p.ports
          × (categorize p.node_labels upd.endpoints e svc
              ≡ categorize p.node_labels p.endpoints e svc))
      (before : IsCurrent p) where
    entry-ChainHolds :
        ans.accepted ≡ true
        → (e : PortEntry) → In e upd.ports
        → (svc : ServiceInfo) → e.info ≡ some svc
        → (policy : Policy)
        → is_used svc (categorize p.node_labels upd.endpoints e svc) policy ≡ true
        → (scores : Dict (Dict ℤ)) × IsCalculated scores
          × (policy_content cfg scores svc (categorize p.node_labels upd.endpoints e svc) policy
              ≡ some (nft.rules_of p'.tables (chain_for svc policy)))
    entry-ChainHolds a e m svc i policy u =
        let (apart, sole) = separate e m svc i in
        elim (Bool-cases (not p.need_full_sync && not (upd.updated e.name))) [
          | inr now ↦
              let (scores, s, kept, w) =
                sync_proxy_rules-rewrites cfg categorize fl format nft env upd ans p p' synced ready
                  e svc policy i u apart (sole policy) a now in
              (scores, (env, _, s), w)
          | inl skip ↦ elim before [
            | inl full ↦ absurd (ground (arith, full, skip))
            | inr holds ↦
                let (j, same) = tracks e m svc i (ground (arith, skip)) in
                let (_, keeps) =
                  sync_proxy_rules-keeps cfg categorize fl format nft env upd ans p p' synced ready
                    e svc policy i u apart (sole policy) a skip in
                let (scores, calculated, w) = holds e j svc i policy (rw same at u) in
                (scores, calculated, rw same (w ∙ ap some (sym keeps)))
          ]
        ]

    sync_proxy_rules-IsCurrent : IsCurrent p'
    unfolding finish
    sync_proxy_rules-IsCurrent =
        let (scores, log, s, l, done) =
          sync_proxy_rules-steps cfg categorize fl format nft env upd ans p p' synced ready in
        let labels : p'.node_labels ≡ p.node_labels = rw done refl in
        let endpoints : p'.endpoints ≡ upd.endpoints = rw done refl in
        let ports : p'.ports ≡ upd.ports = rw done refl in
        elim (Bool-cases ans.accepted) [
          | inr refused ↦ inl (rw done (rw refused refl))
          | inl accepted ↦ inr λ e m svc i policy u.
              rw (labels, endpoints)
                (entry-ChainHolds accepted e (rw ports at m) svc i policy
                  (rw (labels, endpoints) at u))
        ]

  -- A sync that comes too early does nothing.
  any_sync-IsCurrent :
      (env : ServiceEnv fl.F) (upd : Update M) (ans : Answer) (p p' : Proxier L M T)
      → sync_proxy_rules cfg categorize fl format nft env upd ans p ≡ ok p'
      → Separate cfg categorize p.node_labels upd
      → ((e : PortEntry)
          → In e upd.ports
          → (svc : ServiceInfo) → e.info ≡ some svc
          → upd.updated e.name ≡ false
          → In e p.ports
            × (categorize p.node_labels upd.endpoints e svc
                ≡ categorize p.node_labels p.endpoints e svc))
      → IsCurrent p
      → IsCurrent p'
  unfolding sync_proxy_rules
  any_sync-IsCurrent env upd ans p p' synced separate tracks before =
      elim (Bool-cases p.initialized) [
        | inl ready ↦
            sync_proxy_rules-IsCurrent env upd ans p p' synced ready separate tracks before
        | inr early ↦ let same : p ≡ p' = ground (arith, early, synced) in rw (← same) before
      ]

  module _ (deep_equal : L → L → Bool) (no_labels : L) where
    -- A change of the node's labels asks for a full sync.
    on_node_update-cases :
        (name : Text) (labels : L) (p : Proxier L M T)
        → (on_node_update deep_equal name labels p ≡ p)
          ⊎ ((on_node_update deep_equal name labels p).need_full_sync ≡ true)
    unfolding on_node_update
    on_node_update-cases name labels p = elim (Bool-cases (text_eq name p.hostname)) [
      | inr other ↦ inl (rw other refl)
      | inl mine ↦ elim (Bool-cases (deep_equal p.node_labels labels)) [
        | inl same ↦ inl (rw (mine, same) refl)
        | inr changed ↦ inr (rw (mine, changed) refl)
      ]
    ]

    on_node_delete-cases :
        (name : Text) (p : Proxier L M T)
        → (on_node_delete no_labels name p ≡ p)
          ⊎ ((on_node_delete no_labels name p).need_full_sync ≡ true)
    unfolding on_node_delete
    on_node_delete-cases name p = elim (Bool-cases (text_eq name p.hostname)) [
      | inr other ↦ inl (rw other refl)
      | inl mine ↦ inr (rw mine refl)
    ]

    full-IsCurrent :
        (p q p' : Proxier L M T)
        → (q ≡ p) ⊎ (q.need_full_sync ≡ true)
        → ◌≡◌ {A = Result Stop (Proxier L M T)} (ok q) (ok p')
        → IsCurrent p
        → IsCurrent p'
    full-IsCurrent p q p' c h before =
        let e : q ≡ p' = ground (arith, h) in
        elim c [
          | inl same ↦ let back : p ≡ p' = sym same ∙ e in rw (← back) before
          | inr full ↦ inl (ap (λ (r : Proxier L M T). r.need_full_sync) (sym e) ∙ full)
        ]

    handle-IsCurrent :
        (ev : Event fl.F L M) (p p' : Proxier L M T)
        → handle cfg categorize fl format nft deep_equal no_labels ev p ≡ ok p'
        → IsFaithful cfg categorize fl format nft deep_equal no_labels p ev
        → IsCurrent p
        → IsCurrent p'
    unfolding handle
    handle-IsCurrent (sync env upd ans) p p' h f before =
        any_sync-IsCurrent env upd ans p p' h f.0 f.1 before
    handle-IsCurrent (service_synced env upd ans) p p' h f before =
        any_sync-IsCurrent env upd ans _ p' h f.0 f.1 before
    handle-IsCurrent (endpoint_slices_synced env upd ans) p p' h f before =
        any_sync-IsCurrent env upd ans _ p' h f.0 f.1 before
    handle-IsCurrent (node_update name labels) p p' h f before =
        full-IsCurrent p _ p' (on_node_update-cases name labels p) h before
    handle-IsCurrent (node_delete name) p p' h f before =
        full-IsCurrent p _ p' (on_node_delete-cases name p) h before

    Reaches-IsCurrent :
        (p q : Proxier L M T)
        → Reaches cfg categorize fl format nft deep_equal no_labels p q
        → IsCurrent p
        → IsCurrent q
    Reaches-IsCurrent p _ start before = before
    Reaches-IsCurrent p q (next {q = r} ev steps f h) before =
        handle-IsCurrent ev r q h f (Reaches-IsCurrent p r steps before)

    -- From the proxier that NewProxier makes, whatever its handlers are called with, if the change
    -- trackers report each service port that has changed and no two chains have one name: either the next
    -- sync is a full one, or each policy chain that is used holds the marks of internal traffic and the
    -- rules of the endpoints of now, with weights that some call of Score has returned.
    pub reached-IsCurrent :
        (hostname : Text) (labels : L) (no_endpoints : M) (tables : T) (q : Proxier L M T)
        → Reaches cfg categorize fl format nft deep_equal no_labels
            (new_proxier hostname labels no_endpoints tables)
            q
        → IsCurrent q
    unfolding new_proxier
    reached-IsCurrent hostname labels no_endpoints tables q steps =
        Reaches-IsCurrent _ q steps (inl refl)
