-- ===== src/LoadBalancer/Sync/Laws.antt =====
-- What one sync leaves in the policy chains of a service port.
use waok8s.Prelude.{
  ◌≡◌, inl, inr, refl, sym, ap, ◌∙◌, true, false, not, ◌&&◌, List, ◌++◌, some, Text, Dict, In, ok,
  Result-cases, map, arith, Option-cases,
}
use waok8s.Prelude.Int64.{ℤ}
use waok8s.Prelude.Float.{Floats}
use waok8s.LoadBalancer.Service.{ServiceEnv, score}
use waok8s.LoadBalancer.Tables.{replay, replay-append, NfTables}
use waok8s.LoadBalancer.Chains.{ServiceInfo, Categories, Settings, Log, has}
use waok8s.LoadBalancer.Chains.Contents.{Policy, chain_for, is_used, policy_content, IsApart}
use waok8s.LoadBalancer.Sync.{
  PortEntry, Update, Answer, Proxier, no_commands, sync_services, flush_existing, finish,
  sync_proxy_rules,
}
use waok8s.LoadBalancer.Sync.Loop.{
  IsSole, sync_services-rewrites, sync_services-keeps, flush_existing-active,
}

module _ {L M : Type 0} (cfg : Settings)
    (categorize : L → M → PortEntry → ServiceInfo → Categories) where
  -- No two chains of the service ports have one name.
  abbrev pub Separate : L → Update M → Type 0
  Separate labels upd =
      (e : PortEntry)
      → In e upd.ports
      → (svc : ServiceInfo) → e.info ≡ some svc
      → IsApart svc (categorize labels upd.endpoints e svc)
        × ((p : Policy) → IsSole cfg categorize labels upd (chain_for svc p) e upd.ports)

  module _ {T : Type 0} (fl : Floats) (format : Text) (nft : NfTables T) (env : ServiceEnv fl.F)
      (upd : Update M) (ans : Answer) (p p' : Proxier L M T)
      (synced : sync_proxy_rules cfg categorize fl format nft env upd ans p ≡ ok p')
      (ready : p.initialized ≡ true) where
    abbrev names : List Text
    names = map (λ (e : PortEntry). e.string) upd.ports

    -- The steps of a sync that comes to its end.
    pub sync_proxy_rules-steps :
        (scores : Dict (Dict ℤ)) × (log : Log) × (score fl env cfg.ip_family format names
          ≡ ok scores)
        × (sync_services cfg categorize scores
              (not p.need_full_sync)
              p.node_labels
              upd
              upd.ports
              no_commands
            ≡ some log)
        × (p' ≡ finish cfg categorize fl format nft upd ans p scores log)
    unfolding sync_proxy_rules
    sync_proxy_rules-steps = elim (Result-cases (score fl env cfg.ip_family format names)) [
      | inr (x, f) ↦ absurd (ground (arith, ready, f, synced))
      | inl (scores, s) ↦
          elim (Option-cases (
            sync_services cfg categorize scores (not p.need_full_sync) p.node_labels upd upd.ports
              no_commands)) [
                | inl n ↦ absurd (ground (arith, ready, s, n, synced))
                | inr (log, l) ↦ (scores, log, s, l, ground (arith, ready, s, l, synced))
              ]
    ]

    finish-replay :
        (scores : Dict (Dict ℤ)) (log : Log) (c : Text)
        → ans.accepted ≡ true
        → has log.active c ≡ true
        → nft.rules_of (finish cfg categorize fl format nft upd ans p scores log).tables c
          ≡ replay c log.tx (nft.rules_of p.tables c)
    unfolding finish
    finish-replay scores log c a active = rw a (
        nft.run_lem p.tables (log.tx ++ flush_existing log.active ans.existing) c
        ∙ replay-append c log.tx (flush_existing log.active ans.existing) _
        ∙ flush_existing-active c log.active ans.existing _ active)

    module _ (e : PortEntry) (svc : ServiceInfo) (policy : Policy) (i : e.info ≡ some svc)
        (u : is_used svc (categorize p.node_labels upd.endpoints e svc) policy ≡ true)
        (apart : IsApart svc (categorize p.node_labels upd.endpoints e svc))
        (sole : IsSole cfg categorize p.node_labels upd (chain_for svc policy) e upd.ports)
        (a : ans.accepted ≡ true) where
      pub sync_proxy_rules-rewrites :
          not p.need_full_sync && not (upd.updated e.name) ≡ false
          → (scores : Dict (Dict ℤ)) × (score fl env cfg.ip_family format names ≡ ok scores)
            × (p'.scores ≡ scores)
            × (policy_content cfg scores svc (categorize p.node_labels upd.endpoints e svc) policy
                ≡ some (nft.rules_of p'.tables (chain_for svc policy)))
      unfolding finish has
      sync_proxy_rules-rewrites now =
          let (scores, log, s, l, done) = sync_proxy_rules-steps in
          let (content, w, holds, active) =
            sync_services-rewrites cfg categorize p.node_labels upd scores (not p.need_full_sync) e
              svc policy i u (nft.rules_of p.tables (chain_for svc policy)) upd.ports no_commands
              log sole apart now refl l in
          (
            scores,
            s,
            rw done refl,
            w
                ∙ ap some (
                    sym holds
                    ∙ sym (finish-replay scores log (chain_for svc policy) a active)
                    ∙ ap (λ (q : Proxier L M T). nft.rules_of q.tables (chain_for svc policy))
                        (sym done)),
          )

      -- After a partial sync that nftables accepts, a policy chain that is used of a service port that the
      -- change trackers have not reported holds the rules that it held before, although the sync has
      -- calculated new weights, and kept them. The chains of the service ports have different names.
      pub sync_proxy_rules-keeps :
          not p.need_full_sync && not (upd.updated e.name) ≡ true
          → ((scores : Dict (Dict ℤ)) × (score fl env cfg.ip_family format names ≡ ok scores)
              × (p'.scores ≡ scores))
            × (nft.rules_of p'.tables (chain_for svc policy)
                ≡ nft.rules_of p.tables (chain_for svc policy))
      unfolding replay finish
      sync_proxy_rules-keeps skip =
          let (scores, log, s, l, done) = sync_proxy_rules-steps in
          let (holds, active) =
            sync_services-keeps cfg categorize p.node_labels upd scores (not p.need_full_sync) e svc
              policy i u (nft.rules_of p.tables (chain_for svc policy)) upd.ports no_commands log
              sole skip l in
          (
            (scores, s, rw done refl),
            ap (λ (q : Proxier L M T). nft.rules_of q.tables (chain_for svc policy)) done
                ∙ finish-replay scores log (chain_for svc policy) a active
                ∙ holds,
          )
