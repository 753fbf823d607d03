-- ===== src/LoadBalancer/Sync/Loop.antt =====
-- What the loop over the service ports does to the policy chains of one of them.
use waok8s.Prelude.{
  ◌≡◌, inl, inr, refl, sym, ap, ◌∙◌, Bool, true, false, not, ◌&&◌, List, [], ◌∷◌, Option, none,
  some, Text, Dict, All, text_eq_iff, arith, Option-cases,
}
use waok8s.Prelude.Int64.{ℤ}
use waok8s.LoadBalancer.Tables.{ChainRule, replay}
use waok8s.LoadBalancer.Chains.{ServiceInfo, Categories, Settings, Log, has, sync_service}
use waok8s.LoadBalancer.Chains.Laws.{Avoids, Agree, Agree-trans}
use waok8s.LoadBalancer.Chains.Contents.{Policy, chain_for, is_used, policy_content, IsApart}
use waok8s.LoadBalancer.Chains.Round.{
  sync_service-content, sync_service-Agree, sync_service-skip, sync_service-active,
}
use waok8s.LoadBalancer.Sync.{PortEntry, Update, sync_services, flush_stale, flush_existing}

module _ {L M : Type 0} (cfg : Settings) (categorize : L → M → PortEntry → ServiceInfo → Categories)
    (labels : L) (upd : Update M) where
  -- The chain is none of the entry's.
  abbrev pub EntryAvoids : Text → PortEntry → Type 0
  EntryAvoids c e =
      (svc : ServiceInfo) → e.info ≡ some svc → Avoids c svc (categorize labels upd.endpoints e svc)

  -- The entry is in the list, and the chain is of no other.
  pub data IsSole (c : Text) (e : PortEntry) : List PortEntry → Type 0 where
    first : {es : List PortEntry} → All (EntryAvoids c) es → IsSole c e (e ∷ es)
    later :
        {e' : PortEntry} {es : List PortEntry}
        → EntryAvoids c e'
        → IsSole c e es
        → IsSole c e (e' ∷ es)

  -- The loop's step, with the rest of the loop.
  sync_services-step :
      (scores : Dict (Dict ℤ)) (try_partial : Bool) (e : PortEntry) (es : List PortEntry)
      (log out : Log) (svc : ServiceInfo)
      → e.info ≡ some svc
      → sync_services cfg categorize scores try_partial labels upd (e ∷ es) log ≡ some out
      → (log' : Log) × (sync_service cfg scores
            (try_partial && not (upd.updated e.name))
            svc
            (categorize labels upd.endpoints e svc)
            log
          ≡ some log')
        × (sync_services cfg categorize scores try_partial labels upd es log' ≡ some out)
  unfolding sync_services
  sync_services-step scores try_partial e es log out svc i r =
      elim (Option-cases (
        sync_service cfg scores (try_partial && not (upd.updated e.name)) svc
          (categorize labels upd.endpoints e svc) log)) [
            | inl n ↦ absurd (ground (arith, i, n, r))
            | inr (log', s) ↦ (log', s, ground (arith, i, s, r))
          ]

  sync_services-no_info :
      (scores : Dict (Dict ℤ)) (try_partial : Bool) (e : PortEntry) (es : List PortEntry)
      (log : Log)
      → e.info ≡ none
      → sync_services cfg categorize scores try_partial labels upd (e ∷ es) log
        ≡ sync_services cfg categorize scores try_partial labels upd es log
  unfolding sync_services
  sync_services-no_info scores try_partial e es log i = rw (i, sync_services) refl

  module _ (c : Text) (rules : List ChainRule) (scores : Dict (Dict ℤ)) (try_partial : Bool) where
    entry-Agree :
        (e : PortEntry) (es : List PortEntry) (log out : Log)
        → EntryAvoids c e
        → sync_services cfg categorize scores try_partial labels upd (e ∷ es) log ≡ some out
        → (log' : Log) × Agree c rules log log'
          × (sync_services cfg categorize scores try_partial labels upd es log' ≡ some out)
    entry-Agree e es log out a r = elim (Option-cases e.info) [
      | inl n ↦ (log, (refl, refl), sym (sync_services-no_info scores try_partial e es log n) ∙ r)
      | inr (svc, i) ↦
          let (log', s, rest) = sync_services-step scores try_partial e es log out svc i r in
          (log', sync_service-Agree cfg scores svc _ c rules _ log log' s (a svc i), rest)
    ]

    sync_services-Agree :
        (es : List PortEntry) (log out : Log)
        → All (EntryAvoids c) es
        → sync_services cfg categorize scores try_partial labels upd es log ≡ some out
        → Agree c rules log out
    unfolding sync_services
    sync_services-Agree [] log out h r =
        let done : log ≡ out = ground (arith, r) in rw (← done) (refl, refl)
    sync_services-Agree (e ∷ es) log out h r =
        let (log', same, rest) = entry-Agree e es log out h.0 r in
        Agree-trans c rules log log' out same (sync_services-Agree es log' out h.1 rest)

  -- The policy chains of an entry after the loop: rewritten with the scores given, or, where the entry
  -- is skipped, as they were.
  module _ (scores : Dict (Dict ℤ)) (try_partial : Bool) (e : PortEntry) (svc : ServiceInfo)
      (p : Policy) (i : e.info ≡ some svc)
      (u : is_used svc (categorize labels upd.endpoints e svc) p ≡ true)
      (rules : List ChainRule) where
    abbrev cat : Categories
    cat = categorize labels upd.endpoints e svc

    abbrev Rewritten : Log → Type 0
    Rewritten out =
        (content : List ChainRule) × (policy_content cfg scores svc cat p ≡ some content)
        × (replay (chain_for svc p) out.tx rules ≡ content)
        × (has out.active (chain_for svc p) ≡ true)

    pub sync_services-rewrites :
        (es : List PortEntry) (log out : Log)
        → IsSole (chain_for svc p) e es
        → IsApart svc cat
        → try_partial && not (upd.updated e.name) ≡ false
        → has log.active (chain_for svc p) ≡ false
        → sync_services cfg categorize scores try_partial labels upd es log ≡ some out
        → Rewritten out
    sync_services-rewrites [] log out sole apart now new r = elim sole [ ]
    sync_services-rewrites (_ ∷ es) log out (first others) apart now new r =
        let (log', s, rest) = sync_services-step scores try_partial e es log out svc i r in
        let (content, w, holds, active) =
          sync_service-content cfg scores svc cat p log log' rules (rw now at s) apart u new in
        let (still, same) =
          sync_services-Agree (chain_for svc p) rules scores try_partial es log' out others rest in
        (content, w, same ∙ holds, still ∙ active)
    sync_services-rewrites (e' ∷ es) log out (later avoids sole) apart now new r =
        let (log', (still, same), rest) =
          entry-Agree (chain_for svc p) rules scores try_partial e' es log out avoids r in
        sync_services-rewrites es log' out sole apart now (still ∙ new) rest

    pub sync_services-keeps :
        (es : List PortEntry) (log out : Log)
        → IsSole (chain_for svc p) e es
        → try_partial && not (upd.updated e.name) ≡ true
        → sync_services cfg categorize scores try_partial labels upd es log ≡ some out
        → (replay (chain_for svc p) out.tx rules ≡ replay (chain_for svc p) log.tx rules)
          × (has out.active (chain_for svc p) ≡ true)
    sync_services-keeps [] log out sole skip r = elim sole [ ]
    sync_services-keeps (_ ∷ es) log out (first others) skip r =
        let (log', s, rest) = sync_services-step scores try_partial e es log out svc i r in
        let (still, same) =
          sync_services-Agree (chain_for svc p) rules scores try_partial es log' out others rest in
        let nothing : log'.tx ≡ log.tx =
          sync_service-skip cfg scores svc cat log log' (rw skip at s) in
        (
          same ∙ ap (λ tx. replay (chain_for svc p) tx rules) nothing,
          still ∙ sync_service-active cfg scores svc cat p _ log log' s u,
        )
    sync_services-keeps (e' ∷ es) log out (later avoids sole) skip r =
        let (log', (still, same), rest) =
          entry-Agree (chain_for svc p) rules scores try_partial e' es log out avoids r in
        let (holds, active) = sync_services-keeps es log' out sole skip rest in
        (holds ∙ same, active)

-- The flush of stale chains leaves the active ones alone.
flush_stale-active :
    (c : Text) (active chains : List Text) (rules : List ChainRule)
    → has active c ≡ true
    → replay c (flush_stale active chains) rules ≡ rules
unfolding flush_stale replay
flush_stale-active c active [] rules h = refl
flush_stale-active c active (d ∷ chains) rules h =
    ground (arith, flush_stale-active c active chains rules h, text_eq_iff d c)

pub flush_existing-active :
    (c : Text) (active : List Text) (existing : Option (List Text)) (rules : List ChainRule)
    → has active c ≡ true
    → replay c (flush_existing active existing) rules ≡ rules
unfolding flush_existing replay
flush_existing-active c active none rules h = refl
flush_existing-active c active (some chains) rules h = flush_stale-active c active chains rules h
