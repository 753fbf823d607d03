-- ===== src/LoadBalancer/Sync/Traffic.antt =====
-- Where the traffic of a service goes after a sync.
use mathlib.Core.List.{append_assoc, map-append}
use waok8s.Prelude.{
  ℕ, ◌<◌, ◌≤◌, ◌^◌, text_eq, lit, ◌*◌, ◌≡◌, refl, sym, ap, ◌∙◌, Bool, true, false, not, ◌&&◌, List,
  [], ◌∷◌, ◌++◌, Option, some, Text, Dict, In, lookup, length, map, ok, if◌then◌else◌, arith,
}
use waok8s.Prelude.Int64.{ℤ, pos}
use waok8s.Prelude.Float.{Floats}
use waok8s.LoadBalancer.Service.{ServiceEnv}
use waok8s.LoadBalancer.Rules.{
  EndpointInfo, Rule, Word, balance, balance_rule, affinity_rules, write_service_to_endpoint_rules,
}
use waok8s.LoadBalancer.Rules.Bounds.{weight_sum-le}
use waok8s.LoadBalancer.Rules.Laws.{balance_rule-weights}
use waok8s.LoadBalancer.Rules.Weighted.{weight_sum, pick, pick_weighted}
use waok8s.LoadBalancer.Tables.{ChainRule, balancing, NfTables}
use waok8s.LoadBalancer.Chains.{ServiceInfo, Categories, Settings, internal_rules}
use waok8s.LoadBalancer.Chains.Contents.{
  Policy, chain_for, endpoints_for, is_used, is_internal, policy_content,
}
use waok8s.LoadBalancer.Sync.{PortEntry, Update, Answer, Proxier, sync_proxy_rules}
use waok8s.LoadBalancer.Sync.Laws.{Separate, sync_proxy_rules-rewrites}
use waok8s.LoadBalancer.Sync.Total.{score-AreNormalized}

some_inj : {x y : List ChainRule} → ◌≡◌ {A = Option (List ChainRule)} (some x) (some y) → x ≡ y
some_inj e = cc

-- The load balancing rule is the last one.
write-last :
    (all_scores : Dict (Dict ℤ)) (name family : Text) (client_ip : Bool)
    (eps : List (Option EndpointInfo)) (scores : Dict ℤ) (rule : Rule)
    → lookup name all_scores ≡ some scores
    → balance_rule (some scores) eps ≡ some rule
    → (first : List Rule) × (write_service_to_endpoint_rules all_scores name family client_ip eps
        ≡ some (first ++ rule ∷ []))
unfolding write_service_to_endpoint_rules balance_rule
write-last all_scores name family client_ip eps scores rule l e =
    let rule_of : balance_rule (lookup name all_scores) eps ≡ some rule = rw l e in
    (
      (if client_ip
          then affinity_rules (if text_eq family (lit "IPv6") then lit "ip6" else lit "ip") eps
          else []),
      rw (rule_of, write_service_to_endpoint_rules) refl,
    )

policy_content-last :
    (cfg : Settings) (all_scores : Dict (Dict ℤ)) (svc : ServiceInfo) (cat : Categories)
    (policy : Policy) (scores : Dict ℤ) (rule : Rule)
    → lookup svc.name_string all_scores ≡ some scores
    → balance_rule (some scores) (endpoints_for cat policy) ≡ some rule
    → (first : List ChainRule) × (policy_content cfg all_scores svc cat policy
        ≡ some (first ++ balancing rule ∷ []))
unfolding policy_content
policy_content-last cfg all_scores svc cat policy scores rule l e =
    let (first, w) =
      write-last all_scores svc.name_string cfg.ip_family svc.client_ip (endpoints_for cat policy)
        scores rule l e in
    let marks : List ChainRule =
      if is_internal svc policy then internal_rules cfg svc cat else [] in
    (
      marks ++ map balancing first,
      rw (w, policy_content)
          (ap some (
            ap (λ (l : List ChainRule). marks ++ l) (map-append balancing first (rule ∷ []))
            ∙ sym (append_assoc marks (map balancing first) (balancing rule ∷ [])))),
    )

module _ {L M T : Type 0} (cfg : Settings)
    (categorize : L → M → PortEntry → ServiceInfo → Categories) (fl : Floats) (format : Text)
    (nft : NfTables T) where
  -- After a sync that nftables accepts, each policy chain that is used of a service port that is not
  -- skipped ends in the rule that sends the number `r` to the chain of the endpoint whose share of the
  -- weights holds it. The weights are those that this sync has calculated for the service port, there are
  -- fewer than 2^56 endpoints, and `r` lies below the sum of their weights.
  pub sync_proxy_rules-traffic :
      (env : ServiceEnv fl.F) (upd : Update M) (ans : Answer) (p p' : Proxier L M T) (e : PortEntry)
      (svc : ServiceInfo) (policy : Policy) (scores : Dict ℤ) (r : ℕ)
      → sync_proxy_rules cfg categorize fl format nft env upd ans p ≡ ok p'
      → p.initialized ≡ true
      → ans.accepted ≡ true
      → Separate cfg categorize p.node_labels upd
      → In e upd.ports
      → e.info ≡ some svc
      → is_used svc (categorize p.node_labels upd.endpoints e svc) policy ≡ true
      → not p.need_full_sync && not (upd.updated e.name) ≡ false
      → lookup svc.name_string p'.scores ≡ some scores
      → length (endpoints_for (categorize p.node_labels upd.endpoints e svc) policy) < 2 ^ 56
      → r < weight_sum scores (endpoints_for (categorize p.node_labels upd.endpoints e svc) policy)
      → (first : List ChainRule) × (ws : List Word) × (c : Text) × (nft.rules_of p'.tables
            (chain_for svc policy)
          ≡ first
            ++ balancing (
                balance
                  (pos (
                    weight_sum scores
                      (endpoints_for (categorize p.node_labels upd.endpoints e svc) policy)))
                  ws)
              ∷ [])
        × (pick ws r ≡ some c)
        × (pick_weighted scores
              (endpoints_for (categorize p.node_labels upd.endpoints e svc) policy)
              r
            ≡ some c)
  sync_proxy_rules-traffic env upd ans p p' e svc policy scores r synced ready a separate m i u now
        l b h =
      let cat = categorize p.node_labels upd.endpoints e svc in
      let eps = endpoints_for cat policy in
      let (apart, sole) = separate e m svc i in
      let (all_scores, s, kept, w) =
        sync_proxy_rules-rewrites cfg categorize fl format nft env upd ans p p' synced ready e svc
          policy i u apart (sole policy) a now in
      let found : lookup svc.name_string all_scores ≡ some scores = rw kept at l in
      let (watts, same) =
        score-AreNormalized fl env cfg.ip_family format _ all_scores s svc.name_string scores
          found in
      let sum = weight_sum-le fl watts eps in
      let sum' : weight_sum scores eps ≤ 100 * length eps = rw same at sum in
      let (ws, rule, (c, picks, weighted)) =
        balance_rule-weights scores eps r (omega (arith, sum', b)) h in
      let (first, holds) = policy_content-last cfg all_scores svc cat policy scores _ found rule in
      (first, ws, c, sym (some_inj (sym holds ∙ w)), picks, weighted)
