-- ===== src/LoadBalancer/Sync.antt =====
-- wao-loadbalancer/pkg/proxy/nftables/proxier.go: syncProxyRules and the handlers that change what it
-- does. Its calls of the change trackers, of CategorizeEndpoints and of nftables are parameters; the
-- deletion of chains that have been stale for a second, a transaction of its own before, is left out.
pub mod Loop
pub mod Laws
pub mod Events
pub mod Invariant
pub mod Total
pub mod Traffic
mod Tests
use waok8s.Prelude.{
  ℕ, Bool, true, false, not, ◌&&◌, ◌||◌, ◌==◌, List, [], ◌∷◌, ◌++◌, Option, none, some, Text, Dict,
  Result, ok, err, ◌>>=◌, text_eq, map, if◌then◌else◌,
}
use waok8s.Prelude.Int64.{ℤ}
use waok8s.Prelude.Float.{Floats}
use waok8s.Kube.{NamespacedName}
use waok8s.LoadBalancer.ScoreNode.{Stop, panicked}
use waok8s.LoadBalancer.Service.{ServiceEnv, score}
use waok8s.LoadBalancer.Tables.{Command, flush_chain, NfTables}
use waok8s.LoadBalancer.Chains.{ServiceInfo, Categories, Settings, Log, has, sync_service}

-- An entry of `svcPortMap`: the key, also as a string, and the value if it is a `*servicePortInfo`.
pub record PortEntry : Type 0 where
  pub name : NamespacedName
  pub string : Text
  pub info : Option ServiceInfo

-- What the two change trackers leave: the maps, and the services that they report as changed.
pub record Update (M : Type 0) : Type 0 where
  pub ports : List PortEntry
  pub endpoints : M
  pub updated : NamespacedName → Bool

-- What nftables answers: the chains, or an error, and whether it accepts the transaction.
pub record Answer : Type 0 where
  pub existing : Option (List Text)
  pub accepted : Bool

-- `Proxier`; the map of endpoints, the labels of the node and the tables are of types `M`, `L` and `T`.
pub record Proxier (L M T : Type 0) : Type 0 where
  pub services_synced : Bool
  pub endpoint_slices_synced : Bool
  pub initialized : Bool
  pub need_full_sync : Bool
  pub hostname : Text
  pub node_labels : L
  pub ports : List PortEntry
  pub endpoints : M
  pub scores : Dict (Dict ℤ)
  pub tables : T

-- `isServiceChainName`
unfoldable pub is_service_chain_name : Text → Bool
is_service_chain_name [] = false
is_service_chain_name (c ∷ name) = if c == b'/' then true else is_service_chain_name name

-- The chains of services that are there and no longer active are flushed.
unfoldable pub flush_stale : List Text → List Text → List Command
unfolding is_service_chain_name has
flush_stale active [] = []
flush_stale active (c ∷ chains) =
    if is_service_chain_name c && not (has active c)
    then flush_chain c ∷ flush_stale active chains
    else flush_stale active chains

unfoldable pub flush_existing : List Text → Option (List Text) → List Command
unfolding flush_stale
flush_existing active none = []
flush_existing active (some chains) = flush_stale active chains

abbrev pub no_commands : Log
no_commands = record { tx = []; active = [] }

module _ {L M : Type 0} (cfg : Settings)
    (categorize : L → M → PortEntry → ServiceInfo → Categories) where
  -- The loop over the service ports.
  unfoldable pub sync_services :
      Dict (Dict ℤ) → Bool → L → Update M → List PortEntry → Log → Option Log
  sync_services scores try_partial labels upd [] log = some log
  sync_services scores try_partial labels upd (e ∷ es) log = elim e.info [
    | none ↦ sync_services scores try_partial labels upd es log
    | some svc ↦
        elim (sync_service cfg scores (try_partial && not (upd.updated e.name)) svc
          (categorize labels upd.endpoints e svc) log) [
            | none ↦ none
            | some log' ↦ sync_services scores try_partial labels upd es log'
          ]
  ]

  module _ {T : Type 0} (fl : Floats) (format : Text) (nft : NfTables T) where
    open fl use {F}

    -- The end of a sync, from the scores and the commands of all service ports.
    unfoldable pub finish : Update M → Answer → Proxier L M T → Dict (Dict ℤ) → Log → Proxier L M T
    unfolding flush_existing
    finish upd ans p scores log = record p {
      ports = upd.ports;
      endpoints = upd.endpoints;
      scores = scores;
      tables =
          if ans.accepted
          then nft.run p.tables (log.tx ++ flush_existing log.active ans.existing)
          else p.tables;
      need_full_sync = not ans.accepted;
    }

    -- `syncProxyRules`
    unfoldable pub sync_proxy_rules :
        ServiceEnv F → Update M → Answer → Proxier L M T → Result Stop (Proxier L M T)
    sync_proxy_rules env upd ans p =
        if p.initialized
        then (score fl env cfg.ip_family format (map (λ (e : PortEntry). e.string) upd.ports)
            >>= λ scores.
                elim (sync_services scores (not p.need_full_sync) p.node_labels upd upd.ports
                  no_commands) [
                    | none ↦ err panicked
                    | some log ↦ ok (finish upd ans p scores log)
                  ])
        else ok p

    -- `OnServiceSynced` and `OnEndpointSlicesSynced`
    unfoldable pub on_service_synced :
        ServiceEnv F → Update M → Answer → Proxier L M T → Result Stop (Proxier L M T)
    unfolding sync_proxy_rules
    on_service_synced env upd ans p =
        sync_proxy_rules env upd ans
          (record p { services_synced = true; initialized = p.endpoint_slices_synced })

    unfoldable pub on_endpoint_slices_synced :
        ServiceEnv F → Update M → Answer → Proxier L M T → Result Stop (Proxier L M T)
    unfolding sync_proxy_rules
    on_endpoint_slices_synced env upd ans p =
        sync_proxy_rules env upd ans
          (record p { endpoint_slices_synced = true; initialized = p.services_synced })

-- `OnNodeAdd`, which is the same as `OnNodeUpdate`, with `reflect.DeepEqual`; the call of `Sync` at its
-- end queues a run of `syncProxyRules`.
unfoldable pub on_node_update :
    {L M T : Type 0} → (L → L → Bool) → Text → L → Proxier L M T → Proxier L M T
unfolding text_eq
on_node_update deep_equal name labels p =
    if not (text_eq name p.hostname)
    then p
    else if deep_equal p.node_labels labels
    then p
    else record p { node_labels = labels; need_full_sync = true }

-- `OnNodeDelete`
unfoldable pub on_node_delete : {L M T : Type 0} → L → Text → Proxier L M T → Proxier L M T
unfolding text_eq
on_node_delete no_labels name p =
    if not (text_eq name p.hostname)
    then p
    else record p { node_labels = no_labels; need_full_sync = true }
