-- ===== src/LoadBalancer/Sync/Events.antt =====
-- The proxier of wao-loadbalancer/pkg/proxy/nftables/proxier.go over time: it is made by NewProxier,
-- and then its handlers and syncProxyRules run one at a time, under its mutex.
use waok8s.Prelude.{◌≡◌, Bool, true, false, [], Text, In, Result, ok, some}
use waok8s.Prelude.Float.{Floats}
use waok8s.LoadBalancer.ScoreNode.{Stop}
use waok8s.LoadBalancer.Service.{ServiceEnv}
use waok8s.LoadBalancer.Tables.{NfTables}
use waok8s.LoadBalancer.Chains.{ServiceInfo, Categories, Settings}
use waok8s.LoadBalancer.Sync.{
  PortEntry, Update, Answer, Proxier, sync_proxy_rules, on_service_synced,
  on_endpoint_slices_synced, on_node_update, on_node_delete,
}
use waok8s.LoadBalancer.Sync.Laws.{Separate}

-- `NewProxier`, once its parts are there.
unfoldable pub new_proxier : {L M T : Type 0} → Text → L → M → T → Proxier L M T
new_proxier hostname no_labels no_endpoints tables = record {
  services_synced = false;
  endpoint_slices_synced = false;
  initialized = false;
  need_full_sync = true;
  hostname = hostname;
  node_labels = no_labels;
  ports = [];
  endpoints = no_endpoints;
  scores = [];
  tables = tables;
}

pub data Event (F L M : Type 0) : Type 0 where
  sync : ServiceEnv F → Update M → Answer → Event F L M
  service_synced : ServiceEnv F → Update M → Answer → Event F L M
  endpoint_slices_synced : ServiceEnv F → Update M → Answer → Event F L M
  node_update : Text → L → Event F L M
  node_delete : Text → Event F L M

module _ {L M T : Type 0} (cfg : Settings)
    (categorize : L → M → PortEntry → ServiceInfo → Categories) (fl : Floats) (format : Text)
    (nft : NfTables T) (deep_equal : L → L → Bool) (no_labels : L) where
  unfoldable pub handle : Event fl.F L M → Proxier L M T → Result Stop (Proxier L M T)
  unfolding sync_proxy_rules on_service_synced on_endpoint_slices_synced on_node_update
      on_node_delete
  handle (sync env upd ans) p = sync_proxy_rules cfg categorize fl format nft env upd ans p
  handle (service_synced env upd ans) p =
      on_service_synced cfg categorize fl format nft env upd ans p
  handle (endpoint_slices_synced env upd ans) p =
      on_endpoint_slices_synced cfg categorize fl format nft env upd ans p
  handle (node_update name labels) p = ok (on_node_update deep_equal name labels p)
  handle (node_delete name) p = ok (on_node_delete no_labels name p)

  -- The change trackers report each service whose ports or endpoints have changed.
  abbrev pub Tracks : Proxier L M T → Update M → Type 0
  Tracks p upd =
      (e : PortEntry)
      → In e upd.ports
      → (svc : ServiceInfo) → e.info ≡ some svc
      → upd.updated e.name ≡ false
      → In e p.ports
        × (categorize p.node_labels upd.endpoints e svc
            ≡ categorize p.node_labels p.endpoints e svc)

  abbrev pub IsFaithful : Proxier L M T → Event fl.F L M → Type 0
  IsFaithful p (sync env upd ans) = Separate cfg categorize p.node_labels upd × Tracks p upd
  IsFaithful p (service_synced env upd ans) =
      Separate cfg categorize p.node_labels upd × Tracks p upd
  IsFaithful p (endpoint_slices_synced env upd ans) =
      Separate cfg categorize p.node_labels upd × Tracks p upd
  IsFaithful p (node_update name labels) = Unit {0}
  IsFaithful p (node_delete name) = Unit {0}

  -- The states that a proxier comes to.
  pub data Reaches (p : Proxier L M T) : Proxier L M T → Type 0 where
    start : Reaches p p
    next :
        {q r : Proxier L M T} (ev : Event fl.F L M)
        → Reaches p q
        → IsFaithful q ev
        → handle ev q ≡ ok r
        → Reaches p r
