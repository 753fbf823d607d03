-- ===== src/LoadBalancer/Sync/Tests.antt =====
-- A Service with two endpoints: the first sync is full, a later one skips it.
use waok8s.Prelude.{
  ◌<◌, ◌≡◌, refl, Bool, true, false, not, ◌&&◌, List, [], ◌∷◌, ◌++◌, Option, none, some, Text, Dict,
  lit, In, here, there, lookup, text_eq, ok, arith,
}
use waok8s.Prelude.Int64.{ℤ, pos, add64}
use waok8s.Samples.{whole}
use waok8s.Kube.{NamespacedName}
use waok8s.LoadBalancer.ScoreNode.{cpu_usage_format_raw, score_node}
use waok8s.LoadBalancer.Service.{score}
use waok8s.LoadBalancer.Tests.{balanced, ip_a, ip_b, nginx, nginx_scores, port_name, score_run}
use waok8s.LoadBalancer.Rules.{EndpointInfo, Word, write_service_to_endpoint_rules, balance}
use waok8s.LoadBalancer.Rules.Weighted.{weight_sum, pick, pick_weighted}
use waok8s.LoadBalancer.Tables.{ChainRule, balancing, replay, NfTables}
use waok8s.LoadBalancer.Chains.{
  ServiceInfo, Categories, Settings, Log, ensure_chains, ensure_if, ensure_endpoints, service_rules,
  sync_service,
}
use waok8s.LoadBalancer.Chains.Contents.{
  cluster_policy, local_policy, chain_for, endpoints_for, is_used, IsApart,
}
use waok8s.LoadBalancer.Sync.{
  PortEntry, Update, Answer, Proxier, no_commands, sync_services, finish, sync_proxy_rules,
}
use waok8s.LoadBalancer.Sync.Loop.{first}
use waok8s.LoadBalancer.Sync.Laws.{Separate, sync_proxy_rules-keeps}
use waok8s.LoadBalancer.Sync.Events.{
  new_proxier, service_synced, endpoint_slices_synced, handle, sync, Reaches, start, next,
}
use waok8s.LoadBalancer.Sync.Invariant.{IsCurrent, reached-IsCurrent}
use waok8s.LoadBalancer.Sync.Total.{IsBounded, sync_proxy_rules-total}
use waok8s.LoadBalancer.Sync.Traffic.{sync_proxy_rules-traffic}

abbrev Endpoints : Type 0
Endpoints = List (Option EndpointInfo)

abbrev two_endpoints : Endpoints
two_endpoints =
    some (record {
      ip = ip_a;
      address = lit "10.0.0.1:80";
      chain_name = lit "endpoint/a";
      affinity_set_name = lit "affinity-a";
    })
    ∷ some (record {
      ip = ip_b;
      address = lit "10.0.0.2:80";
      chain_name = lit "endpoint/b";
      affinity_set_name = lit "affinity-b";
    })
    ∷ []

abbrev nginx_info : ServiceInfo
nginx_info = record {
  name_string = port_name;
  protocol = lit "tcp";
  cluster_ip = lit "172.30.0.1";
  port = 80;
  client_ip = false;
  cluster_policy_chain = lit "service/nginx";
  local_policy_chain = lit "local/nginx";
  external_chain = lit "external/nginx";
  firewall_chain = lit "firewall/nginx";
  uses_cluster_endpoints = true;
  uses_local_endpoints = false;
  internal_policy_local = false;
  externally_accessible = false;
  has_vips = false;
  has_source_ranges = false;
}

abbrev nginx_port : PortEntry
nginx_port = record { name = nginx; string = port_name; info = some nginx_info }

abbrev all_cluster : Text → Endpoints → PortEntry → ServiceInfo → Categories
all_cluster labels eps e svc = record {
  cluster = eps;
  local_endpoints = [];
  all_reachable = eps;
  has_endpoints = true;
}

abbrev ipv4 : Settings
ipv4 = record { ip_family = lit "IPv4"; masquerade_all = true; local_detector = none }

-- Tables as a function of the chain's name.
abbrev Chains : Type 0
Chains = Text → List ChainRule

abbrev by_name : NfTables Chains
by_name = record {
  rules_of = λ t c. t c;
  run = λ t tx c. replay c tx (t c);
  run_lem = λ t tx c. refl;
}

abbrev update_of : (NamespacedName → Bool) → Update Endpoints
update_of updated = record { ports = nginx_port ∷ []; endpoints = two_endpoints; updated = updated }

abbrev changed : Update Endpoints
changed = update_of (λ name. true)

abbrev unchanged : Update Endpoints
unchanged = update_of (λ name. false)

abbrev accepted : Answer
accepted = record { existing = none; accepted = true }

abbrev fresh : Proxier Text Endpoints Chains
fresh = record {
  services_synced = true;
  endpoint_slices_synced = true;
  initialized = true;
  need_full_sync = true;
  hostname = lit "n1";
  node_labels = [];
  ports = [];
  endpoints = [];
  scores = [];
  tables = λ c. [];
}

abbrev nginx_all : Dict (Dict ℤ)
nginx_all = (port_name, nginx_scores) ∷ []

abbrev log_of : Option Log → Log
log_of none = no_commands
log_of (some log) = log

abbrev first_log : Log
first_log =
    log_of (sync_services ipv4 all_cluster nginx_all false [] changed changed.ports no_commands)

abbrev synced : Proxier Text Endpoints Chains
synced =
    finish ipv4 all_cluster whole cpu_usage_format_raw by_name changed accepted fresh nginx_all
      first_log

sync_run :
    sync_proxy_rules ipv4 all_cluster whole cpu_usage_format_raw by_name balanced changed accepted
      fresh
    ≡ ok synced
unfolding sync_proxy_rules score score_node add64 sync_services sync_service ensure_chains ensure_if
    ensure_endpoints service_rules
sync_run = refl

two_endpoints-IsApart : IsApart nginx_info (all_cluster [] two_endpoints nginx_port nginx_info)
two_endpoints-IsApart = record {
  policies_differ = λ e. ground (arith, e);
  cluster_apart = (λ e. ground (arith, e), (λ e. ground (arith, e), tt));
  local_apart = (λ e. ground (arith, e), (λ e. ground (arith, e), tt));
}

only_nginx : (e : PortEntry) → In e (nginx_port ∷ []) → e ≡ nginx_port
only_nginx e (here q) = q
only_nginx e (there i) = elim i [ ]

its_info : (svc : ServiceInfo) → nginx_port.info ≡ some svc → nginx_info ≡ svc
its_info svc e = cc

update_of-Separate :
    (updated : NamespacedName → Bool) → Separate ipv4 all_cluster [] (update_of updated)
update_of-Separate updated e i svc q =
    let same = only_nginx e i in
    let known = its_info svc (rw same at q) in
    rw same (rw (← known) (two_endpoints-IsApart, λ p. first tt))

uses_cluster :
    is_used nginx_info (all_cluster [] two_endpoints nginx_port nginx_info) cluster_policy ≡ true
unfolding is_used
uses_cluster = refl

two_endpoints-IsBounded : IsBounded (all_cluster [] two_endpoints nginx_port nginx_info)
unfolding endpoints_for
two_endpoints-IsBounded cluster_policy =
    ((λ e. ground (arith, e), (λ e. ground (arith, e), tt)), omega arith)
two_endpoints-IsBounded local_policy = (tt, omega arith)

nginx-IsBounded :
    (e : PortEntry)
    → In e changed.ports
    → (svc : ServiceInfo) → e.info ≡ some svc
    → IsBounded (all_cluster [] two_endpoints e svc)
nginx-IsBounded e i svc q = two_endpoints-IsBounded

sync_proxy_rules-total_example :
    (p' : Proxier Text Endpoints Chains) × (sync_proxy_rules ipv4 all_cluster whole
        cpu_usage_format_raw by_name balanced changed accepted fresh
      ≡ ok p')
sync_proxy_rules-total_example =
    sync_proxy_rules-total ipv4 all_cluster whole cpu_usage_format_raw by_name balanced changed
      accepted fresh nginx_all score_run nginx-IsBounded

found_scores : lookup port_name synced.scores ≡ some nginx_scores
unfolding finish lookup text_eq
found_scores = refl

sum_of_two : 7 < weight_sum nginx_scores two_endpoints
unfolding weight_sum waok8s.LoadBalancer.Rules.Weighted.weight_of text_eq
sum_of_two = omega arith

sync_proxy_rules-traffic_example :
    (front : List ChainRule) × (ws : List Word) × (c : Text) × (synced.tables (lit "service/nginx")
      ≡ front ++ balancing (balance (pos (weight_sum nginx_scores two_endpoints)) ws) ∷ [])
    × (pick ws 7 ≡ some c)
    × (pick_weighted nginx_scores two_endpoints 7 ≡ some c)
unfolding chain_for endpoints_for
sync_proxy_rules-traffic_example =
    sync_proxy_rules-traffic ipv4 all_cluster whole cpu_usage_format_raw by_name balanced changed
      accepted fresh synced nginx_port nginx_info cluster_policy nginx_scores 7 sync_run refl refl
      (update_of-Separate (λ name. true)) (here refl) refl uses_cluster refl found_scores
      (omega arith) sum_of_two

-- The next sync is a partial one.
abbrev second_log : Log
second_log =
    log_of (sync_services ipv4 all_cluster nginx_all true [] unchanged unchanged.ports no_commands)

abbrev again : Proxier Text Endpoints Chains
again =
    finish ipv4 all_cluster whole cpu_usage_format_raw by_name unchanged accepted synced nginx_all
      second_log

again_run :
    sync_proxy_rules ipv4 all_cluster whole cpu_usage_format_raw by_name balanced unchanged accepted
      synced
    ≡ ok again
unfolding sync_proxy_rules score score_node add64 sync_services sync_service ensure_chains ensure_if
    ensure_endpoints service_rules finish
again_run = refl

is_skipped : not synced.need_full_sync && not (unchanged.updated nginx) ≡ true
unfolding finish
is_skipped = refl

is_ready : synced.initialized ≡ true
unfolding finish
is_ready = refl

sync_proxy_rules-keeps_example :
    ((scores : Dict (Dict ℤ)) × (score whole balanced
          (lit "IPv4")
          cpu_usage_format_raw
          (port_name ∷ [])
        ≡ ok scores)
      × (again.scores ≡ scores))
    × (again.tables (lit "service/nginx") ≡ synced.tables (lit "service/nginx"))
unfolding chain_for finish
sync_proxy_rules-keeps_example =
    sync_proxy_rules-keeps ipv4 all_cluster whole cpu_usage_format_raw by_name balanced unchanged
      accepted synced again again_run is_ready nginx_port nginx_info cluster_policy refl
      uses_cluster two_endpoints-IsApart (first tt) refl is_skipped

-- The life of a proxier: the two caches are synced, and a partial sync follows.
abbrev made : Proxier Text Endpoints Chains
made = new_proxier (lit "n1") [] [] (λ c. [])

abbrev early : Proxier Text Endpoints Chains
early = record made { services_synced = true }

abbrev ready : Proxier Text Endpoints Chains
ready =
    finish ipv4 all_cluster whole cpu_usage_format_raw by_name changed accepted
      (record early { endpoint_slices_synced = true; initialized = true }) nginx_all first_log

abbrev later_on : Proxier Text Endpoints Chains
later_on =
    finish ipv4 all_cluster whole cpu_usage_format_raw by_name unchanged accepted ready nginx_all
      second_log

abbrev History : Proxier Text Endpoints Chains → Type 0
History = Reaches ipv4 all_cluster whole cpu_usage_format_raw by_name text_eq [] made

early_run :
    handle ipv4 all_cluster whole cpu_usage_format_raw by_name text_eq []
      (service_synced balanced changed accepted)
      made
    ≡ ok early
unfolding handle new_proxier
early_run = refl

ready_run :
    handle ipv4 all_cluster whole cpu_usage_format_raw by_name text_eq []
      (endpoint_slices_synced balanced changed accepted)
      early
    ≡ ok ready
unfolding handle new_proxier score score_node add64 sync_services sync_service ensure_chains
    ensure_if ensure_endpoints service_rules finish
ready_run = refl

later_run :
    handle ipv4 all_cluster whole cpu_usage_format_raw by_name text_eq []
      (sync balanced unchanged accepted)
      ready
    ≡ ok later_on
unfolding handle new_proxier score score_node add64 sync_services sync_service ensure_chains
    ensure_if ensure_endpoints service_rules finish
later_run = refl

later_on-History : History later_on
unfolding finish new_proxier
later_on-History =
    next (sync balanced unchanged accepted)
      (next (endpoint_slices_synced balanced changed accepted)
        (next (service_synced balanced changed accepted) start
          (update_of-Separate (λ name. true), λ e i svc q u. absurd (ground (arith, u))) early_run)
        (update_of-Separate (λ name. true), λ e i svc q u. absurd (ground (arith, u))) ready_run)
      (update_of-Separate (λ name. false), λ e i svc q u. (i, refl)) later_run

reached-IsCurrent_example : IsCurrent ipv4 all_cluster whole cpu_usage_format_raw by_name later_on
reached-IsCurrent_example =
    reached-IsCurrent ipv4 all_cluster whole cpu_usage_format_raw by_name text_eq [] (lit "n1") []
      [] (λ c. []) later_on later_on-History
