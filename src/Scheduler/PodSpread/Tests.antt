-- ===== src/Scheduler/PodSpread/Tests.antt =====
-- Runs of the plugin on three nodes in three zones, one of them the control plane's.
use waok8s.Prelude.{
  ℕ, ◌≤◌, ◌<◌, ◌≡◌, refl, ap, ◌≢◌, ◌⊎◌, ◌↔◌, inr, Bool, true, false, List, [], ◌∷◌, Option, none,
  some, Text, Dict, lit, lookup, text_eq, In, here, there, arith, ok,
}
use waok8s.Prelude.Int64.{pos}
use waok8s.Kube.{Node, Pod, ReplicaSet}
use waok8s.Samples.{whole, worker, control_plane, pod_on, web}
use waok8s.Scheduler.PodSpread.{SpreadInfo, SpreadMode}
use waok8s.Scheduler.PodSpread.Session.{
  SchedulingSession, refresh_session, update_scheduling_session,
}
use waok8s.Scheduler.PodSpread.Allocatable.{
  get_allocatable_nodes, tolerates, area_count, has_non_cp, max_int,
}
use waok8s.Scheduler.PodSpread.AreaLaws.{
  AreaChoice, SpreadsAreas, get_allocatable_nodes-AreaChoice, get_allocatable_nodes_starved,
}
use waok8s.Scheduler.PodSpread.NodeLaws.{NodeChoice, SpreadsNodes, get_allocatable_nodes-NodeChoice}
use waok8s.Scheduler.PodSpread.Counts.{update_scheduling_session-frozen}
use waok8s.Scheduler.PodSpread.Filter.{Cluster, pre_filter}
use waok8s.Scheduler.PodSpread.Filter.Cases.{Refused, Narrowed, pre_filter-cases}

abbrev a : Text
a = lit "a"

abbrev b : Text
b = lit "b"

abbrev c : Text
c = lit "c"

abbrev nodes : List (Node ℕ)
nodes = control_plane a (lit "z1") ∷ worker b (lit "z2") ∷ worker c (lit "z3") ∷ []

abbrev zones : SpreadInfo
zones = (lit "z1", (a, true) ∷ []) ∷ (lit "z2", (b, false) ∷ []) ∷ (lit "z3", (c, false) ∷ []) ∷ []

-- One pod on `b` and none elsewhere.
abbrev by_zone : SchedulingSession
by_zone = record {
  total_replicas = pos 4;
  redunduncy = pos 4;
  deployed_nodes = (a, 0) ∷ (b, 1) ∷ (c, 0) ∷ [];
  total_deployed = 1;
  spread_mode = SpreadMode.zone;
  spread_info = zones;
}

by_zone-SpreadsAreas : SpreadsAreas by_zone
by_zone-SpreadsAreas = record { short = omega arith; by_area = inr refl }

by_zone_run : get_allocatable_nodes by_zone (pod_on []) nodes ≡ c ∷ []
unfolding get_allocatable_nodes text_eq
by_zone_run = refl

small_counts :
    (z : Text) (other : Dict Bool)
    → In (z, other) zones
    → area_count by_zone.deployed_nodes other ≤ max_int
unfolding area_count lookup text_eq
small_counts z other (here e) = rw (ap (λ (x : Text × Dict Bool). x.1) e) (omega arith)
small_counts z other (there (here e)) = rw (ap (λ (x : Text × Dict Bool). x.1) e) (omega arith)
small_counts z other (there (there (here e))) =
    rw (ap (λ (x : Text × Dict Bool). x.1) e) (omega arith)
small_counts z other (there (there (there i))) = elim i [ ]

get_allocatable_nodes-AreaChoice_example :
    In c (get_allocatable_nodes by_zone (pod_on []) nodes)
    ↔ AreaChoice by_zone.deployed_nodes (tolerates (pod_on []).tolerations) zones c
get_allocatable_nodes-AreaChoice_example =
    get_allocatable_nodes-AreaChoice by_zone (pod_on []) nodes by_zone-SpreadsAreas c small_counts

-- One pod on each worker: the area of the control plane has the least count.
abbrev one_each : SchedulingSession
one_each = record by_zone { deployed_nodes = (a, 0) ∷ (b, 1) ∷ (c, 1) ∷ []; total_deployed = 2 }

one_each-SpreadsAreas : SpreadsAreas one_each
one_each-SpreadsAreas = record { short = omega arith; by_area = inr refl }

undercut :
    (z : Text) (other : Dict Bool)
    → In (z, other) zones
    → has_non_cp other ≡ true
    → area_count one_each.deployed_nodes ((a, true) ∷ []) < area_count one_each.deployed_nodes other
unfolding area_count has_non_cp lookup text_eq
undercut z other (here e) h =
    absurd (ground (arith, ap (λ (x : Text × Dict Bool). has_non_cp x.1) e))
undercut z other (there (here e)) h = rw (ap (λ (x : Text × Dict Bool). x.1) e) (omega arith)
undercut z other (there (there (here e))) h =
    rw (ap (λ (x : Text × Dict Bool). x.1) e) (omega arith)
undercut z other (there (there (there i))) h = elim i [ ]

get_allocatable_nodes_starved_example : get_allocatable_nodes one_each (pod_on []) nodes ≡ []
unfolding tolerates
get_allocatable_nodes_starved_example =
    get_allocatable_nodes_starved one_each (pod_on []) nodes one_each-SpreadsAreas (lit "z1")
      ((a, true) ∷ []) refl (here refl) undercut

abbrev by_node : SchedulingSession
by_node = record by_zone { spread_mode = SpreadMode.node; spread_info = [] }

by_node-SpreadsNodes : SpreadsNodes by_node
by_node-SpreadsNodes = record { short = omega arith; by_node = refl }

by_node_run : get_allocatable_nodes by_node (pod_on []) nodes ≡ c ∷ []
unfolding get_allocatable_nodes text_eq
by_node_run = refl

small_counters : (other : Text) (k : ℕ) → In (other, k) by_node.deployed_nodes → k ≤ max_int
small_counters other k (here e) = rw (ap (λ (x : Text × ℕ). x.1) e) (omega arith)
small_counters other k (there (here e)) = rw (ap (λ (x : Text × ℕ). x.1) e) (omega arith)
small_counters other k (there (there (here e))) = rw (ap (λ (x : Text × ℕ). x.1) e) (omega arith)
small_counters other k (there (there (there i))) = elim i [ ]

get_allocatable_nodes-NodeChoice_example :
    In c (get_allocatable_nodes by_node (pod_on []) nodes)
    ↔ NodeChoice nodes (tolerates (pod_on []).tolerations) by_node.deployed_nodes c
get_allocatable_nodes-NodeChoice_example =
    get_allocatable_nodes-NodeChoice by_node (pod_on []) nodes by_node-SpreadsNodes c small_counters

abbrev parse : Text → Option ℕ
parse t = some 1

abbrev owns : Pod ℕ → ReplicaSet → Bool
owns p rs = true

abbrev pods : List (Pod ℕ)
pods = pod_on b ∷ pod_on c ∷ pod_on b ∷ []

refresh_session_run :
    refresh_session whole parse owns by_zone web pods nodes
    ≡ record by_zone { deployed_nodes = (a, 0) ∷ (b, 2) ∷ (c, 1) ∷ []; total_deployed = 3 }
unfolding refresh_session text_eq
refresh_session_run = refl

abbrev sessions : Dict SchedulingSession
sessions = (lit "web", by_zone) ∷ []

known : lookup (lit "web") sessions ≡ some by_zone
unfolding lookup text_eq
known = refl

update_scheduling_session-frozen_run :
    (sessions' : Dict SchedulingSession) × (ss' : SchedulingSession) × (update_scheduling_session
        whole parse owns sessions web pods nodes
      ≡ ok sessions')
    × (lookup (lit "web") sessions' ≡ some ss')
    × (ss'.redunduncy ≡ by_zone.redunduncy)
    × (ss'.total_replicas ≡ by_zone.total_replicas)
    × ((other : Text) → lit "web" ≢ other → lookup other sessions' ≡ lookup other sessions)
update_scheduling_session-frozen_run =
    update_scheduling_session-frozen whole parse owns sessions by_zone web pods nodes known

abbrev cluster : Cluster ℕ
cluster = record {
  get_replica_set = λ ns name. some web;
  list_pods = λ ns. some pods;
  list_nodes = some nodes;
  is_controlled_by = owns;
}

pre_filter_run : (pre_filter whole parse cluster [] (pod_on [])).0 ≡ some []
unfolding pre_filter text_eq
pre_filter_run = refl

pre_filter-cases_example :
    (Refused whole parse cluster [] (pod_on [])
      × (pre_filter whole parse cluster [] (pod_on []) ≡ (none, [])))
    ⊎ ((names : List Text) × (sessions' : Dict SchedulingSession) × (pre_filter whole parse cluster
            []
            (pod_on [])
          ≡ (some names, sessions'))
        × Narrowed whole parse cluster [] (pod_on []) names sessions')
pre_filter-cases_example = pre_filter-cases whole parse cluster [] (pod_on [])
