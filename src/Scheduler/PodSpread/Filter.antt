-- ===== src/Scheduler/PodSpread/Filter.antt =====
-- wao-scheduler/pkg/plugins/podspread/podspread.go: PreFilter, and two functions on areas.
-- The API server is a parameter; a failed call is `none`.
pub mod Cases
use waok8s.Prelude.{
  ◌≡◌, ◌≢◌, text_eq_iff, ◌∙◌, refl, ap, ◌⊎◌, inl, inr, Bool, true, false, ◌&&◌, List, [], ◌∷◌, Text,
  Dict, Option, none, some, lit, lookup, insert, has_key, text_eq, arith, Bool-cases, if◌then◌else◌,
  ok, err, In, here, there, Result-cases, lookup-insert_self, Option-cases,
}
use waok8s.Prelude.Float.{Floats}
use waok8s.Kube.{Node, Pod, ReplicaSet, OwnerReference}
use waok8s.Scheduler.PodSpread.{SpreadInfo, get_node_area}
use waok8s.Scheduler.PodSpread.Session.{
  SchedulingSession, RateError, parse_annotation_pod_spread_rate, update_scheduling_session,
  new_session, refresh_session,
}
use waok8s.Scheduler.PodSpread.Allocatable.{get_allocatable_nodes}
use waok8s.Scheduler.PodSpread.Counts.{sum_counts, refresh_session-total}

-- The calls of `clientset`.
pub record Cluster (F : Type 0) : Type 0 where
  pub get_replica_set : Text → Text → Option ReplicaSet
  pub list_pods : Text → Option (List (Pod F))
  pub list_nodes : Option (List (Node F))
  -- `metav1.IsControlledBy`
  pub is_controlled_by : Pod F → ReplicaSet → Bool

-- The loop that looks for the controlling ReplicaSet: the last one counts.
unfoldable pub controller_name : Text → List OwnerReference → Text
unfolding text_eq
controller_name found [] = found
controller_name found (ref ∷ refs) =
    controller_name
      (if elim ref.controller [ none ↦ false | some b ↦ b ] && text_eq ref.kind (lit "ReplicaSet")
        then ref.name
        else found)
      refs

-- What PreFilter hands to the scheduler: `none` for a nil set, which means all nodes.
abbrev pub NodeNames : Type 0
NodeNames = Option (List Text)

module _ (fl : Floats) (parse_float : Text → Option fl.F) (cl : Cluster fl.F) where
  open cl use {get_replica_set, list_pods, list_nodes, is_controlled_by}

  -- The last steps of `PreFilter`, with the ReplicaSet and the two lists at hand.
  unfoldable pub filter_with :
      Dict SchedulingSession
      → Pod fl.F
      → ReplicaSet
      → List (Pod fl.F)
      → List (Node fl.F)
      → NodeNames × Dict SchedulingSession
  unfolding update_scheduling_session get_allocatable_nodes
  filter_with sessions pod rs pods nodes =
      elim (update_scheduling_session fl parse_float is_controlled_by sessions rs pods nodes) [
        | err e ↦ (none, sessions)
        | ok sessions' ↦ elim (lookup rs.name sessions') [
          | none ↦ (none, sessions')
          | some ss ↦ (some (get_allocatable_nodes ss pod nodes), sessions')
        ]
      ]

  -- `PreFilter`: the node names, and the sessions after it. Its status is nil on every path.
  unfoldable pub pre_filter : Dict SchedulingSession → Pod fl.F → NodeNames × Dict SchedulingSession
  unfolding parse_annotation_pod_spread_rate controller_name filter_with
  pre_filter sessions pod = elim (parse_annotation_pod_spread_rate fl parse_float pod.annotations) [
    | err e ↦ (none, sessions)
    | ok rate ↦
        let name = controller_name [] pod.owner_references in
        if text_eq name [] then (none, sessions) else elim (get_replica_set pod.namespace name) [
          | none ↦ (none, sessions)
          | some rs ↦ elim (list_pods rs.namespace) [
            | none ↦ (none, sessions)
            | some pods ↦ elim list_nodes [
              | none ↦ (none, sessions)
              | some nodes ↦ filter_with sessions pod rs pods nodes
            ]
          ]
        ]
  ]

-- `GetNodeArea` calls every node that some area marks as a worker a control plane node.
get_node_area_worker :
    (s : SpreadInfo) (area node : Text) (nodes : Dict Bool)
    → In (area, nodes) s
    → lookup node nodes ≡ some false
    → (get_node_area s node).1 ≡ true
unfolding get_node_area has_key
get_node_area_worker [] area node nodes i e = elim i [ ]
get_node_area_worker ((b, other) ∷ s) area node nodes (here p) e =
    let same : nodes ≡ other = ap (λ (x : Text × Dict Bool). x.1) p in
    rw (rw same at e, get_node_area, has_key)
get_node_area_worker ((b, other) ∷ s) area node nodes (there i) e =
    elim (Bool-cases (has_key node other)) [
      | inl h ↦ rw (h, get_node_area)
      | inr h ↦ rw (h, get_node_area) (get_node_area_worker s area node nodes i e)
    ]
