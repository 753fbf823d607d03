-- ===== src/Scheduler/PodSpread/Filter/Cases.antt =====
-- What PreFilter of PodSpread does, and when.
use waok8s.Prelude.{
  ◌≡◌, ◌≢◌, text_eq_iff, ◌∙◌, refl, ◌⊎◌, inl, inr, List, [], Text, Dict, Option, none, some, lookup,
  insert, text_eq, arith, Bool-cases, ok, err, Result-cases, lookup-insert_self, Option-cases,
}
use waok8s.Prelude.Float.{Floats}
use waok8s.Kube.{Node, Pod, ReplicaSet}
use waok8s.Scheduler.PodSpread.Session.{
  SchedulingSession, RateError, parse_annotation_pod_spread_rate, update_scheduling_session,
  new_session, refresh_session,
}
use waok8s.Scheduler.PodSpread.Allocatable.{get_allocatable_nodes}
use waok8s.Scheduler.PodSpread.Counts.{sum_counts, refresh_session-total}
use waok8s.Scheduler.PodSpread.Filter.{Cluster, controller_name, filter_with, pre_filter}

module _ (fl : Floats) (parse_float : Text → Option fl.F) (cl : Cluster fl.F) where
  open cl use {get_replica_set, list_pods, list_nodes, is_controlled_by}

  -- Why `PreFilter` leaves all nodes to the pod: there is no valid rate in the annotation, no ReplicaSet
  -- that controls the pod, a call fails, or there is no session and the ReplicaSet has no valid rate.
  abbrev pub Refused : Dict SchedulingSession → Pod fl.F → Type 0
  Refused sessions pod =
      ((x : RateError) × (parse_annotation_pod_spread_rate fl parse_float pod.annotations ≡ err x))
      ⊎ (controller_name [] pod.owner_references ≡ [])
      ⊎ (get_replica_set pod.namespace (controller_name [] pod.owner_references) ≡ none)
      ⊎ (list_nodes ≡ none)
      ⊎ ((rs : ReplicaSet) × (get_replica_set pod.namespace
              (controller_name [] pod.owner_references)
            ≡ some rs)
          × ((list_pods rs.namespace ≡ none)
              ⊎ ((lookup rs.name sessions ≡ none)
                  × (x : RateError) × (new_session fl parse_float rs ≡ err x))))

  -- How `PreFilter` narrows the nodes: it stores a session of the ReplicaSet, the old one or a new one
  -- with the pods of the ReplicaSet counted again, and keeps the other sessions.
  abbrev pub Narrowed :
      Dict SchedulingSession → Pod fl.F → List Text → Dict SchedulingSession → Type 0
  Narrowed sessions pod names sessions' =
      (rate : fl.F) × (rs : ReplicaSet) × (pods : List (Pod fl.F)) × (nodes : List (Node fl.F))
      × (ss : SchedulingSession) × (parse_annotation_pod_spread_rate fl parse_float pod.annotations
          ≡ ok rate)
      × (controller_name [] pod.owner_references ≢ [])
      × (get_replica_set pod.namespace (controller_name [] pod.owner_references) ≡ some rs)
      × (list_pods rs.namespace ≡ some pods)
      × (list_nodes ≡ some nodes)
      × ((lookup rs.name sessions ≡ some ss)
          ⊎ ((lookup rs.name sessions ≡ none) × (new_session fl parse_float rs ≡ ok ss)))
      × (let counted = refresh_session fl parse_float is_controlled_by ss rs pods nodes in
          (sessions' ≡ insert rs.name counted sessions)
          × (counted.total_deployed ≡ sum_counts counted.deployed_nodes)
          × (names ≡ get_allocatable_nodes counted pod nodes))

  -- How `updateSchedulingSession` ends.
  updated :
      (sessions : Dict SchedulingSession) (rs : ReplicaSet) (pods : List (Pod fl.F))
      (nodes : List (Node fl.F))
      → ((lookup rs.name sessions ≡ none)
          × (x : RateError) × (new_session fl parse_float rs ≡ err x)
          × (update_scheduling_session fl parse_float is_controlled_by sessions rs pods nodes
              ≡ err x))
        ⊎ ((ss : SchedulingSession) × ((lookup rs.name sessions ≡ some ss)
              ⊎ ((lookup rs.name sessions ≡ none) × (new_session fl parse_float rs ≡ ok ss)))
            × (update_scheduling_session fl parse_float is_controlled_by sessions rs pods nodes
                ≡ ok (
                    insert rs.name
                      (refresh_session fl parse_float is_controlled_by ss rs pods nodes)
                      sessions)))
  unfolding update_scheduling_session
  updated sessions rs pods nodes = elim (Option-cases (lookup rs.name sessions)) [
    | inr (ss, old) ↦ inr (ss, inl old, rw (old, update_scheduling_session))
    | inl new ↦ elim (Result-cases (new_session fl parse_float rs)) [
      | inl (ss, made) ↦ inr (
        ss,
        inr (new, made),
        rw (new, update_scheduling_session) (rw (made, update_scheduling_session)),
      )
      | inr (x, failed) ↦ inl (
        new,
        x,
        failed,
        rw (new, update_scheduling_session) (rw (failed, update_scheduling_session)),
      )
    ]
  ]

  filter_with-failed :
      (sessions : Dict SchedulingSession) (pod : Pod fl.F) (rs : ReplicaSet)
      (pods : List (Pod fl.F)) (nodes : List (Node fl.F)) {x : RateError}
      → update_scheduling_session fl parse_float is_controlled_by sessions rs pods nodes ≡ err x
      → filter_with fl parse_float cl sessions pod rs pods nodes ≡ (none, sessions)
  unfolding filter_with
  filter_with-failed sessions pod rs pods nodes failed = rw (failed, filter_with)

  filter_with-stored :
      (sessions : Dict SchedulingSession) (pod : Pod fl.F) (rs : ReplicaSet)
      (pods : List (Pod fl.F)) (nodes : List (Node fl.F)) (ss : SchedulingSession)
      → update_scheduling_session fl parse_float is_controlled_by sessions rs pods nodes
        ≡ ok (insert rs.name ss sessions)
      → filter_with fl parse_float cl sessions pod rs pods nodes
        ≡ (some (get_allocatable_nodes ss pod nodes), insert rs.name ss sessions)
  unfolding filter_with
  filter_with-stored sessions pod rs pods nodes ss done =
      rw (done, filter_with) (rw (lookup-insert_self rs.name ss sessions, filter_with))

  -- What `PreFilter` has read when it comes to the session.
  abbrev Read : Pod fl.F → fl.F → ReplicaSet → List (Pod fl.F) → List (Node fl.F) → Type 0
  Read pod rate rs pods nodes =
      (parse_annotation_pod_spread_rate fl parse_float pod.annotations ≡ ok rate)
      × (controller_name [] pod.owner_references ≢ [])
      × (get_replica_set pod.namespace (controller_name [] pod.owner_references) ≡ some rs)
      × (list_pods rs.namespace ≡ some pods)
      × (list_nodes ≡ some nodes)

  pre_filter-reads :
      (sessions : Dict SchedulingSession) (pod : Pod fl.F)
      → (Refused sessions pod × (pre_filter fl parse_float cl sessions pod ≡ (none, sessions)))
        ⊎ ((rate : fl.F) × (rs : ReplicaSet) × (pods : List (Pod fl.F)) × (nodes : List (Node fl.F))
            × Read pod rate rs pods nodes
            × (pre_filter fl parse_float cl sessions pod
                ≡ filter_with fl parse_float cl sessions pod rs pods nodes))
  unfolding pre_filter
  pre_filter-reads sessions pod =
      let name = controller_name [] pod.owner_references in
      elim (Result-cases (parse_annotation_pod_spread_rate fl parse_float pod.annotations)) [
        | inr (x, bad) ↦ inl (inl (x, bad), rw (bad, pre_filter))
        | inl (rate, fine) ↦ elim (Bool-cases (text_eq name [])) [
          | inl e ↦
              inl (inr (inl ((text_eq_iff _ _).0 e)), rw (fine, pre_filter) (rw (e, pre_filter)))
          | inr e ↦ elim (Option-cases (get_replica_set pod.namespace name)) [
            | inl n ↦ inl (inr (inr (inl n)), ground arith)
            | inr (rs, r) ↦ elim (Option-cases (list_pods rs.namespace)) [
              | inl n ↦ inl (inr (inr (inr (inr (rs, r, inl n)))), ground arith)
              | inr (pods, p) ↦ elim (Option-cases list_nodes) [
                | inl n ↦ inl (inr (inr (inr (inl n))), ground arith)
                | inr (nodes, q) ↦ inr (
                  rate,
                  rs,
                  pods,
                  nodes,
                  (fine, (λ z. absurd (ground (arith, e, (text_eq_iff name []).1 z))), r, p, q),
                  ground arith,
                )
              ]
            ]
          ]
        ]
      ]

  -- `PreFilter` leaves all nodes to the pod and every session as it was where the annotation of the pod
  -- holds no valid rate, no ReplicaSet controls the pod, a call of the API server fails, or a new session
  -- cannot be made for want of a valid rate on the ReplicaSet. Anywhere else it stores the session of the
  -- ReplicaSet, the old one or a new one, with its pods counted again so that the total is the sum of the
  -- counters, keeps the other sessions, and narrows the nodes to the allocatable nodes of this session.
  pub pre_filter-cases :
      (sessions : Dict SchedulingSession) (pod : Pod fl.F)
      → (Refused sessions pod × (pre_filter fl parse_float cl sessions pod ≡ (none, sessions)))
        ⊎ ((names : List Text) × (sessions' : Dict SchedulingSession) × (pre_filter fl parse_float
                cl sessions pod
              ≡ (some names, sessions'))
            × Narrowed sessions pod names sessions')
  pre_filter-cases sessions pod = elim (pre_filter-reads sessions pod) [
    | inl refused ↦ inl refused
    | inr (rate, rs, pods, nodes, (fine, named, r, p, q), reached) ↦
        elim (updated sessions rs pods nodes) [
          | inl (new, x, failed, u) ↦ inl (
            inr (inr (inr (inr (rs, r, inr (new, x, failed))))),
            reached ∙ filter_with-failed sessions pod rs pods nodes u,
          )
          | inr (ss, origin, u) ↦
              let counted = refresh_session fl parse_float is_controlled_by ss rs pods nodes in
              let total = refresh_session-total fl parse_float is_controlled_by ss rs pods nodes in
              inr (
                get_allocatable_nodes counted pod nodes,
                insert rs.name counted sessions,
                reached ∙ filter_with-stored sessions pod rs pods nodes counted u,
                (rate, rs, pods, nodes, ss, fine, named, r, p, q, origin, (refl, total, refl)),
              )
        ]
  ]
