-- ===== src/Scheduler/PodSpread/Counts.antt =====
-- The counters of a session, and what an update leaves alone.
use waok8s.Prelude.{
  ℕ, ◌+◌, ◌≡◌, refl, ◌∙◌, ◌≢◌, inl, inr, Bool, false, List, [], ◌∷◌, Text, Dict, Option, some,
  lookup, lookup_or, insert, has_key, arith, Bool-cases, ok, lookup-insert_self, lookup-insert_ne,
}
use waok8s.Prelude.Float.{Floats}
use waok8s.Kube.{Node, Pod, PodCondition, ReplicaSet}
use waok8s.Scheduler.PodSpread.Session.{
  SchedulingSession, is_scheduled, count_conditions, count_pods, set_deploy_nodes, zero_counts,
  refresh_session, update_scheduling_session,
}

-- The pods that the counters of all nodes add up to.
unfoldable pub sum_counts : Dict ℕ → ℕ
sum_counts [] = 0
sum_counts ((k, n) ∷ m) = n + sum_counts m

sum_counts-bump :
    (k : Text) (m : Dict ℕ) → sum_counts (insert k (lookup_or 0 k m + 1) m) ≡ sum_counts m + 1
unfolding sum_counts insert lookup lookup_or
sum_counts-bump k [] = omega arith
sum_counts-bump k ((j, n) ∷ m) = ground (arith, sum_counts-bump k m)

sum_counts-insert_zero :
    (k : Text) (m : Dict ℕ) → has_key k m ≡ false → sum_counts (insert k 0 m) ≡ sum_counts m
unfolding sum_counts insert has_key
sum_counts-insert_zero k [] h = refl
sum_counts-insert_zero k ((j, n) ∷ m) h = ground (arith, sum_counts-insert_zero k m)

sum_counts-zero_counts :
    {F : Type 0} (m : Dict ℕ) (nodes : List (Node F))
    → sum_counts (zero_counts m nodes) ≡ sum_counts m
unfolding zero_counts
sum_counts-zero_counts m [] = refl
sum_counts-zero_counts m (n ∷ nodes) = elim (Bool-cases (has_key n.name m)) [
  | inl e ↦ rw (e, zero_counts) (sum_counts-zero_counts m nodes)
  | inr e ↦
      rw (e, zero_counts)
        (sum_counts-zero_counts (insert n.name 0 m) nodes ∙ sum_counts-insert_zero n.name m e)
]

-- The two counters move together.
abbrev Even : Dict ℕ × ℕ → Dict ℕ × ℕ → Type 0
Even s t = sum_counts t.0 + s.1 ≡ sum_counts s.0 + t.1

count_conditions-Even :
    (node : Text) (cs : List PodCondition) (s : Dict ℕ × ℕ) → Even s (count_conditions node cs s)
unfolding count_conditions
count_conditions-Even node [] (m, t) = omega arith
count_conditions-Even node (c ∷ cs) (m, t) = elim (Bool-cases (is_scheduled c)) [
  | inl e ↦
      rw (e, count_conditions)
        (omega (
          arith,
          sum_counts-bump node m,
          count_conditions-Even node cs (insert node (lookup_or 0 node m + 1) m, t + 1),
        ))
  | inr e ↦ rw (e, count_conditions) (count_conditions-Even node cs (m, t))
]

module _ {F : Type 0} (owns : Pod F → ReplicaSet → Bool) (rs : ReplicaSet) where
  count_pods-Even : (pods : List (Pod F)) (s : Dict ℕ × ℕ) → Even s (count_pods owns rs pods s)
  unfolding count_pods
  count_pods-Even [] s = omega arith
  count_pods-Even (pod ∷ pods) s = elim (Bool-cases (owns pod rs)) [
    | inl e ↦
        let t = count_conditions pod.node_name pod.conditions s in
        rw (e, count_pods)
          (omega
            (arith, count_pods-Even pods t, count_conditions-Even pod.node_name pod.conditions s))
    | inr e ↦ rw (e, count_pods) (count_pods-Even pods s)
  ]

module _ (fl : Floats) (parse_float : Text → Option fl.F)
    (owns : Pod fl.F → ReplicaSet → Bool) where
  -- After `updateSchedulingSession` refreshed a session, its total is the sum of the counters of the
  -- single nodes.
  pub refresh_session-total :
      (ss : SchedulingSession) (rs : ReplicaSet) (pods : List (Pod fl.F)) (nodes : List (Node fl.F))
      → (refresh_session fl parse_float owns ss rs pods nodes).total_deployed
        ≡ sum_counts (refresh_session fl parse_float owns ss rs pods nodes).deployed_nodes
  unfolding refresh_session set_deploy_nodes sum_counts
  refresh_session-total ss rs pods nodes = omega (
    arith,
    count_pods-Even owns rs pods (zero_counts [] nodes, 0),
    sum_counts-zero_counts [] nodes,
  )

  refresh_session-frozen :
      (ss : SchedulingSession) (rs : ReplicaSet) (pods : List (Pod fl.F)) (nodes : List (Node fl.F))
      → ((refresh_session fl parse_float owns ss rs pods nodes).redunduncy ≡ ss.redunduncy)
        × ((refresh_session fl parse_float owns ss rs pods nodes).total_replicas
            ≡ ss.total_replicas)
  unfolding refresh_session set_deploy_nodes
  refresh_session-frozen ss rs pods nodes = (refl, refl)

  -- An update of the session of a ReplicaSet that has one succeeds, keeps the replicas and the
  -- redundancy that the first update took from it, whatever the ReplicaSet says now, and leaves the
  -- sessions of other names alone.
  pub update_scheduling_session-frozen :
      (sessions : Dict SchedulingSession) (ss : SchedulingSession) (rs : ReplicaSet)
      (pods : List (Pod fl.F)) (nodes : List (Node fl.F))
      → lookup rs.name sessions ≡ some ss
      → (sessions' : Dict SchedulingSession) × (ss' : SchedulingSession)
        × (update_scheduling_session fl parse_float owns sessions rs pods nodes ≡ ok sessions')
        × (lookup rs.name sessions' ≡ some ss')
        × (ss'.redunduncy ≡ ss.redunduncy)
        × (ss'.total_replicas ≡ ss.total_replicas)
        × ((other : Text) → rs.name ≢ other → lookup other sessions' ≡ lookup other sessions)
  unfolding update_scheduling_session
  update_scheduling_session-frozen sessions ss rs pods nodes e =
      let ss' = refresh_session fl parse_float owns ss rs pods nodes in
      let (red, rep) = refresh_session-frozen ss rs pods nodes in
      (
        insert rs.name ss' sessions,
        ss',
        rw (e, update_scheduling_session),
        lookup-insert_self rs.name ss' sessions,
        red,
        rep,
        λ other n. lookup-insert_ne rs.name other ss' sessions n,
      )
