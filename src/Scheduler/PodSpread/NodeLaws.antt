-- ===== src/Scheduler/PodSpread/NodeLaws.antt =====
-- getAllocatableNodes in the mode that spreads over nodes.
use mathlib.Core.Path.{ap₂}
use waok8s.Prelude.{
  ℕ, ◌≤◌, ◌≡◌, sym, ap, ◌↔◌, inl, inr, Bool, false, ◌&&◌, not, List, [], ◌∷◌, Text, Dict, In, here,
  there, arith, Bool-cases, ==_iff, ◌==◌,
}
use waok8s.Prelude.Int64.{pos, ◌<ℤ◌}
use waok8s.Kube.{Node, Pod}
use waok8s.Scheduler.PodSpread.{SpreadMode}
use waok8s.Scheduler.PodSpread.Session.{SchedulingSession}
use waok8s.Scheduler.PodSpread.Allocatable.{
  tolerates, min_from, max_int, is_control_plane, eligible_counts, names_at, counts_of,
  allocatable_by_node, get_allocatable_nodes,
}
use waok8s.Scheduler.PodSpread.Areas.{In-min_from, min_from-cases}

-- The pod still needs spreading, over nodes.
pub record SpreadsNodes (ss : SchedulingSession) : Type 0 where
  pub short : pos ss.total_deployed <ℤ ss.redunduncy
  pub by_node : ss.spread_mode ≡ SpreadMode.node

In-counts_of : (name : Text) (n : ℕ) (m : Dict ℕ) → In (name, n) m → In n (counts_of m)
unfolding counts_of
In-counts_of name n [] i = elim i [ ]
In-counts_of name n ((k, c) ∷ m) (here e) = here (ap (λ (x : Text × ℕ). x.1) e)
In-counts_of name n ((k, c) ∷ m) (there i) = there (In-counts_of name n m i)

In-counts_of_cases : (n : ℕ) (m : Dict ℕ) → In n (counts_of m) → (name : Text) × In (name, n) m
unfolding counts_of
In-counts_of_cases n [] i = elim i [ ]
In-counts_of_cases n ((k, c) ∷ m) (here e) = (k, here (ap (λ x. (k, x)) e))
In-counts_of_cases n ((k, c) ∷ m) (there i) =
    let (name, j) = In-counts_of_cases n m i in (name, there j)

In-names_at : (name : Text) (n : ℕ) (m : Dict ℕ) → In (name, n) m → In name (names_at n m)
unfolding names_at
In-names_at name n [] i = elim i [ ]
In-names_at name n ((k, c) ∷ m) (here e) =
    rw ((==_iff c n).1 (sym (ap (λ (x : Text × ℕ). x.1) e)), names_at)
      (here (ap (λ (x : Text × ℕ). x.0) e))
In-names_at name n ((k, c) ∷ m) (there i) = elim (Bool-cases (c == n)) [
  | inl e ↦ rw (e, names_at) (there (In-names_at name n m i))
  | inr e ↦ rw (e, names_at) (In-names_at name n m i)
]

In-names_at_cases : (name : Text) (n : ℕ) (m : Dict ℕ) → In name (names_at n m) → In (name, n) m
unfolding names_at
In-names_at_cases name n [] i = elim i [ ]
In-names_at_cases name n ((k, c) ∷ m) i = elim (Bool-cases (c == n)) [
  | inl e ↦ at_head (In-names_at_cases name n m) ((==_iff c n).0 e) (rw (e, names_at) at i)
  | inr e ↦ there (In-names_at_cases name n m (rw (e, names_at) at i))
]
  where
    at_head :
        (In name (names_at n m) → In (name, n) m)
        → c ≡ n
        → In name (k ∷ names_at n m)
        → In (name, n) ((k, c) ∷ m)
    at_head rec e (here p) = here (ap₂ (λ x y. (x, y)) p (sym e))
    at_head rec e (there j) = there (rec j)

-- The pod may use the node.
abbrev pub MayUse : {F : Type 0} → List (Node F) → Bool → Text → Type 0
MayUse nodes sch name = (is_control_plane nodes name && not sch) ≡ false

module _ {F : Type 0} (nodes : List (Node F)) (sch : Bool) where
  In-eligible_counts :
      (name : Text) (n : ℕ) (m : Dict ℕ)
      → In (name, n) m
      → MayUse nodes sch name
      → In (name, n) (eligible_counts nodes sch m)
  unfolding eligible_counts
  In-eligible_counts name n [] i h = elim i [ ]
  In-eligible_counts name n ((k, c) ∷ m) (here e) h =
      rw (rw (ap (λ (x : Text × ℕ). x.0) e) at h, eligible_counts) (here e)
  In-eligible_counts name n ((k, c) ∷ m) (there i) h =
      elim (Bool-cases (is_control_plane nodes k && not sch)) [
        | inl e ↦ rw (e, eligible_counts) (In-eligible_counts name n m i h)
        | inr e ↦ rw (e, eligible_counts) (there (In-eligible_counts name n m i h))
      ]

  In-eligible_counts_cases :
      (name : Text) (n : ℕ) (m : Dict ℕ)
      → In (name, n) (eligible_counts nodes sch m)
      → In (name, n) m × MayUse nodes sch name
  unfolding eligible_counts
  In-eligible_counts_cases name n [] i = elim i [ ]
  In-eligible_counts_cases name n ((k, c) ∷ m) i =
      elim (Bool-cases (is_control_plane nodes k && not sch)) [
        | inl e ↦
            let (j, h) = In-eligible_counts_cases name n m (rw (e, eligible_counts) at i) in
            (there j, h)
        | inr e ↦ at_head e (rw (e, eligible_counts) at i) (In-eligible_counts_cases name n m)
      ]
    where
      at_head :
          MayUse nodes sch k
          → In (name, n) ((k, c) ∷ eligible_counts nodes sch m)
          → (In (name, n) (eligible_counts nodes sch m) → In (name, n) m × MayUse nodes sch name)
          → In (name, n) ((k, c) ∷ m) × MayUse nodes sch name
      at_head e (here p) rec = (here p, rw (ap (λ (x : Text × ℕ). x.0) p) e)
      at_head e (there j) rec = (there (rec j).0, (rec j).1)

-- A usable node that no usable node undercuts.
abbrev pub NodeChoice : {F : Type 0} → List (Node F) → Bool → Dict ℕ → Text → Type 0
NodeChoice nodes sch deployed name =
    (n : ℕ) × In (name, n) deployed
    × MayUse nodes sch name
    × ((other : Text) (k : ℕ) → In (other, k) deployed → MayUse nodes sch other → n ≤ k)

module _ {F : Type 0} (nodes : List (Node F)) (sch : Bool) (deployed : Dict ℕ) where
  chosen :
      (name : Text)
      → In name (allocatable_by_node nodes sch deployed)
      → NodeChoice nodes sch deployed name
  unfolding allocatable_by_node
  chosen name i =
      let eligible = eligible_counts nodes sch deployed in
      let n = min_from max_int (counts_of eligible) in
      let (j, h) =
        In-eligible_counts_cases nodes sch name n deployed (In-names_at_cases name n eligible i) in
      (
        n,
        j,
        h,
        λ other k o u.
            In-min_from max_int k (counts_of eligible)
              (In-counts_of other k eligible (In-eligible_counts nodes sch other k deployed o u)),
      )

  chosen-allocatable :
      (name : Text)
      → ((other : Text) (k : ℕ) → In (other, k) deployed → k ≤ max_int)
      → NodeChoice nodes sch deployed name
      → In name (allocatable_by_node nodes sch deployed)
  unfolding allocatable_by_node
  chosen-allocatable name small (n, i, h, least) =
      rw (← attained)
        (In-names_at name n eligible (In-eligible_counts nodes sch name n deployed i h))
    where
      eligible : Dict ℕ
      eligible = eligible_counts nodes sch deployed

      above : n ≤ min_from max_int (counts_of (eligible_counts nodes sch deployed))
      above = elim (min_from-cases max_int (counts_of (eligible_counts nodes sch deployed))) [
        | inl e ↦ rw e (small name n i)
        | inr k ↦
            let (other, o) = In-counts_of_cases _ (eligible_counts nodes sch deployed) k in
            let (o', u) = In-eligible_counts_cases nodes sch other _ deployed o in
            least other _ o' u
      ]

      attained : n ≡ min_from max_int (counts_of (eligible_counts nodes sch deployed))
      attained = omega (
        arith,
        above,
        In-min_from max_int n (counts_of (eligible_counts nodes sch deployed))
            (In-counts_of name n _ (In-eligible_counts nodes sch name n deployed i h)),
      )

module _ {F : Type 0} (ss : SchedulingSession) (pod : Pod F) (nodes : List (Node F))
    (h : SpreadsNodes ss) where
  get_allocatable_nodes-node :
      get_allocatable_nodes ss pod nodes
      ≡ allocatable_by_node nodes (tolerates pod.tolerations) ss.deployed_nodes
  unfolding get_allocatable_nodes
  get_allocatable_nodes-node = ground arith

  -- While a ReplicaSet with few scheduled pods is spread over nodes whose counts fit an int, a node is
  -- allocatable exactly if it has a counter, the pod may use it (it is no control plane node, or the
  -- pod tolerates the control plane), and no node that the pod may use has fewer pods.
  pub get_allocatable_nodes-NodeChoice :
      (name : Text)
      → ((other : Text) (k : ℕ) → In (other, k) ss.deployed_nodes → k ≤ max_int)
      → In name (get_allocatable_nodes ss pod nodes)
        ↔ NodeChoice nodes (tolerates pod.tolerations) ss.deployed_nodes name
  get_allocatable_nodes-NodeChoice name small = rw get_allocatable_nodes-node (
    chosen nodes (tolerates pod.tolerations) ss.deployed_nodes name,
    chosen-allocatable nodes (tolerates pod.tolerations) ss.deployed_nodes name small,
  )
