-- ===== src/Scheduler/PodSpread/AreaLaws.antt =====
-- getAllocatableNodes in the modes that spread over regions or zones.
use waok8s.Prelude.{
  ℕ, ◌≤◌, ◌<◌, ◌≡◌, refl, ◌∙◌, ◌⊎◌, ◌↔◌, inl, inr, Bool, true, false, List, [], ◌∷◌, Text, Dict, In,
  here, arith,
}
use waok8s.Prelude.Int64.{pos, ◌<ℤ◌}
use waok8s.Kube.{Node, Pod}
use waok8s.Scheduler.PodSpread.{SpreadInfo, SpreadMode}
use waok8s.Scheduler.PodSpread.Session.{SchedulingSession}
use waok8s.Scheduler.PodSpread.Allocatable.{
  tolerates, min_from, area_count, has_non_cp, area_deployed, max_int, allocatable_by_area,
  get_allocatable_nodes,
}
use waok8s.Scheduler.PodSpread.Areas.{
  In-min_from, min_from-cases, In-area_deployed, In-area_deployed_cases, In-area_nodes,
  In-area_nodes_cases, has_non_cp_of_In, is_min_area_iff, In-nodes_of_min_areas,
  In-nodes_of_min_areas_cases,
}

-- A node that the pod may use, in an area that no area undercuts.
abbrev pub AreaChoice : Dict ℕ → Bool → SpreadInfo → Text → Type 0
AreaChoice d sch s name =
    (area : Text) × (nodes : Dict Bool) × (cp : Bool) × In (area, nodes) s
    × In (name, cp) nodes
    × ((cp ≡ false) ⊎ (sch ≡ true))
    × ((b : Text) (other : Dict Bool) → In (b, other) s → area_count d nodes ≤ area_count d other)

-- The pod still needs spreading, over regions or zones.
pub record SpreadsAreas (ss : SchedulingSession) : Type 0 where
  pub short : pos ss.total_deployed <ℤ ss.redunduncy
  pub by_area : (ss.spread_mode ≡ SpreadMode.region) ⊎ (ss.spread_mode ≡ SpreadMode.zone)

module _ {F : Type 0} where
  get_allocatable_nodes-area :
      (ss : SchedulingSession) (pod : Pod F) (nodes : List (Node F))
      → SpreadsAreas ss
      → get_allocatable_nodes ss pod nodes
        ≡ allocatable_by_area ss.deployed_nodes (tolerates pod.tolerations) ss.spread_info
  unfolding get_allocatable_nodes
  get_allocatable_nodes-area ss pod nodes h = ground arith

module _ (d : Dict ℕ) (sch : Bool) (s : SpreadInfo) where
  chosen : (name : Text) → In name (allocatable_by_area d sch s) → AreaChoice d sch s name
  unfolding allocatable_by_area
  chosen name i =
      let (area, nodes, j, e, k) =
        In-nodes_of_min_areas_cases d sch (min_from max_int (area_deployed d s)) name s i in
      let (cp, l, h) = In-area_nodes_cases sch name nodes k in
      let least = ((is_min_area_iff d sch _ nodes).0 e).1 in
      (
        area,
        nodes,
        cp,
        j,
        l,
        h,
        λ b other o. rw least (
            In-min_from max_int (area_count d other) (area_deployed d s)
              (In-area_deployed d b other s o)),
      )

  chosen-allocatable :
      (name : Text)
      → ((b : Text) (other : Dict Bool) → In (b, other) s → area_count d other ≤ max_int)
      → AreaChoice d sch s name
      → In name (allocatable_by_area d sch s)
  unfolding allocatable_by_area
  chosen-allocatable name small (area, nodes, cp, i, j, h, least) =
      In-nodes_of_min_areas d sch _ name area nodes s i
        ((is_min_area_iff d sch _ nodes).1 (usable, attained)) (In-area_nodes sch name cp nodes j h)
    where
      usable : (sch ≡ true) ⊎ (has_non_cp nodes ≡ true)
      usable = elim h [ inl e ↦ inr (has_non_cp_of_In name nodes (rw e at j)) | inr e ↦ inl e ]

      above : area_count d nodes ≤ min_from max_int (area_deployed d s)
      above = elim (min_from-cases max_int (area_deployed d s)) [
        | inl e ↦ rw e (small area nodes i)
        | inr k ↦ let (b, other, o, e) = In-area_deployed_cases d _ s k in rw e (least b other o)
      ]

      attained : area_count d nodes ≡ min_from max_int (area_deployed d s)
      attained = omega (
        arith,
        above,
        In-min_from max_int (area_count d nodes) (area_deployed d s)
            (In-area_deployed d area nodes s i),
      )

  -- If a control plane area has fewer pods than every area with workers, no area is left.
  starved :
      (a : Text) (nodes : Dict Bool)
      → sch ≡ false
      → In (a, nodes) s
      → ((b : Text) (other : Dict Bool)
          → In (b, other) s
          → has_non_cp other ≡ true
          → area_count d nodes < area_count d other)
      → allocatable_by_area d sch s ≡ []
  starved a nodes no_tol i worse = nothing (allocatable_by_area d sch s) none_in
    where
      none_in : (name : Text) → In name (allocatable_by_area d sch s) → ⊥
      none_in name j =
          let (area, ns, cp, k, l, h, least) = chosen name j in
          elim h [
            | inl e ↦
                let x = worse area ns k (has_non_cp_of_In name ns (rw e at l)) in
                let y = least a nodes i in omega (arith, x, y)
            | inr e ↦ cc
          ]

      nothing : (l : List Text) → ((name : Text) → In name l → ⊥) → l ≡ []
      nothing [] f = refl
      nothing (x ∷ l) f = absurd (f x (here refl))

module _ {F : Type 0} (ss : SchedulingSession) (pod : Pod F) (nodes : List (Node F))
    (h : SpreadsAreas ss) where
  -- While a ReplicaSet with few scheduled pods is spread over areas whose counts fit an int, a node
  -- is allocatable exactly if some area with the least count of all areas holds it, and it is no
  -- control plane node or the pod tolerates the control plane.
  pub get_allocatable_nodes-AreaChoice :
      (name : Text)
      → ((b : Text) (other : Dict Bool)
          → In (b, other) ss.spread_info
          → area_count ss.deployed_nodes other ≤ max_int)
      → In name (get_allocatable_nodes ss pod nodes)
        ↔ AreaChoice ss.deployed_nodes (tolerates pod.tolerations) ss.spread_info name
  get_allocatable_nodes-AreaChoice name small = rw (get_allocatable_nodes-area ss pod nodes h) (
    chosen ss.deployed_nodes (tolerates pod.tolerations) ss.spread_info name,
    chosen-allocatable ss.deployed_nodes (tolerates pod.tolerations) ss.spread_info name small,
  )

  -- While a ReplicaSet with few scheduled pods is spread over areas and the pod does not tolerate the
  -- control plane, an area without workers that has fewer pods than every area with workers leaves
  -- no allocatable node at all.
  pub get_allocatable_nodes_starved :
      (a : Text) (area : Dict Bool)
      → tolerates pod.tolerations ≡ false
      → In (a, area) ss.spread_info
      → ((b : Text) (other : Dict Bool)
          → In (b, other) ss.spread_info
          → has_non_cp other ≡ true
          → area_count ss.deployed_nodes area < area_count ss.deployed_nodes other)
      → get_allocatable_nodes ss pod nodes ≡ []
  get_allocatable_nodes_starved a area no_tol i worse =
      get_allocatable_nodes-area ss pod nodes h
      ∙ starved ss.deployed_nodes (tolerates pod.tolerations) ss.spread_info a area no_tol i worse
