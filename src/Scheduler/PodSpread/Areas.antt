-- ===== src/Scheduler/PodSpread/Areas.antt =====
-- Minima, and the nodes that the area mode of getAllocatableNodes collects.
use waok8s.Prelude.{
  ℕ, ◌≤◌, ◌≡◌, refl, ap, ◌⊎◌, ◌↔◌, inl, inr, Bool, true, false, List, [], ◌∷◌, Text, Dict, ltb,
  if◌then◌else◌, In, here, there, In-append_left, In-append_right, In-append_cases, arith,
  Bool-cases,
}
use waok8s.Scheduler.PodSpread.{SpreadInfo}
use waok8s.Scheduler.PodSpread.Allocatable.{
  min_from, area_count, has_non_cp, area_deployed, area_nodes, is_min_area, nodes_of_min_areas,
}

pub min_from-le : (m : ℕ) (ns : List ℕ) → min_from m ns ≤ m
unfolding min_from
min_from-le m [] = omega arith
min_from-le m (n ∷ ns) = ground (arith, min_from-le m ns, min_from-le n ns)

pub In-min_from : (m n : ℕ) (ns : List ℕ) → In n ns → min_from m ns ≤ n
unfolding min_from
In-min_from m n [] i = elim i [ ]
In-min_from m n (k ∷ ns) (here e) = ground (arith, min_from-le m ns, min_from-le k ns)
In-min_from m n (k ∷ ns) (there i) = In-min_from (if ltb k m then k else m) n ns i

pub min_from-cases : (m : ℕ) (ns : List ℕ) → (min_from m ns ≡ m) ⊎ In (min_from m ns) ns
unfolding min_from
min_from-cases m [] = inl refl
min_from-cases m (n ∷ ns) = elim (Bool-cases (ltb n m)) [
  | inl e ↦ elim (min_from-cases n ns) [
    | inl q ↦ inr (here (rw (e, min_from) q))
    | inr i ↦ inr (there (rw (e, min_from) i))
  ]
  | inr e ↦ elim (min_from-cases m ns) [
    | inl q ↦ inl (rw (e, min_from) q)
    | inr i ↦ inr (there (rw (e, min_from) i))
  ]
]

module _ (d : Dict ℕ) where
  pub In-area_deployed :
      (a : Text) (nodes : Dict Bool) (s : SpreadInfo)
      → In (a, nodes) s
      → In (area_count d nodes) (area_deployed d s)
  unfolding area_deployed
  In-area_deployed a nodes [] i = elim i [ ]
  In-area_deployed a nodes ((b, other) ∷ s) (here e) =
      here (ap (λ (x : Text × Dict Bool). area_count d x.1) e)
  In-area_deployed a nodes ((b, other) ∷ s) (there i) = there (In-area_deployed a nodes s i)

  pub In-area_deployed_cases :
      (n : ℕ) (s : SpreadInfo)
      → In n (area_deployed d s)
      → (a : Text) × (nodes : Dict Bool) × In (a, nodes) s × (n ≡ area_count d nodes)
  unfolding area_deployed
  In-area_deployed_cases n [] i = elim i [ ]
  In-area_deployed_cases n ((b, other) ∷ s) (here e) = (b, other, here refl, e)
  In-area_deployed_cases n ((b, other) ∷ s) (there i) =
      let (a, nodes, j, e) = In-area_deployed_cases n s i in (a, nodes, there j, e)

pub In-area_nodes :
    (sch : Bool) (name : Text) (cp : Bool) (nodes : Dict Bool)
    → In (name, cp) nodes
    → (cp ≡ false) ⊎ (sch ≡ true)
    → In name (area_nodes sch nodes)
unfolding area_nodes
In-area_nodes sch name cp [] i h = elim i [ ]
In-area_nodes true name cp ((n, true) ∷ nodes) (here e) h = here (ap (λ (x : Text × Bool). x.0) e)
In-area_nodes false name cp ((n, true) ∷ nodes) (here e) h =
    absurd (ground (arith, ap (λ (x : Text × Bool). x.1) e))
In-area_nodes sch name cp ((n, false) ∷ nodes) (here e) h = here (ap (λ (x : Text × Bool). x.0) e)
In-area_nodes true name cp ((n, true) ∷ nodes) (there i) h =
    there (In-area_nodes true name cp nodes i h)
In-area_nodes false name cp ((n, true) ∷ nodes) (there i) h = In-area_nodes false name cp nodes i h
In-area_nodes sch name cp ((n, false) ∷ nodes) (there i) h =
    there (In-area_nodes sch name cp nodes i h)

pub In-area_nodes_cases :
    (sch : Bool) (name : Text) (nodes : Dict Bool)
    → In name (area_nodes sch nodes)
    → (cp : Bool) × In (name, cp) nodes × ((cp ≡ false) ⊎ (sch ≡ true))
unfolding area_nodes
In-area_nodes_cases sch name [] i = elim i [ ]
In-area_nodes_cases false name ((n, true) ∷ nodes) i =
    let (cp, j, h) = In-area_nodes_cases false name nodes i in (cp, there j, h)
In-area_nodes_cases true name ((n, true) ∷ nodes) (here e) =
    (true, here (ap (λ x. (x, true)) e), inr refl)
In-area_nodes_cases true name ((n, true) ∷ nodes) (there i) =
    let (cp, j, h) = In-area_nodes_cases true name nodes i in (cp, there j, h)
In-area_nodes_cases sch name ((n, false) ∷ nodes) (here e) =
    (false, here (ap (λ x. (x, false)) e), inl refl)
In-area_nodes_cases sch name ((n, false) ∷ nodes) (there i) =
    let (cp, j, h) = In-area_nodes_cases sch name nodes i in (cp, there j, h)

pub has_non_cp_of_In :
    (name : Text) (nodes : Dict Bool) → In (name, false) nodes → has_non_cp nodes ≡ true
unfolding has_non_cp
has_non_cp_of_In name [] i = elim i [ ]
has_non_cp_of_In name ((n, c) ∷ nodes) (here e) = ground (arith, ap (λ (x : Text × Bool). x.1) e)
has_non_cp_of_In name ((n, c) ∷ nodes) (there i) = ground (arith, has_non_cp_of_In name nodes i)

pub is_min_area_iff :
    (d : Dict ℕ) (sch : Bool) (m : ℕ) (nodes : Dict Bool)
    → (is_min_area d sch m nodes ≡ true)
      ↔ (((sch ≡ true) ⊎ (has_non_cp nodes ≡ true)) × (area_count d nodes ≡ m))
unfolding is_min_area
is_min_area_iff d sch m nodes = (λ h. ground arith, λ h. ground arith)

module _ (d : Dict ℕ) (sch : Bool) (m : ℕ) where
  pub In-nodes_of_min_areas :
      (name area : Text) (nodes : Dict Bool) (s : SpreadInfo)
      → In (area, nodes) s
      → is_min_area d sch m nodes ≡ true
      → In name (area_nodes sch nodes)
      → In name (nodes_of_min_areas d sch m s)
  unfolding nodes_of_min_areas
  In-nodes_of_min_areas name area nodes [] i h j = elim i [ ]
  In-nodes_of_min_areas name area nodes ((b, other) ∷ s) (here e) h j =
      let same : nodes ≡ other = ap (λ (x : Text × Dict Bool). x.1) e in
      rw ((rw same at h), nodes_of_min_areas)
        (In-append_left (area_nodes sch other) _ (rw same at j))
  In-nodes_of_min_areas name area nodes ((b, other) ∷ s) (there i) h j =
      In-append_right (if is_min_area d sch m other then area_nodes sch other else []) _
        (In-nodes_of_min_areas name area nodes s i h j)

  pub In-nodes_of_min_areas_cases :
      (name : Text) (s : SpreadInfo)
      → In name (nodes_of_min_areas d sch m s)
      → (area : Text) × (nodes : Dict Bool) × In (area, nodes) s
        × (is_min_area d sch m nodes ≡ true)
        × In name (area_nodes sch nodes)
  unfolding nodes_of_min_areas
  In-nodes_of_min_areas_cases name [] i = elim i [ ]
  In-nodes_of_min_areas_cases name ((b, other) ∷ s) i =
      elim (In-append_cases (if is_min_area d sch m other then area_nodes sch other else []) _ i) [
        | inl j ↦ elim (Bool-cases (is_min_area d sch m other)) [
          | inl e ↦ (b, other, here refl, e, rw e at j)
          | inr e ↦ absurd (elim (rw e at j) [ ])
        ]
        | inr j ↦
            let (area, nodes, k, e, l) = In-nodes_of_min_areas_cases name s j in
            (area, nodes, there k, e, l)
      ]
