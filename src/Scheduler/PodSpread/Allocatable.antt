-- ===== src/Scheduler/PodSpread/Allocatable.antt =====
-- wao-scheduler/pkg/plugins/podspread/podspread.go: getAllocatableNodes. Its sets of names are
-- lists here, and its result is read as a set.
use waok8s.Prelude.{
  ℕ, ◌+◌, ◌-◌, ◌^◌, Bool, false, ◌||◌, ◌&&◌, not, List, [], ◌∷◌, ◌++◌, map, Text, Dict, lit,
  lookup_or, text_eq, ltb, ◌==◌, if◌then◌else◌,
}
use waok8s.Prelude.Int64.{pos, ltb_ℤ}
use waok8s.Kube.{Node, Pod, Toleration}
use waok8s.Scheduler.PodSpread.{SpreadInfo, SpreadMode, is_cp_node, label_control_plane}
use waok8s.Scheduler.PodSpread.Session.{SchedulingSession}

-- `math.MaxInt`
abbrev pub max_int : ℕ
max_int = 2 ^ 63 - 1

-- A loop `if num < minNum { minNum = num }`.
unfoldable pub min_from : ℕ → List ℕ → ℕ
min_from m [] = m
min_from m (n ∷ ns) = min_from (if ltb n m then n else m) ns

-- `isControlPlaneSchedulable`
unfoldable pub tolerates : List Toleration → Bool
unfolding text_eq
tolerates [] = false
tolerates (t ∷ ts) =
    (text_eq t.key label_control_plane
      && text_eq t.operator (lit "Exists")
      && text_eq t.effect (lit "NoSchedule"))
    || tolerates ts

-- The pods of an area, and whether it has a node that is no control plane node.
unfoldable pub area_count : Dict ℕ → Dict Bool → ℕ
unfolding lookup_or
area_count deployed [] = 0
area_count deployed ((node, cp) ∷ nodes) = lookup_or 0 node deployed + area_count deployed nodes

unfoldable pub has_non_cp : Dict Bool → Bool
has_non_cp [] = false
has_non_cp ((node, cp) ∷ nodes) = not cp || has_non_cp nodes

-- `areaDeployed`, one entry for each area.
unfoldable pub area_deployed : Dict ℕ → SpreadInfo → List ℕ
unfolding area_count
area_deployed deployed [] = []
area_deployed deployed ((area, nodes) ∷ s) = area_count deployed nodes ∷ area_deployed deployed s

-- `allowedNodes` of one area.
unfoldable pub area_nodes : Bool → Dict Bool → List Text
area_nodes schedulable [] = []
area_nodes schedulable ((node, cp) ∷ nodes) =
    if cp && not schedulable
    then area_nodes schedulable nodes
    else node ∷ area_nodes schedulable nodes

-- Whether the loop over `areaDeployed` puts the area among `minAreas`.
unfoldable pub is_min_area : Dict ℕ → Bool → ℕ → Dict Bool → Bool
unfolding area_count has_non_cp
is_min_area deployed schedulable min_num nodes =
    if not schedulable && not (has_non_cp nodes)
    then false
    else area_count deployed nodes == min_num

-- The nodes of `minAreas`.
unfoldable pub nodes_of_min_areas : Dict ℕ → Bool → ℕ → SpreadInfo → List Text
unfolding is_min_area area_nodes
nodes_of_min_areas deployed schedulable min_num [] = []
nodes_of_min_areas deployed schedulable min_num ((area, nodes) ∷ s) =
    (if is_min_area deployed schedulable min_num nodes then area_nodes schedulable nodes else [])
    ++ nodes_of_min_areas deployed schedulable min_num s

-- The case `SpreadModeRegion, SpreadModeZone`.
unfoldable pub allocatable_by_area : Dict ℕ → Bool → SpreadInfo → List Text
unfolding min_from area_deployed nodes_of_min_areas
allocatable_by_area deployed schedulable s =
    nodes_of_min_areas deployed schedulable (min_from max_int (area_deployed deployed s)) s

-- The names of the second loop of the case `SpreadModeNode`, and the counts of its first.
unfoldable pub names_at : ℕ → Dict ℕ → List Text
names_at min_deployed [] = []
names_at min_deployed ((name, deployed) ∷ m) =
    if deployed == min_deployed then name ∷ names_at min_deployed m else names_at min_deployed m

unfoldable pub counts_of : Dict ℕ → List ℕ
counts_of [] = []
counts_of ((name, deployed) ∷ m) = deployed ∷ counts_of m

module _ {F : Type 0} where
  -- `isControlPlane`
  unfoldable pub is_control_plane : List (Node F) → Text → Bool
  unfolding text_eq is_cp_node
  is_control_plane [] name = false
  is_control_plane (n ∷ nodes) name =
      (text_eq n.name name && is_cp_node n) || is_control_plane nodes name

  -- The entries that both loops of the case `SpreadModeNode` do not skip.
  unfoldable pub eligible_counts : List (Node F) → Bool → Dict ℕ → Dict ℕ
  unfolding is_control_plane
  eligible_counts nodes schedulable [] = []
  eligible_counts nodes schedulable ((name, deployed) ∷ m) =
      if is_control_plane nodes name && not schedulable
      then eligible_counts nodes schedulable m
      else (name, deployed) ∷ eligible_counts nodes schedulable m

  -- The case `SpreadModeNode`.
  unfoldable pub allocatable_by_node : List (Node F) → Bool → Dict ℕ → List Text
  unfolding min_from eligible_counts names_at counts_of
  allocatable_by_node nodes schedulable deployed =
      let eligible = eligible_counts nodes schedulable deployed in
      names_at (min_from max_int (counts_of eligible)) eligible

  -- `getAllocatableNodes`
  unfoldable pub get_allocatable_nodes : SchedulingSession → Pod F → List (Node F) → List Text
  unfolding tolerates allocatable_by_area allocatable_by_node
  get_allocatable_nodes ss pod nodes =
      if not (ltb_ℤ (pos ss.total_deployed) ss.redunduncy)
      then map (λ (n : Node F). n.name) nodes
      else elim ss.spread_mode [
        | SpreadMode.region ↦
            allocatable_by_area ss.deployed_nodes (tolerates pod.tolerations) ss.spread_info
        | SpreadMode.zone ↦
            allocatable_by_area ss.deployed_nodes (tolerates pod.tolerations) ss.spread_info
        | SpreadMode.node ↦ allocatable_by_node nodes (tolerates pod.tolerations) ss.deployed_nodes
      ]
