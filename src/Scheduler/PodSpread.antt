-- ===== src/Scheduler/PodSpread.antt =====
-- wao-scheduler/pkg/plugins/podspread/podspread.go: the areas of a cluster, and the mode in which
-- pods are spread over them.
pub mod Session
pub mod Allocatable
mod Areas
mod AreaLaws
mod NodeLaws
mod Counts
mod Filter
mod Tests
use waok8s.Prelude.{
  ℕ, ◌+◌, ◌≤◌, ◌≡◌, Bool, true, false, ◌||◌, ◌&&◌, not, List, [], ◌∷◌, ◌++◌, Option, none, some,
  Text, Dict, lit, lookup, insert, lookup_or, has_key, text_eq, length, leb, if◌then◌else◌,
}
use waok8s.Kube.{Node}

-- `SpreadInfo`: area, then node, then whether it is a control plane node.
abbrev pub SpreadInfo : Type 0
SpreadInfo = Dict (Dict Bool)

-- `GetNodeArea`
unfoldable pub get_node_area : SpreadInfo → Text → Text × Bool
unfolding has_key
get_node_area [] node = ([], false)
get_node_area ((area, nodes) ∷ s) node =
    if has_key node nodes then (area, true) else get_node_area s node

-- The inner loop of `GetAreasOnlyControlPlane`.
unfoldable pub only_cp : Dict Bool → Bool
only_cp [] = true
only_cp ((node, is_cp) ∷ nodes) = if not is_cp then false else only_cp nodes

unfoldable pub get_areas_only_control_plane : SpreadInfo → List Text
unfolding only_cp
get_areas_only_control_plane [] = []
get_areas_only_control_plane ((area, nodes) ∷ s) =
    if only_cp nodes then area ∷ get_areas_only_control_plane s else get_areas_only_control_plane s

pub data SpreadMode : Type 0 where
  region zone node : SpreadMode

abbrev pub label_zone : Text
label_zone = lit "topology.kubernetes.io/zone"

abbrev pub label_region : Text
label_region = lit "topology.kubernetes.io/region"

abbrev pub label_control_plane : Text
label_control_plane = lit "node-role.kubernetes.io/control-plane"

module _ {F : Type 0} where
  -- `_, isCP := n.Labels[labelControlPlane]`
  unfoldable pub is_cp_node : Node F → Bool
  unfolding has_key
  is_cp_node n = has_key label_control_plane n.labels

  -- One round of a loop of `getSpreadMode`, for the areas that a label names.
  unfoldable pub add_node : Text → SpreadInfo → Node F → SpreadInfo
  unfolding lookup insert lookup_or is_cp_node
  add_node label areas n = elim (lookup label n.labels) [
    | none ↦ areas
    | some area ↦ insert area (insert n.name (is_cp_node n) (lookup_or [] area areas)) areas
  ]

  unfoldable pub areas_from : Text → SpreadInfo → List (Node F) → SpreadInfo
  unfolding add_node
  areas_from label areas [] = areas
  areas_from label areas (n ∷ nodes) = areas_from label (add_node label areas n) nodes

  -- `getSpreadMode`: the mode, the regions and the zones.
  unfoldable pub get_spread_mode : List (Node F) → SpreadMode × SpreadInfo × SpreadInfo
  unfolding areas_from
  get_spread_mode nodes =
      let zones = areas_from label_zone [] nodes in
      let regions = areas_from label_region [] nodes in
      (
        if leb 2 (length regions)
            then SpreadMode.region
            else if leb 2 (length zones)
            then SpreadMode.zone
            else SpreadMode.node,
        regions,
        zones,
      )
