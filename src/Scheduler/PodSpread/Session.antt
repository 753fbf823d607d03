-- ===== src/Scheduler/PodSpread/Session.antt =====
-- wao-scheduler/pkg/plugins/podspread/podspread.go: the annotation, and the scheduling sessions.
-- The mutex makes `updateSchedulingSession` one step of the state.
use waok8s.Prelude.{
  ℕ, ◌+◌, Bool, ◌||◌, ◌&&◌, not, List, [], ◌∷◌, Option, none, some, Text, Dict, lit, lookup, insert,
  lookup_or, has_key, text_eq, if◌then◌else◌, Result, ok, err,
}
use waok8s.Prelude.Int64.{ℤ, pos}
use waok8s.Prelude.Float.{Floats}
use waok8s.Kube.{Node, Pod, PodCondition, ReplicaSet}
use waok8s.Scheduler.PodSpread.{SpreadInfo, SpreadMode, get_spread_mode}

pub record SchedulingSession : Type 0 where
  pub total_replicas : ℤ
  pub redunduncy : ℤ
  pub deployed_nodes : Dict ℕ
  pub total_deployed : ℕ
  pub spread_mode : SpreadMode
  pub spread_info : SpreadInfo

abbrev pub annotation_pod_spread_rate : Text
annotation_pod_spread_rate = lit "waok8s.github.io/podspread-rate"

pub data RateError : Type 0 where
  not_found not_a_float out_of_range : RateError

-- `cond.Type == corev1.PodScheduled && cond.Status == corev1.ConditionTrue`
unfoldable pub is_scheduled : PodCondition → Bool
unfolding text_eq
is_scheduled c = text_eq c.type_ (lit "PodScheduled") && text_eq c.status (lit "True")

-- The inner loop of `setDeployNodes`: the counters of a node and of all nodes.
unfoldable pub count_conditions : Text → List PodCondition → Dict ℕ × ℕ → Dict ℕ × ℕ
unfolding is_scheduled lookup_or insert
count_conditions node [] (deployed, total) = (deployed, total)
count_conditions node (c ∷ cs) (deployed, total) = count_conditions node cs (
    if is_scheduled c
    then (insert node (lookup_or 0 node deployed + 1) deployed, total + 1)
    else (deployed, total))

module _ {F : Type 0} (is_controlled_by : Pod F → ReplicaSet → Bool) where
  -- The outer loop of `setDeployNodes`.
  unfoldable pub count_pods : ReplicaSet → List (Pod F) → Dict ℕ × ℕ → Dict ℕ × ℕ
  unfolding count_conditions
  count_pods rs [] s = s
  count_pods rs (pod ∷ pods) s =
      count_pods rs pods (
        if not (is_controlled_by pod rs)
        then s
        else count_conditions pod.node_name pod.conditions s)

  -- `setDeployNodes`
  unfoldable pub set_deploy_nodes :
      SchedulingSession → ReplicaSet → List (Pod F) → SchedulingSession
  unfolding count_pods
  set_deploy_nodes ss rs pods =
      let counts = count_pods rs pods (ss.deployed_nodes, 0) in
      record ss { deployed_nodes = counts.0; total_deployed = counts.1 }

-- The loop that starts a counter for every node.
unfoldable pub zero_counts : {F : Type 0} → Dict ℕ → List (Node F) → Dict ℕ
unfolding has_key insert
zero_counts m [] = m
zero_counts m (n ∷ nodes) =
    zero_counts (if not (has_key n.name m) then insert n.name 0 m else m) nodes

-- `strconv.ParseFloat` is the language's, and a parameter as the floats are.
module _ (fl : Floats) (parse_float : Text → Option fl.F) where
  open fl use {F}

  -- `parseAnnotationPodSpreadRate`
  unfoldable pub parse_annotation_pod_spread_rate : Dict Text → Result RateError F
  unfolding lookup
  parse_annotation_pod_spread_rate annotations =
      elim (lookup annotation_pod_spread_rate annotations) [
        | none ↦ err not_found
        | some rate ↦ elim (parse_float rate) [
          | none ↦ err not_a_float
          | some v ↦
              if fl.ltf v fl.zero_f || fl.ltf (fl.of_int (pos 1)) v then err out_of_range else ok v
        ]
      ]

  -- The session of a ReplicaSet that has none yet; the mode, unset here, is set before it is read.
  unfoldable pub new_session : ReplicaSet → Result RateError SchedulingSession
  unfolding parse_annotation_pod_spread_rate
  new_session rs = elim (parse_annotation_pod_spread_rate rs.annotations) [
    | err e ↦ err e
    | ok rate ↦
        let total : ℤ = elim rs.replicas [ none ↦ pos 0 | some n ↦ n ] in
        ok (record {
          total_replicas = total;
          redunduncy = fl.to_int (fl.mul (fl.of_int total) rate);
          deployed_nodes = [];
          total_deployed = 0;
          spread_mode = SpreadMode.node;
          spread_info = [];
        })
  ]

  module _ (is_controlled_by : Pod F → ReplicaSet → Bool) where
    -- The part of `updateSchedulingSession` below the look-up of the session.
    unfoldable pub refresh_session :
        SchedulingSession → ReplicaSet → List (Pod F) → List (Node F) → SchedulingSession
    unfolding zero_counts set_deploy_nodes get_spread_mode
    refresh_session ss rs pods nodes =
        let counted =
          set_deploy_nodes is_controlled_by (record ss { deployed_nodes = zero_counts [] nodes }) rs
            pods in
        let (mode, regions, zones) = get_spread_mode nodes in
        record counted {
          spread_mode = mode;
          spread_info = elim mode [
            | SpreadMode.region ↦ regions
            | SpreadMode.zone ↦ zones
            | SpreadMode.node ↦ []
          ];
        }

    -- `updateSchedulingSession`: the sessions by the name of the ReplicaSet.
    unfoldable pub update_scheduling_session :
        Dict SchedulingSession
        → ReplicaSet
        → List (Pod F)
        → List (Node F)
        → Result RateError (Dict SchedulingSession)
    unfolding new_session refresh_session lookup insert
    update_scheduling_session sessions rs pods nodes = elim (lookup rs.name sessions) [
      | some ss ↦ ok (insert rs.name (refresh_session ss rs pods nodes) sessions)
      | none ↦ elim (new_session rs) [
        | err e ↦ err e
        | ok ss ↦ ok (insert rs.name (refresh_session ss rs pods nodes) sessions)
      ]
    ]
