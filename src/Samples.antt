-- ===== src/Samples.antt =====
-- Data for the tests: whole numbers in the place of float64, and small objects of a cluster.
use waok8s.Prelude.{ℕ, ◌+◌, ◌-◌, ◌*◌, ◌/◌, true, [], ◌∷◌, none, some, Text, lit, ltb, ◌==◌}
use waok8s.Prelude.Int64.{pos, pos_part}
use waok8s.Prelude.Float.{Floats}
use waok8s.Kube.{Node, Pod, PodPhase, PodCondition, ReplicaSet}
use waok8s.NodeApi.{NodeConfig, EndpointTerm, type_fake}

abbrev pub whole : Floats
whole = record {
  F = ℕ;
  zero_f = 0;
  add = λ a b. a + b;
  sub = λ a b. a - b;
  mul = λ a b. a * b;
  div = λ a b. a / b;
  eqb = λ a b. a == b;
  ltf = λ a b. ltb a b;
  of_int = pos_part;
  to_int = pos;
  round = λ a. a;
}

abbrev pub label_zone : Text
label_zone = lit "topology.kubernetes.io/zone"

abbrev pub label_control_plane : Text
label_control_plane = lit "node-role.kubernetes.io/control-plane"

abbrev pub worker : Text → Text → Node ℕ
worker name zone = record {
  name = name;
  labels = (label_zone, zone) ∷ [];
  addresses = [];
  capacity_cpu = 8;
}

abbrev pub control_plane : Text → Text → Node ℕ
control_plane name zone = record {
  name = name;
  labels = (label_zone, zone) ∷ (label_control_plane, []) ∷ [];
  addresses = [];
  capacity_cpu = 8;
}

abbrev pub scheduled : PodCondition
scheduled = record { type_ = lit "PodScheduled"; status = lit "True" }

-- A pod of the ReplicaSet `web` that asks for one CPU, on a node.
abbrev pub pod_on : Text → Pod ℕ
pod_on node = record {
  namespace = lit "default";
  name = lit "web-1";
  uid = lit "p1";
  annotations = (lit "waok8s.github.io/podspread-rate", lit "1") ∷ [];
  owner_references =
      record { kind = lit "ReplicaSet"; name = lit "web"; controller = some true } ∷ [];
  node_name = node;
  tolerations = [];
  containers = record { requests_cpu = 1; limits_cpu = 2 } ∷ [];
  phase = PodPhase.pending;
  conditions = scheduled ∷ [];
}

abbrev pub web : ReplicaSet
web = record {
  namespace = lit "default";
  name = lit "web";
  uid = lit "r1";
  annotations = (lit "waok8s.github.io/podspread-rate", lit "1") ∷ [];
  replicas = some (pos 4);
}

abbrev pub fake_term : EndpointTerm
fake_term = record {
  type_ = type_fake;
  endpoint = [];
  basic_auth_secret = none;
  fetch_interval = none;
}

abbrev pub config_for : Text → NodeConfig
config_for name = record {
  namespace = lit "wao-system";
  name = name;
  spec = record {
    node_name = name;
    metrics_collector = record { inlet_temp = fake_term; delta_p = fake_term };
    predictor = record {
      power_consumption = some fake_term;
      power_consumption_endpoint_provider = none;
    };
  };
}
