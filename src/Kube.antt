-- ===== src/Kube.antt =====
-- The Kubernetes objects that the components read, as records of the fields that they read
-- (k8s.io/api; the API server and its clients are parameters of the model).
use waok8s.Prelude.{Bool, Option, List, Text, Dict}
use waok8s.Prelude.Int64.{ℤ}

-- `types.NamespacedName`
pub record NamespacedName : Type 0 where
  pub namespace : Text
  pub name : Text

-- `metav1.OwnerReference`; `controller` is a pointer to a bool.
pub record OwnerReference : Type 0 where
  pub kind : Text
  pub name : Text
  pub controller : Option Bool

pub record Toleration : Type 0 where
  pub key : Text
  pub operator : Text
  pub effect : Text

pub record PodCondition : Type 0 where
  pub type_ : Text
  pub status : Text

-- The CPU quantities of a container, already converted by `AsApproximateFloat64`.
pub record Container (F : Type 0) : Type 0 where
  pub requests_cpu : F
  pub limits_cpu : F

pub data PodPhase : Type 0 where
  pending running succeeded failed unknown : PodPhase

pub record Pod (F : Type 0) : Type 0 where
  pub namespace : Text
  pub name : Text
  pub uid : Text
  pub annotations : Dict Text
  pub owner_references : List OwnerReference
  pub node_name : Text
  pub tolerations : List Toleration
  pub containers : List (Container F)
  pub phase : PodPhase
  pub conditions : List PodCondition

pub record NodeAddress : Type 0 where
  pub type_ : Text
  pub address : Text

pub record Node (F : Type 0) : Type 0 where
  pub name : Text
  pub labels : Dict Text
  pub addresses : List NodeAddress
  pub capacity_cpu : F

-- `replicas` is a pointer to an int32.
pub record ReplicaSet : Type 0 where
  pub namespace : Text
  pub name : Text
  pub uid : Text
  pub annotations : Dict Text
  pub replicas : Option ℤ
