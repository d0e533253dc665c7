-- ===== src/Kube/Workloads.antt =====
-- The objects of an exposer and the limit ranges of its namespace, as far as the code uses them.
use openshift_acme.Common.{ℕ, String, Bool, List, ℤ, Dict}
use openshift_acme.Kube.{ObjectMeta}

-- A resource.Quantity, by its text. What the code computes with quantities is the parameter
-- `Quantities`: `less a b` is `a.Cmp(b) == -1`, `more a b` is `a.Cmp(b) == 1`, and `from_milli` is
-- `NewScaledQuantity(n, resource.Milli)`.
pub record Quantity : Type 0 where
  pub text : String

pub record Quantities : Type 0 where
  pub less : Quantity → Quantity → Bool
  pub more : Quantity → Quantity → Bool
  pub milli_value : Quantity → ℤ
  pub from_milli : ℤ → Quantity
  pub milli_quantity : ℕ → Quantity
  pub binary_quantity : ℕ → Quantity

abbrev pub ResourceList : Type 0
ResourceList = Dict Quantity

pub record Resources : Type 0 where
  pub requests : ResourceList
  pub limits : ResourceList

pub record PodSecurityContext : Type 0 where
  pub run_as_non_root : Bool
  pub seccomp_profile : String

pub record SecurityContext : Type 0 where
  pub allow_privilege_escalation : Bool
  pub read_only_root_filesystem : Bool
  pub drop : List String

pub record ReplicaSet : Type 0 where
  pub meta : ObjectMeta
  pub replicas : ℕ
  pub pod_labels : Dict String
  pub image : String
  pub args : List String
  pub container_port : ℕ
  pub secret_name : String
  pub resources : Resources
  pub pod_security_context : PodSecurityContext
  pub security_context : SecurityContext
  pub observed_generation : ℕ
  pub status_replicas : ℕ
  pub available_replicas : ℕ

pub record Service : Type 0 where
  pub meta : ObjectMeta
  pub selector : Dict String
  pub port : ℕ
  pub target_port : ℕ

pub data LimitType : Type 0 where
  container pod other_type : LimitType

pub record LimitRangeItem : Type 0 where
  pub type : LimitType
  pub min : ResourceList
  pub max : ResourceList
  pub max_limit_request_ratio : ResourceList

pub record LimitRange : Type 0 where
  pub meta : ObjectMeta
  pub limits : List LimitRangeItem
