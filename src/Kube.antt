-- ===== src/Kube.antt =====
-- The API objects that the controllers read and write: the fields of the Kubernetes and OpenShift
-- types that the code uses, and the constants of pkg/api/types.go. The type of a cluster object is
-- its metadata with the fields of its own.
pub mod Key
pub mod Managed
pub mod Workloads
pub mod Admitted
use openshift_acme.Common.{ℕ, String, Bool, Option, List, ℤ, Dict}

-- A time is a number of nanoseconds since Go's zero time, and a duration one of int64's range.
abbrev pub Time : Type 0
Time = ℤ

abbrev pub Duration : Type 0
Duration = ℤ

abbrev pub Bytes : Type 0
Bytes = List ℕ

pub record OwnerReference : Type 0 where
  pub kind : String
  pub name : String
  pub uid : String
  pub controller : Bool

pub record ObjectMeta : Type 0 where
  pub name : String
  pub namespace : String
  pub uid : String
  pub resource_version : String
  pub generation : ℕ
  pub creation_timestamp : Time
  pub deletion_timestamp : Option Time
  pub labels : Dict String
  pub annotations : Dict String
  pub owner_references : List OwnerReference

pub record TlsConfig : Type 0 where
  pub termination : String
  pub insecure_policy : String
  pub key : String
  pub certificate : String

pub record Condition : Type 0 where
  pub type : String
  pub status : String

-- One element for each ingress of the status, with the conditions of that ingress.
pub record Route : Type 0 where
  pub meta : ObjectMeta
  pub host : String
  pub path : String
  pub port : Option String
  pub tls : Option TlsConfig
  pub to_kind : String
  pub to_name : String
  pub ingress : List (List Condition)

pub record Secret : Type 0 where
  pub meta : ObjectMeta
  pub type : String
  pub contents : Dict String

pub record ConfigMap : Type 0 where
  pub meta : ObjectMeta
  pub contents : Dict String
