-- ===== src/World.antt =====
-- The surroundings of the route controller: its configuration, the caches of its informers, the
-- replies of the API server and of the ACME server, and the clock.
use openshift_acme.Common.{ℕ, String, Bool, Option, List}
use openshift_acme.Errors.{Result}
use openshift_acme.Kube.{Time, Duration, Bytes, ObjectMeta, Route, Secret, OwnerReference}
use openshift_acme.Kube.Workloads.{Quantities, ReplicaSet, Service, LimitRange}
use openshift_acme.Cert.{X509}
use openshift_acme.Acme.{Client, ClientConfig}
use openshift_acme.Status.{StatusCodec}
use openshift_acme.Effects.{Eff}
use openshift_acme.Issuer.{IssuerCaches}
use openshift_acme.Token.{Reply}

pub record Config : Type 0 where
  pub annotation : String
  pub cert_order_backoff_initial : Duration
  pub cert_order_backoff_max : Duration
  pub cert_default_profile : String
  pub exposer_image : String
  pub controller_namespace : String

-- `GetByKey` of an indexer and `Get` of a lister; a lister's error is `not_found` where
-- `kapierrors.IsNotFound` holds. The first argument of a lister is the namespace.
pub record Caches : Type 0 where
  pub route_by_key : String → Result (Option Route)
  pub secret_by_key : String → Result (Option Secret)
  pub route : String → String → Result Route
  pub secret : String → String → Result Secret
  pub replica_set : String → String → Result ReplicaSet
  pub service : String → String → Result Service
  pub limit_ranges : String → Result (List LimitRange)
  pub issuers : IssuerCaches

-- The API server's replies. `get_route` and `update_route` are asked again in each attempt of a
-- retry, so their first argument is the number of the attempt.
pub record ApiServer : Type 0 where
  pub patch_status : String → Result (Unit {0})
  pub create_route : Route → Result Route
  pub create_secret : Secret → Result Secret
  pub update_secret : Secret → Result Secret
  pub create_replica_set : ReplicaSet → Result ReplicaSet
  pub create_service : Service → Result Service
  pub get_route : ℕ → String → String → Result Route
  pub update_route : ℕ → Route → Result (Unit {0})
  pub delete_exposers : String → String → Result (Unit {0})

-- Functions of other packages: metav1.IsControlledBy and metav1.GetControllerOf,
-- cache.SplitMetaNamespaceKey, retry.RetryOnConflict, regexp, crypto/rsa and encoding/pem.
-- `matches` compiles an expression, and fails for an invalid one.
pub record Packages : Type 0 where
  pub is_controlled_by : ObjectMeta → ObjectMeta → Bool
  pub get_controller_of : ObjectMeta → Option OwnerReference
  pub split_key : String → Result (String × String)
  pub retry_on_conflict : (ℕ → Eff (Unit {0})) → Eff (Unit {0})
  pub matches : String → Option (String → Bool)
  pub generate_key : Result Bytes
  pub parse_key : Bytes → Option Bytes
  pub create_csr : Bytes → String → Result Bytes

-- The times that the clock shows where `sync` reads it: for `needsCertKey`, for the delay of a failed
-- order, and when an order was created.
pub record Clock : Type 0 where
  pub at_check : Time
  pub at_delay : Time
  pub at_order : Time

pub record World : Type 0 where
  pub config : Config
  pub caches : Caches
  pub api : ApiServer
  pub packages : Packages
  pub clock : Clock
  pub x509 : X509
  pub codec : StatusCodec
  pub quantities : Quantities
  pub acme : ClientConfig → Client
  pub http_get : String → Result Reply
