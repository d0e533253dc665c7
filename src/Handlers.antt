-- ===== src/Handlers.antt =====
-- pkg/controller/route/route.go: the event handlers of the route controller, and the keys that they
-- add to its two queues.
pub mod Owners
use openshift_acme.Common.{
  String, Bool, true, false, not, Option, none, some, List, [], ◌∷◌, ◌++◌, if◌then◌else◌, str_eq,
  lookup,
}
use openshift_acme.Errors.{Result, ok, err}
use openshift_acme.Kube.{Route, Secret, ObjectMeta, OwnerReference}
use openshift_acme.Kube.Key
use openshift_acme.Kube.Managed.{is_managed}
use openshift_acme.Kube.Workloads.{ReplicaSet}
use openshift_acme.World.{World}
use openshift_acme.SecretSync.{get_sync_secret_name, resolve_controller_ref}

-- A key that is added to `queue` or to `routesToSecretsQueue`.
pub data Enqueued : Type 0 where
  route_key : String → Enqueued
  secret_key : String → Enqueued

-- What a delete handler is given: the object, the last known state of it in a tombstone, or a value
-- of another type.
pub data Deleted (T : Type 0) : Type 0 where
  object : T → Deleted T
  tombstone : T → Deleted T
  other_object : Deleted T

-- A key is added to a queue, if there is one.
unfoldable pub to_queue : (String → Enqueued) → Result String → List Enqueued
to_queue queue (ok key) = queue key ∷ []
to_queue queue (err e) = []

-- `key_func` is cache.DeletionHandlingMetaNamespaceKeyFunc.
module _ (w : World) (key_func : ObjectMeta → Result String) where
  unfoldable pub enqueue_route_to_secret : Route → List Enqueued
  unfolding to_queue
  enqueue_route_to_secret route = to_queue secret_key (key_func route.meta)

  unfoldable pub enqueue_copy : Option String → Route → List Enqueued
  enqueue_copy none route = []
  enqueue_copy (some name) route = enqueue_route_to_secret route

  unfoldable pub enqueue_keyed : Result String → Route → List Enqueued
  unfolding enqueue_copy
  enqueue_keyed (err e) route = []
  enqueue_keyed (ok key) route = route_key key ∷ enqueue_copy (get_sync_secret_name route) route

  unfoldable pub enqueue_route : Route → List Enqueued
  unfolding enqueue_keyed
  enqueue_route route = enqueue_keyed (key_func route.meta) route

  unfoldable pub add_route : Route → List Enqueued
  add_route route =
      if not (is_managed route.meta w.config.annotation) then [] else enqueue_route route

  unfoldable pub update_route : Route → Route → List Enqueued
  update_route old cur =
      if not (is_managed cur.meta w.config.annotation) then [] else enqueue_route cur

  unfoldable pub delete_route : Deleted Route → List Enqueued
  delete_route (object route) =
      if not (is_managed route.meta w.config.annotation) then [] else enqueue_route route
  delete_route (tombstone route) =
      if not (is_managed route.meta w.config.annotation) then [] else enqueue_route route
  delete_route other_object = []

  unfoldable pub owning_found : String → Result (Option Route) → List Enqueued
  owning_found key (err e) = []
  owning_found key (ok none) = []
  owning_found key (ok (some route)) =
      if not (is_managed route.meta w.config.annotation) then [] else route_key key ∷ []

  unfoldable pub owning_key : Option String → List Enqueued
  unfolding owning_found
  owning_key none = []
  owning_key (some key) = owning_found key (w.caches.route_by_key key)

  unfoldable pub enqueue_owning_route : ObjectMeta → List Enqueued
  unfolding owning_key
  enqueue_owning_route obj = owning_key (lookup Key.exposer_key obj.annotations)

  unfoldable pub add_replica_set : ReplicaSet → List Enqueued
  add_replica_set rs = enqueue_owning_route rs.meta

  unfoldable pub update_replica_set : ReplicaSet → ReplicaSet → List Enqueued
  update_replica_set old cur = enqueue_owning_route old.meta ++ enqueue_owning_route cur.meta

  unfoldable pub delete_replica_set : Deleted ReplicaSet → List Enqueued
  delete_replica_set (object rs) = enqueue_owning_route rs.meta
  delete_replica_set (tombstone rs) = enqueue_owning_route rs.meta
  delete_replica_set other_object = []

  unfoldable pub is_copy_name : Option String → String → Bool
  is_copy_name none name = false
  is_copy_name (some wanted) name = str_eq wanted name

  unfoldable pub resolved_secret : Secret → Option Route → List Enqueued
  unfolding is_copy_name
  resolved_secret secret none = []
  resolved_secret secret (some route) =
      if is_copy_name (get_sync_secret_name route) secret.meta.name
      then enqueue_route_to_secret route
      else enqueue_route route

  unfoldable pub owned_secret : Secret → Option OwnerReference → List Enqueued
  unfolding resolved_secret
  owned_secret secret none = []
  owned_secret secret (some ref) =
      resolved_secret secret (resolve_controller_ref w secret.meta.namespace ref)

  unfoldable pub update_secret : Secret → Secret → List Enqueued
  unfolding owned_secret
  update_secret old cur = owned_secret cur (w.packages.get_controller_of cur.meta)

  unfoldable pub delete_secret : Deleted Secret → List Enqueued
  unfolding owned_secret
  delete_secret (object s) = owned_secret s (w.packages.get_controller_of s.meta)
  delete_secret (tombstone s) = owned_secret s (w.packages.get_controller_of s.meta)
  delete_secret other_object = []
