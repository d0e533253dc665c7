-- ===== src/Tests/Events.antt =====
-- Events of a secret and of a replica set of the sample route.
use openshift_acme.Common.{String, ◌≡◌, refl, some, [], ◌∷◌, All, lookup}
use openshift_acme.Errors.{Result, ok}
use openshift_acme.Kube.{ObjectMeta, Secret}
use openshift_acme.Kube.Key
use openshift_acme.Kube.Managed.{is_managed, is_temporary}
use openshift_acme.Kube.Workloads.{ReplicaSet}
use openshift_acme.Acme.{pending}
use openshift_acme.World.{World}
use openshift_acme.Exposer.{controller_ref}
use openshift_acme.SecretSync.{resolve_controller_ref, get_sync_secret_name}
use openshift_acme.Reconcile.Sample.{world_with, status, route, replica_set}
use openshift_acme.Handlers.{
  route_key, update_replica_set, enqueue_owning_route, update_secret, enqueue_route,
}
use openshift_acme.Handlers.Owners.{IsOwnerKey, secret_update_queues}

abbrev keys : ObjectMeta → Result String
keys _ = ok "web/shop"

-- Every controlled object is controlled by the sample route.
abbrev owning : World
owning = record (world_with (some route) pending (status pending "o1")) {
  packages = record ((world_with (some route) pending (status pending "o1")).packages) {
    get_controller_of = λ _. some (controller_ref route.meta);
  };
  caches = record ((world_with (some route) pending (status pending "o1")).caches) {
    route = λ _ _. ok route;
  };
}

abbrev exposer_secret : Secret
exposer_secret = record {
  meta = record (route.meta) { name = "exposer" };
  type = "";
  contents = [];
}

abbrev exposer_set : ReplicaSet
exposer_set = record replica_set {
  meta = record (route.meta) { annotations = (Key.exposer_key, "web/shop") ∷ [] };
}

exposer_secret_queues_route :
    update_secret owning keys exposer_secret exposer_secret ≡ route_key "web/shop" ∷ []
unfolding update_secret resolve_controller_ref get_sync_secret_name enqueue_route lookup
exposer_secret_queues_route = refl

exposer_set_queues_route :
    update_replica_set owning keys exposer_set exposer_set
    ≡ route_key "web/shop" ∷ route_key "web/shop" ∷ []
unfolding update_replica_set enqueue_owning_route is_managed is_temporary lookup
exposer_set_queues_route = refl

secret_update_queues_example :
    All
      (IsOwnerKey owning keys exposer_secret)
      (update_secret owning keys exposer_secret exposer_secret)
secret_update_queues_example = secret_update_queues owning keys exposer_secret exposer_secret
