-- ===== src/Handlers/Owners.antt =====
-- Whose keys the handlers add.
use openshift_acme.Common.{
  String, ◌≡◌, ◌≢◌, refl, true, false, Option, none, some, All, All-append, Bool-cases, inl, inr,
  eq_iff, lookup, arith,
}
use openshift_acme.Errors.{Result, ok, err}
use openshift_acme.Kube.{Route, Secret, ObjectMeta, OwnerReference}
use openshift_acme.Kube.Key
use openshift_acme.Kube.Managed.{is_managed}
use openshift_acme.Kube.Workloads.{ReplicaSet}
use openshift_acme.World.{World}
use openshift_acme.SecretSync.{get_sync_secret_name, resolve_controller_ref}
use openshift_acme.Handlers.{
  Enqueued, route_key, secret_key, to_queue, enqueue_route_to_secret, enqueue_copy, enqueue_keyed,
  enqueue_route, owning_found, owning_key, enqueue_owning_route, update_replica_set, is_copy_name,
  resolved_secret, owned_secret, update_secret,
}

module _ (w : World) (key_func : ObjectMeta → Result String) where
  -- The key is that of a managed route in the cache.
  abbrev pub IsManagedKey : Enqueued → Type 0
  IsManagedKey (route_key key) =
      (route : Route) × (w.caches.route_by_key key ≡ ok (some route))
      × (is_managed route.meta w.config.annotation ≡ true)
  IsManagedKey (secret_key key) = ⊥

  found-IsManagedKey :
      (key : String) (found : Result (Option Route))
      → w.caches.route_by_key key ≡ found
      → All IsManagedKey (owning_found w key_func key found)
  unfolding owning_found
  found-IsManagedKey key (err e) h = tt
  found-IsManagedKey key (ok none) h = tt
  found-IsManagedKey key (ok (some route)) h =
      elim (Bool-cases (is_managed route.meta w.config.annotation)) [
        | inl managed ↦ rw managed ((route, h, managed), tt)
        | inr unmanaged ↦ rw unmanaged tt
      ]

  owning-IsManagedKey : (key : Option String) → All IsManagedKey (owning_key w key_func key)
  unfolding owning_key
  owning-IsManagedKey none = tt
  owning-IsManagedKey (some key) = found-IsManagedKey key _ refl

  -- An update of a replica set only adds keys of managed routes in the cache to the queue of the routes.
  pub replica_set_update_queues :
      (old cur : ReplicaSet) → All IsManagedKey (update_replica_set w key_func old cur)
  unfolding update_replica_set enqueue_owning_route
  replica_set_update_queues old cur =
      All-append IsManagedKey (enqueue_owning_route w key_func old.meta)
        (enqueue_owning_route w key_func cur.meta)
        (owning-IsManagedKey (lookup Key.exposer_key old.meta.annotations))
        (owning-IsManagedKey (lookup Key.exposer_key cur.meta.annotations))

  module _ (secret : Secret) where
    -- The route is the controller of the secret.
    pub record IsOwner (route : Route) : Type 0 where
      pub ref : OwnerReference
      pub controlled : w.packages.get_controller_of secret.meta ≡ some ref
      pub resolved : resolve_controller_ref w secret.meta.namespace ref ≡ some route

    -- The key is that of the secret's owner, and goes to the queue of the routes only if the secret is
    -- not the copy that the route asks for.
    abbrev pub IsOwnerKey : Enqueued → Type 0
    IsOwnerKey (route_key key) =
        (route : Route) × IsOwner route
        × (key_func route.meta ≡ ok key)
        × (get_sync_secret_name route ≢ some secret.meta.name)
    IsOwnerKey (secret_key key) =
        (route : Route) × IsOwner route
        × (key_func route.meta ≡ ok key)
        × (get_sync_secret_name route ≢ none)

    not_copy :
        (wanted : Option String) (name : String)
        → is_copy_name w key_func wanted name ≡ false
        → wanted ≢ some name
    unfolding is_copy_name
    not_copy none name h e = cc
    not_copy (some wanted) name h e = ground (arith, eq_iff wanted name)

    asked_copy :
        (wanted : Option String) (name : String)
        → is_copy_name w key_func wanted name ≡ true
        → wanted ≢ none
    unfolding is_copy_name
    asked_copy none name h e = cc
    asked_copy (some wanted) name h e = cc

    secret_queue-IsOwnerKey :
        (route : Route) (key : Result String)
        → IsOwner route
        → key_func route.meta ≡ key
        → get_sync_secret_name route ≢ none
        → All IsOwnerKey (to_queue secret_key key)
    unfolding to_queue
    secret_queue-IsOwnerKey route (err e) owner h asks = tt
    secret_queue-IsOwnerKey route (ok key) owner h asks = ((route, owner, h, asks), tt)

    copy-IsOwnerKey :
        (route : Route) (wanted : Option String)
        → IsOwner route
        → get_sync_secret_name route ≡ wanted
        → All IsOwnerKey (enqueue_copy w key_func wanted route)
    unfolding enqueue_copy enqueue_route_to_secret
    copy-IsOwnerKey route none owner h = tt
    copy-IsOwnerKey route (some name) owner h = secret_queue-IsOwnerKey route _ owner refl (λ e. cc)

    route-IsOwnerKey :
        (route : Route) (key : Result String)
        → IsOwner route
        → key_func route.meta ≡ key
        → get_sync_secret_name route ≢ some secret.meta.name
        → All IsOwnerKey (enqueue_keyed w key_func key route)
    unfolding enqueue_keyed
    route-IsOwnerKey route (err e) owner h other = tt
    route-IsOwnerKey route (ok key) owner h other =
        ((route, owner, h, other), copy-IsOwnerKey route _ owner refl)

    resolved-IsOwnerKey :
        (found : Option Route) (ref : OwnerReference)
        → w.packages.get_controller_of secret.meta ≡ some ref
        → resolve_controller_ref w secret.meta.namespace ref ≡ found
        → All IsOwnerKey (resolved_secret w key_func secret found)
    unfolding resolved_secret enqueue_route enqueue_route_to_secret
    resolved-IsOwnerKey none ref controlled resolved = tt
    resolved-IsOwnerKey (some route) ref controlled resolved =
        let owner : IsOwner route = record {
          ref = ref;
          controlled = controlled;
          resolved = resolved;
        } in
        let wanted = get_sync_secret_name route in
        elim (Bool-cases (is_copy_name w key_func wanted secret.meta.name)) [
          | inl copy ↦
              rw copy (
                secret_queue-IsOwnerKey route _ owner refl
                  (asked_copy wanted secret.meta.name copy))
          | inr other ↦
              rw other
                (route-IsOwnerKey route _ owner refl (not_copy wanted secret.meta.name other))
        ]

    owned-IsOwnerKey :
        (ref : Option OwnerReference)
        → w.packages.get_controller_of secret.meta ≡ ref
        → All IsOwnerKey (owned_secret w key_func secret ref)
    unfolding owned_secret
    owned-IsOwnerKey none h = tt
    owned-IsOwnerKey (some ref) h = resolved-IsOwnerKey _ ref h refl

    -- An update of a secret only adds keys of the route that the secret's controller reference resolves
    -- to: to the queue of the routes only if the secret is not the copy that this route asks for, and
    -- to the queue of the copies only if the route asks for one.
    pub secret_update_queues : (old : Secret) → All IsOwnerKey (update_secret w key_func old secret)
    unfolding update_secret
    secret_update_queues old = owned-IsOwnerKey _ refl
