-- ===== src/Start.antt =====
-- `NewRouteController` of pkg/controller/route/route.go and `NewAccountController` of
-- pkg/controller/issuer/acme/acme.go: the informers that they listen to and wait for. `F` and `G` are the
-- types of the informer factories for kube objects and for routes. That a handler cannot be added is
-- only logged.
pub mod Synced
use openshift_acme.Common.{String, List, [], ◌∷◌, ◌++◌, Dict}
use openshift_acme.Errors.{Result, ok, err, require, ◌>>=◌, no_namespaces, nil_factory}
use openshift_acme.Informers.{namespaces, informers_for}

module _ (F G : Type 0) where
  -- The informer of a kind of objects that a factory gives.
  pub data Informer : Type 0 where
    routes : G → Informer
    secrets services replica_sets config_maps limit_ranges : F → Informer

-- The kinds of events that a handler is set for.
pub data EventKind : Type 0 where
  on_add on_update on_delete : EventKind

-- `cachesToSync`, and the handlers that were added.
pub record Setup (F G : Type 0) : Type 0 where
  pub handlers : List (Informer F G × List EventKind)
  pub caches_to_sync : List (Informer F G)

module _ {F G : Type 0} where
  unfoldable pub join_setups : Setup F G → Setup F G → Setup F G
  join_setups s t = record {
    handlers = s.handlers ++ t.handlers;
    caches_to_sync = s.caches_to_sync ++ t.caches_to_sync;
  }

  -- A turn of the loop over the namespaces of the route informers.
  unfoldable pub set_up_routes : G → Setup F G
  set_up_routes g = record {
    handlers = (routes g, on_add ∷ on_update ∷ on_delete ∷ []) ∷ [];
    caches_to_sync = routes g ∷ [];
  }

  -- A turn of the loop over the namespaces of the kube informers.
  unfoldable pub set_up_kube : F → Setup F G
  set_up_kube f = record {
    handlers =
        (secrets f, on_update ∷ on_delete ∷ [])
        ∷ (replica_sets f, on_add ∷ on_update ∷ on_delete ∷ [])
        ∷ [];
    caches_to_sync = secrets f ∷ services f ∷ replica_sets f ∷ config_maps f ∷ limit_ranges f ∷ [];
  }

  -- The turn of `NewAccountController`.
  unfoldable pub set_up_accounts : F → Setup F G
  set_up_accounts f = record {
    handlers =
        (config_maps f, on_add ∷ on_update ∷ on_delete ∷ []) ∷ (secrets f, on_delete ∷ []) ∷ [];
    caches_to_sync = config_maps f ∷ secrets f ∷ [];
  }

  -- A loop over namespaces; the use of a nil factory panics.
  unfoldable pub set_up_all :
      {I : Type 0} → (I → Setup F G) → Dict I → List String → Result (Setup F G)
  unfolding join_setups
  set_up_all set_up informers [] = ok (record { handlers = []; caches_to_sync = [] })
  set_up_all set_up informers (n ∷ ns) = do
    i ← require (informers_for informers n) nil_factory
    rest ← set_up_all set_up informers ns
    ok (join_setups (set_up i) rest)

  -- The loop, with the panic where there is no namespace.
  unfoldable pub set_up_some :
      {I : Type 0} → (I → Setup F G) → Dict I → List String → Result (Setup F G)
  set_up_some set_up informers [] = err no_namespaces
  set_up_some set_up informers (n ∷ ns) = set_up_all set_up informers (n ∷ ns)

  unfoldable pub new_route_controller : Dict F → Dict G → Result (Setup F G)
  unfolding join_setups
  new_route_controller kube_informers route_informers = do
    of_routes ← set_up_some set_up_routes route_informers (namespaces route_informers)
    of_kube ← set_up_some set_up_kube kube_informers (namespaces kube_informers)
    ok (join_setups of_routes of_kube)

  unfoldable pub new_account_controller : Dict F → Result (Setup F G)
  new_account_controller kube_informers =
      set_up_some set_up_accounts kube_informers (namespaces kube_informers)
