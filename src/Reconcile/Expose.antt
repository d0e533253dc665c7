-- ===== src/Reconcile/Expose.antt =====
-- pkg/controller/route/route.go, `sync`: the part that exposes the token of a pending challenge, checks
-- it and accepts the challenge.
use openshift_acme.Common.{
  ℕ, ◌*◌, ◌==◌, String, Bool, ◌&&◌, not, Option, none, some, if◌then◌else◌, str_eq, codes, lookup,
  pos,
}
use Prim.Native.String.{◌++◌ as ◌+++◌}
use openshift_acme.Errors.{
  Result, ok, err, is_not_found, not_owned, missing_exposer_id, exposer_id_mismatch,
}
use openshift_acme.Kube.{Route, Secret, ObjectMeta, Duration}
use openshift_acme.Kube.Key
use openshift_acme.Kube.Admitted.{is_admitted}
use openshift_acme.Kube.Workloads.{ReplicaSet, Service, Resources}
use openshift_acme.Acme.{Challenge, Client}
use openshift_acme.Effects.{
  Eff, pure, fail, lift, call, act, ◌>>=◌, ◌>>◌, add_after, accept, create_route, create_secret,
  create_replica_set, create_service, event,
}
use openshift_acme.LimitRanges.{adjust_container}
use openshift_acme.Token.{validate_exposed_token}
use openshift_acme.World.{World}
use openshift_acme.Exposer.{
  Exposure, desired_route, desired_secret, desired_replica_set, desired_service, exposer_resources,
}

-- 15 seconds.
abbrev pub requeue_delay : Duration
requeue_delay = pos (15 * 1_000_000_000)

-- How a turn of the loop over the authorizations ends: with the next one, or with `return nil`.
pub data Flow : Type 0 where
  next_authz return_nil : Flow

-- `Get` of a lister, and `Create` where the object is not there.
unfoldable pub ensure : {T : Type 0} → Result T → Eff T → Eff T
ensure (ok t) create = pure t
ensure (err e) create = if is_not_found e then create else fail e

check_id : Option String → String → Result (Unit {0})
check_id none id = err missing_exposer_id
check_id (some found) id = if str_eq found id then ok tt else err exposer_id_mismatch

module _ (w : World) where
  -- The object is controlled by its owner and has the id of the exposure.
  unfoldable pub check_exposer : ObjectMeta → ObjectMeta → String → Result (Unit {0})
  unfolding check_id
  check_exposer obj owner id =
      if not (w.packages.is_controlled_by obj owner)
      then err not_owned
      else check_id (lookup Key.exposer_id obj.annotations) id

module _ (w : World) (route : Route) (e : Exposure) where
  unfoldable pub ensure_route : Eff Route
  unfolding ensure
  ensure_route = do
    let desired = desired_route w route e
    found ←
        ensure (w.caches.route route.meta.namespace e.name)
          (call (create_route desired) (w.api.create_route desired))
    lift (check_exposer w found.meta route.meta e.id)
    pure found

  unfoldable pub ensure_secret : Route → Eff Secret
  unfolding ensure
  ensure_secret owner = do
    let desired = desired_secret w route e owner.meta
    found ←
        ensure (w.caches.secret route.meta.namespace e.name)
          (call (create_secret desired) (w.api.create_secret desired))
    lift (check_exposer w found.meta owner.meta e.id)
    pure found

  unfoldable pub ensure_replica_set : Route → Secret → Resources → Eff ReplicaSet
  unfolding ensure
  ensure_replica_set owner secret resources = do
    let desired = desired_replica_set w route e owner.meta secret.meta.name resources
    found ←
        ensure (w.caches.replica_set route.meta.namespace e.name)
          (call (create_replica_set desired) (w.api.create_replica_set desired))
    lift (check_exposer w found.meta owner.meta e.id)
    pure found

  unfoldable pub ensure_service : Route → Eff Service
  unfolding ensure
  ensure_service owner = do
    let desired = desired_service w route e owner.meta
    found ←
        ensure (w.caches.service route.meta.namespace e.name)
          (call (create_service desired) (w.api.create_service desired))
    lift (check_exposer w found.meta owner.meta e.id)
    pure found

unfoldable pub is_available : ReplicaSet → Bool
is_available rs =
    rs.observed_generation == rs.meta.generation && rs.available_replicas == rs.status_replicas

module _ (w : World) (client : Client) (route : Route) (e : Exposure) (challenge : Challenge) where
  -- The self validation and, if it succeeds, the acceptance.
  unfoldable pub accept_if : Result (Unit {0}) → Eff Flow
  accept_if (err _) = do act (add_after e.key requeue_delay); pure next_authz
  accept_if (ok _) = do
    call (accept challenge) (client.accept challenge)
    act (add_after e.key requeue_delay)
    pure next_authz

  unfoldable pub accept_when_exposed : Route → ReplicaSet → Eff Flow
  unfolding accept_if
  accept_when_exposed exposer_route rs =
      if not (is_admitted exposer_route)
      then (do act (add_after e.key requeue_delay); pure next_authz)
      else if not (is_available rs)
      then (do act (add_after e.key requeue_delay); pure next_authz)
      else accept_if (
          validate_exposed_token w.http_get ("http://" +++ (route.host +++ e.path))
            (codes e.response))

  -- From the replica set on, with the adjusted resources and the number of their errors.
  unfoldable pub expose_with : Route → Secret → Resources → ℕ → Eff Flow
  expose_with exposer_route secret resources errors =
      if not (errors == 0)
      then (do act (event "ExposerPodResourceRequirementsError"); pure return_nil)
      else do
        rs ← ensure_replica_set w route e exposer_route secret resources
        ensure_service w route e exposer_route
        accept_when_exposed exposer_route rs

  unfoldable pub expose : Eff Flow
  expose = do
    exposer_route ← ensure_route w route e
    secret ← ensure_secret w route e exposer_route
    ranges ← lift (w.caches.limit_ranges route.meta.namespace)
    let adjusted = adjust_container w.quantities ranges (exposer_resources w route e)
    expose_with exposer_route secret adjusted.0 adjusted.1
