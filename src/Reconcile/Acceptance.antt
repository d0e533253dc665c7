-- ===== src/Reconcile/Acceptance.antt =====
-- When a challenge is accepted.
use openshift_acme.Common.{ℕ, ◌≡◌, refl, true, not, inl, inr, ◌⊎◌, List, codes, Bool-cases, ◌==◌}
use Prim.Native.String.{◌++◌ as ◌+++◌}
use openshift_acme.Errors.{Error, Result, ok, err, ok-injective, is_not_found}
use openshift_acme.Kube.{Route, Secret}
use openshift_acme.Kube.Admitted.{is_admitted}
use openshift_acme.Kube.Workloads.{ReplicaSet, Resources, LimitRange}
use openshift_acme.Acme.{Challenge, Client}
use openshift_acme.Effects.{
  Action, update_route, authorize_order, Eff, pure, fail, lift, call, act, ◌>>=◌, ◌>>◌, accept,
  Only, Only-pure, Only-fail, Only-lift, Only-call, Only-if, Only-bind, Only-act, Only-ignore_error,
  >>=-eq-ok, add_after, create_route, create_secret, create_replica_set, create_service, event,
  patch_status,
}
use openshift_acme.Token.{validate_exposed_token}
use openshift_acme.World.{World}
use openshift_acme.Exposer.{
  Exposure, desired_route, desired_secret, desired_replica_set, exposer_resources,
}
use openshift_acme.LimitRanges.{adjust_container}
use mathlib.Core.Path.{subst}
use openshift_acme.Reconcile.Expose.{
  ensure, check_exposer, ensure_route, ensure_secret, ensure_replica_set, ensure_service,
  is_available, accept_if, accept_when_exposed, expose_with, expose,
}

pub ruleset only_rules =
    (Only-pure, Only-fail, Only-lift, Only-call, Only-if, Only-bind, Only-act, Only-ignore_error)

-- The object is the one in the cache, or none is there and it is what the API server has created.
abbrev pub IsObtained : {T : Type 0} → Result T → Result T → T → Type 0
IsObtained cached created t =
    (cached ≡ ok t) ⊎ ((x : Error) × (cached ≡ err x) × (is_not_found x ≡ true) × (created ≡ ok t))

-- The token of a challenge is served: the exposer route, which is that of the cache or was created, is
-- controlled by the route, has the id of the exposure and is admitted; the replica set, which is that
-- of the cache or was created for the secret and with the adjusted resources, is controlled by the
-- exposer route, has the id and is available; and a request for the token has returned the response.
pub record IsServed (w : World) (route : Route) (e : Exposure) : Type 0 where
  pub exposer_route : Route
  pub has_route :
      IsObtained
        (w.caches.route route.meta.namespace e.name)
        (w.api.create_route (desired_route w route e))
        exposer_route
  pub secret : Secret
  pub has_secret :
      IsObtained
        (w.caches.secret route.meta.namespace e.name)
        (w.api.create_secret (desired_secret w route e exposer_route.meta))
        secret
  pub ranges : List LimitRange
  pub has_ranges : w.caches.limit_ranges route.meta.namespace ≡ ok ranges
  pub replica_set : ReplicaSet
  pub has_replica_set :
      IsObtained
        (w.caches.replica_set route.meta.namespace e.name)
        (w.api.create_replica_set (
          desired_replica_set w route e exposer_route.meta secret.meta.name
            (adjust_container w.quantities ranges (exposer_resources w route e)).0))
        replica_set
  pub route_checked : check_exposer w exposer_route.meta route.meta e.id ≡ ok tt
  pub replica_set_checked : check_exposer w replica_set.meta exposer_route.meta e.id ≡ ok tt
  pub admitted : is_admitted exposer_route ≡ true
  pub available : is_available replica_set ≡ true
  pub validated :
      validate_exposed_token w.http_get ("http://" +++ (route.host +++ e.path)) (codes e.response)
      ≡ ok tt

Only-ensure :
    {T : Type 0} {P : Action → Type 0} (r : Result T) (create : Eff T)
    → Only P create
    → Only P (ensure r create)
unfolding ensure
Only-ensure (ok t) create h = Only-pure t
Only-ensure (err e) create h = Only-if (is_not_found e) create (fail e) (λ _. h) (λ _. Only-fail e)

ensure-IsObtained :
    {T : Type 0} (r : Result T) (create : Eff T) {t : T}
    → (ensure r create).1 ≡ ok t
    → IsObtained r create.1 t
unfolding ensure
ensure-IsObtained (ok a) create h = inl h
ensure-IsObtained (err x) create h = elim (Bool-cases (is_not_found x)) [
  | inl missing ↦ inr (x, refl, missing, rw missing at h)
  | inr other ↦ (let failed = rw other at h in cc failed)
]

-- An object that was ensured and checked.
ensured :
    {T : Type 0} (r : Result T) (create : Eff T) (check : T → Result (Unit {0})) {t : T}
    → (ensure r create >>= λ found. (lift (check found) >> pure found)).1 ≡ ok t
    → IsObtained r create.1 t × (check t ≡ ok tt)
ensured r create check {t} h =
    let (found, e, rest) = >>=-eq-ok (ensure r create) _ h in
    let (u, passed, same) = >>=-eq-ok (lift (check found)) _ rest in
    subst (λ x. IsObtained r create.1 x × (check x ≡ ok tt)) (ok-injective same)
      (ensure-IsObtained r create e, passed)

module _ (w : World) (route : Route) (e : Exposure) (challenge : Challenge) where
  abbrev pub AcceptsServed : Action → Type 0
  AcceptsServed (accept c) = (c ≡ challenge) × IsServed w route e
  AcceptsServed (update_route r) = ⊥
  AcceptsServed (authorize_order d) = ⊥
  AcceptsServed (patch_status ns name text) = ⊥
  AcceptsServed _ = Unit

  ensure_route-Only : Only AcceptsServed (ensure_route w route e)
  unfolding ensure_route
  ensure_route-Only = search (only_rules, Only-ensure, tt)

  ensure_secret-Only : (owner : Route) → Only AcceptsServed (ensure_secret w route e owner)
  unfolding ensure_secret
  ensure_secret-Only owner = search (only_rules, Only-ensure, tt)

  ensure_replica_set-Only :
      (owner : Route) (s : Secret) (r : Resources)
      → Only AcceptsServed (ensure_replica_set w route e owner s r)
  unfolding ensure_replica_set
  ensure_replica_set-Only owner s r = search (only_rules, Only-ensure, tt)

  ensure_service-Only : (owner : Route) → Only AcceptsServed (ensure_service w route e owner)
  unfolding ensure_service
  ensure_service-Only owner = search (only_rules, Only-ensure, tt)

  accept_if-Only :
      (client : Client) (r : Result (Unit {0}))
      → (r ≡ ok tt → IsServed w route e)
      → Only AcceptsServed (accept_if w client route e challenge r)
  unfolding accept_if
  accept_if-Only client (ok u) served = search (only_rules, served refl)
  accept_if-Only client (err x) served = search (only_rules, tt)

  abbrev Serves : Route → ReplicaSet → Type 0
  Serves owner rs =
      is_admitted owner ≡ true
      → is_available rs ≡ true
      → validate_exposed_token w.http_get ("http://" +++ (route.host +++ e.path)) (codes e.response)
        ≡ ok tt
      → IsServed w route e

  accept_when_exposed-Only :
      (client : Client) (owner : Route) (rs : ReplicaSet)
      → Serves owner rs
      → Only AcceptsServed (accept_when_exposed w client route e challenge owner rs)
  unfolding accept_when_exposed
  accept_when_exposed-Only client owner rs serves = elim (Bool-cases (is_admitted owner)) [
    | inr no' ↦ rw no' (search (only_rules, tt))
    | inl admitted ↦ rw admitted (elim (Bool-cases (is_available rs)) [
      | inr no' ↦ rw no' (search (only_rules, tt))
      | inl available ↦ rw available (accept_if-Only client _ (serves admitted available))
    ])
  ]

  expose_with-Only :
      (client : Client) (owner : Route) (secret : Secret) (res : Resources) (n : ℕ)
      → ((rs : ReplicaSet)
          → IsObtained
              (w.caches.replica_set route.meta.namespace e.name)
              (w.api.create_replica_set
                (desired_replica_set w route e owner.meta secret.meta.name res))
              rs
          → check_exposer w rs.meta owner.meta e.id ≡ ok tt
          → Serves owner rs)
      → Only AcceptsServed (expose_with w client route e challenge owner secret res n)
  unfolding expose_with ensure_replica_set
  expose_with-Only client owner secret res n serves =
      Only-if (not (n == 0)) _ _ (λ _. search (only_rules, tt))
        (λ _. Only-bind _ _ (ensure_replica_set-Only owner secret res) (λ rs made.
          let (obtained, checked) =
            ensured _ _ (λ r. check_exposer w r.meta owner.meta e.id) made in
          Only-bind _ _ (ensure_service-Only owner)
            (λ _ _. accept_when_exposed-Only client owner rs (serves rs obtained checked))))

  -- The challenge is accepted only if its token is served.
  pub expose-Only : (client : Client) → Only AcceptsServed (expose w client route e challenge)
  unfolding expose ensure_route ensure_secret
  expose-Only client = Only-bind _ _ ensure_route-Only (λ owner made_route.
      let (has_route, route_checked) =
        ensured _ _ (λ r. check_exposer w r.meta route.meta e.id) made_route in
      Only-bind _ _ (ensure_secret-Only owner) (λ secret made_secret.
        let (has_secret, _) =
          ensured _ _ (λ s. check_exposer w s.meta owner.meta e.id) made_secret in
        Only-bind _ _ (Only-lift _) (λ ranges listed.
          expose_with-Only client owner secret _ _
            (λ rs has_rs rs_checked admitted available validated. record {
              exposer_route = owner;
              has_route = has_route;
              secret = secret;
              has_secret = has_secret;
              ranges = ranges;
              has_ranges = listed;
              replica_set = rs;
              has_replica_set = has_rs;
              route_checked = route_checked;
              replica_set_checked = rs_checked;
              admitted = admitted;
              available = available;
              validated = validated;
            }))))
