-- ===== src/Reconcile/Accepted.antt =====
-- A challenge whose token is served is accepted.
use Prim.Native.String.{◌++◌ as ◌+++◌}
use openshift_acme.Common.{
  ℕ, String, ◌≡◌, refl, ap, ◌∙◌, true, false, none, some, List, [], ◌∷◌, codes, is_empty,
}
use openshift_acme.Errors.{Result, ok}
use openshift_acme.Kube.{Route, Secret, Duration}
use openshift_acme.Kube.Admitted.{is_admitted}
use openshift_acme.Kube.Workloads.{ReplicaSet, Service, Resources, LimitRange}
use openshift_acme.Acme.{AcmeStatus, pending, Authorization, Challenge, Order, Client}
use openshift_acme.Effects.{
  Eff, pure, lift, call, ◌>>=◌, ◌>>◌, >>=-after, accept, add_after, get_order, get_authorization,
}
use openshift_acme.LimitRanges.{adjust_container}
use openshift_acme.Token.{validate_exposed_token}
use openshift_acme.Status.{Status, get_status}
use openshift_acme.Renewal.{Reason, needs_cert_key}
use openshift_acme.World.{World}
use openshift_acme.Exposer.{Exposure, exposer_resources}
use openshift_acme.Reconcile.ClientFor.{client_for}
use openshift_acme.Reconcile.Expose.{
  next_authz, requeue_delay, ensure, check_exposer, ensure_route, ensure_secret, ensure_replica_set,
  ensure_service, is_available, accept_if, accept_when_exposed, expose_with, expose,
}
use openshift_acme.Reconcile.Order.{
  http01_challenge, exposure, pend, with_challenge, step_authz, after_authz, authorize_all,
  step_order, save,
}
use openshift_acme.Reconcile.Sync.{sync, with_backoff}
use openshift_acme.Reconcile.Reached.{IsReached}
use openshift_acme.Reconcile.Outcomes.{sync-decide}
use openshift_acme.Reconcile.Lifecycle.{IsUnderWay, prefixed, decide-under_way, order_step-known}

-- The exposer objects are in the caches, belong to the route, are admitted and available, and serve the
-- response.
pub record IsExposed (w : World) (route : Route) (e : Exposure) : Type 0 where
  pub exposer_route : Route
  pub has_route : w.caches.route route.meta.namespace e.name ≡ ok exposer_route
  pub owns_route : check_exposer w exposer_route.meta route.meta e.id ≡ ok tt
  pub admitted : is_admitted exposer_route ≡ true
  pub secret : Secret
  pub has_secret : w.caches.secret route.meta.namespace e.name ≡ ok secret
  pub owns_secret : check_exposer w secret.meta exposer_route.meta e.id ≡ ok tt
  pub ranges : List LimitRange
  pub has_ranges : w.caches.limit_ranges route.meta.namespace ≡ ok ranges
  pub adjusted : (adjust_container w.quantities ranges (exposer_resources w route e)).1 ≡ 0
  pub replica_set : ReplicaSet
  pub has_replica_set : w.caches.replica_set route.meta.namespace e.name ≡ ok replica_set
  pub owns_replica_set : check_exposer w replica_set.meta exposer_route.meta e.id ≡ ok tt
  pub available : is_available replica_set ≡ true
  pub service : Service
  pub has_service : w.caches.service route.meta.namespace e.name ≡ ok service
  pub owns_service : check_exposer w service.meta exposer_route.meta e.id ≡ ok tt
  pub validated :
      validate_exposed_token w.http_get ("http://" +++ (route.host +++ e.path)) (codes e.response)
      ≡ ok tt

module _ (w : World) (route : Route) (e : Exposure) (x : IsExposed w route e) where
  -- An object that is in the cache and passes its check.
  cached :
      {T : Type 0} (r : Result T) (create : Eff T) (check : T → Result (Unit {0})) (t : T)
      → r ≡ ok t
      → check t ≡ ok tt
      → (ensure r create >>= λ found. (lift (check found) >> pure found)) ≡ pure t
  unfolding ensure ◌>>=◌
  cached r create check t h k = rw h (rw k refl)

  module _ (client : Client) (challenge : Challenge)
      (accepted : client.accept challenge ≡ ok tt) where
    accept_when_exposed-accepts :
        accept_when_exposed w client route e challenge x.exposer_route x.replica_set
        ≡ (accept challenge ∷ add_after e.key requeue_delay ∷ [], ok next_authz)
    unfolding accept_when_exposed accept_if ◌>>=◌
    accept_when_exposed-accepts = rw (x.admitted, x.available, x.validated) (rw accepted refl)

    expose_with-accepts :
        (resources : Resources) (errors : ℕ)
        → errors ≡ 0
        → expose_with w client route e challenge x.exposer_route x.secret resources errors
          ≡ (accept challenge ∷ add_after e.key requeue_delay ∷ [], ok next_authz)
    unfolding expose_with ensure_replica_set ensure_service
    expose_with-accepts resources errors none_failed = rw none_failed (
        >>=-after _
          (cached _ _ (λ r. check_exposer w r.meta x.exposer_route.meta e.id) x.replica_set
            x.has_replica_set x.owns_replica_set)
          (>>=-after _
            (cached _ _ (λ s. check_exposer w s.meta x.exposer_route.meta e.id) x.service
              x.has_service x.owns_service)
            accept_when_exposed-accepts))

    pub expose-accepts :
        expose w client route e challenge
        ≡ (accept challenge ∷ add_after e.key requeue_delay ∷ [], ok next_authz)
    unfolding expose ensure_route ensure_secret
    expose-accepts =
        >>=-after _
          (cached _ _ (λ r. check_exposer w r.meta route.meta e.id) x.exposer_route x.has_route
            x.owns_route)
          (>>=-after _
            (cached _ _ (λ s. check_exposer w s.meta x.exposer_route.meta e.id) x.secret
              x.has_secret x.owns_secret)
            (>>=-after _ (ap lift x.has_ranges) (expose_with-accepts _ _ x.adjusted)))

-- The URL of one authorization, which is pending and offers a pending `http-01` challenge.
pub record IsChallenged (client : Client) (urls : List String) (c : Challenge) (response : String)
    : Type 0 where
  pub url : String
  pub one_url : urls ≡ url ∷ []
  pub authz : Authorization
  pub authorized : client.get_authorization url ≡ ok authz
  pub authz_pending : authz.status ≡ pending
  pub offered : http01_challenge none authz.challenges ≡ some c
  pub challenge_pending : c.status ≡ pending
  pub answered : client.challenge_response c.token ≡ ok response

module _ (w : World) (client : Client) (key : String) (route : Route) (urls : List String)
    (c : Challenge) (response : String) (h : IsChallenged client urls c response)
    (x : IsExposed w route (exposure w client key route c response))
    (accepted : client.accept c ≡ ok tt) where
  pend-accepts :
      (s : AcmeStatus)
      → s ≡ pending
      → pend w client key route c s ≡ (accept c ∷ add_after key requeue_delay ∷ [], ok next_authz)
  unfolding pend exposure
  pend-accepts s is_pending = rw is_pending (
      >>=-after _ (ap lift h.answered)
        (expose-accepts w route (exposure w client key route c response) x client c accepted))

  step_authz-accepts :
      (s : AcmeStatus)
      → s ≡ pending
      → step_authz w client key route h.authz s
        ≡ (accept c ∷ add_after key requeue_delay ∷ [], ok next_authz)
  unfolding step_authz with_challenge
  step_authz-accepts s is_pending =
      rw (is_pending, h.offered) (pend-accepts c.status h.challenge_pending)

  authorize_all-accepts :
      (done : Eff (Unit {0}))
      → authorize_all w client key route urls done
        ≡ (get_authorization h.url ∷ accept c ∷ add_after key requeue_delay ∷ done.0, done.1)
  unfolding authorize_all after_authz
  authorize_all-accepts done = rw h.one_url (
      >>=-after _ (ap (call _) h.authorized)
        (>>=-after _ (step_authz-accepts h.authz.status h.authz_pending) refl))

step_order-pending :
    (w : World) (client : Client) (key : String) (route : Route) (s previous : AcmeStatus)
    (status : Status) (order : Order)
    → s ≡ pending
    → step_order w client key route s previous status order
      ≡ authorize_all w client key route order.authz_urls (save w route status)
unfolding step_order
step_order-pending w client key route s previous status order h = rw h refl

module _ (w : World) (key : String) {parts : String × String}
    (named : w.packages.split_key key ≡ ok parts) (route : Route) (reached : IsReached w key route)
    (status : Status) (stored : get_status w.codec route ≡ ok status) (cause : Reason)
    (d : Duration) (checked : needs_cert_key w.x509 w.clock.at_check route ≡ ok (cause, d))
    (client : Client) (chosen : client_for w route ≡ ok client) where
  -- If an order is under way, its URL is known, and the server reports that it is pending with one
  -- authorization, which is pending and offers a pending `http-01` challenge, and if the objects that
  -- expose the token are there, belong to the route, are admitted and available and serve the response,
  -- then a reconciliation accepts the challenge. It makes these calls and no other: it asks for the
  -- order and for the authorization, accepts the challenge, puts the key back for 15 seconds later,
  -- and saves the status with the status of the order, whose result is its own.
  pub exposed_challenge_accepted :
      (order : Order) (c : Challenge) (response : String)
      → IsUnderWay status.provisioning.order_status
      → is_empty status.provisioning.order_uri ≡ false
      → client.get_order status.provisioning.order_uri ≡ ok order
      → order.status ≡ pending
      → (h : IsChallenged client order.authz_urls c response)
      → IsExposed w route (exposure w client key route c response)
      → client.accept c ≡ ok tt
      → let delayed = with_backoff w key route status in
        let saved = save w route (record delayed {
          provisioning = record (delayed.provisioning) { order_status = order.status };
        }) in
        sync w key ≡ (
          get_order status.provisioning.order_uri
              ∷ get_authorization h.url
              ∷ accept c
              ∷ add_after key requeue_delay
              ∷ saved.0,
          saved.1,
        )
  unfolding with_backoff
  exposed_challenge_accepted order c response under_way given asked is_pending h x accepted =
      let delayed = with_backoff w key route status in
      sync-decide w key named route reached status stored cause d checked
      ∙ decide-under_way w key route cause d delayed under_way
      ∙ order_step-known w key route client chosen delayed given order asked
      ∙ ap (prefixed _) (
          step_order-pending w client key route order.status _ _ _ is_pending
          ∙ authorize_all-accepts w client key route order.authz_urls c response h x accepted _)
