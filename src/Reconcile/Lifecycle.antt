-- ===== src/Reconcile/Lifecycle.antt =====
-- How the certificate of a route comes about: what reconciliations do where the servers cooperate.
use openshift_acme.Common.{
  String, ◌≡◌, refl, sym, ap, ◌∙◌, false, none, some, List, [], ◌∷◌, pos, is_empty,
}
use openshift_acme.Errors.{ok}
use openshift_acme.Kube.{Route, Bytes, Duration, ObjectMeta}
use openshift_acme.Acme.{AcmeStatus, pending, processing, ready, valid, Order, Client}
use openshift_acme.Cert.{CertPemData, new_certificate_from_der}
use openshift_acme.Effects.{
  Action, Eff, ignore_error-ok, >>=-after, lift, call, ◌>>=◌, get_order, create_order_cert,
  get_route, update_route, delete_exposers,
}
use openshift_acme.Status.{Status, get_status, set_status}
use openshift_acme.Renewal.{Reason, no_reason, needs_cert_key}
use openshift_acme.World.{World, Packages}
use openshift_acme.Reconcile.ClientFor.{client_for}
use openshift_acme.Reconcile.Order.{
  store_certificate, finalize, step_order, with_certificate, cleanup_exposer_objects,
}
use openshift_acme.Reconcile.Sync.{
  sync, decide, healthy, provision, with_backoff, order_step, continue_order, with_order,
}
use openshift_acme.Reconcile.Reached.{IsReached}
use openshift_acme.Reconcile.Outcomes.{sync-decide}

-- An action and what follows it.
abbrev pub prefixed : Action → Eff (Unit {0}) → Eff (Unit {0})
prefixed a m = (a ∷ m.0, m.1)

-- RetryOnConflict is content with a first attempt that succeeds.
abbrev pub AcceptsSuccess : Packages → Type 0
AcceptsSuccess p = (f : _) → (f 0).1 ≡ ok tt → p.retry_on_conflict f ≡ f 0

-- The status of an order that is under way.
abbrev pub IsUnderWay : AcmeStatus → Type 0
IsUnderWay pending = Unit
IsUnderWay processing = Unit
IsUnderWay ready = Unit
IsUnderWay _ = ⊥

-- The status that is stored together with a certificate.
abbrev pub certified : Status → Status
certified status = record status {
  provisioning = record (status.provisioning) {
    order_status = valid;
    failures = pos 0;
    order_error = none;
  };
}

module _ (w : World) (key : String) (route : Route) where
  provision-under_way :
      (s : AcmeStatus) (status : Status)
      → IsUnderWay s
      → provision w key route s status ≡ order_step w key route status
  unfolding provision
  provision-under_way pending status h = refl
  provision-under_way processing status h = refl
  provision-under_way ready status h = refl
  provision-under_way _ status h = absurd h

  healthy-under_way :
      (d : Duration) (s : AcmeStatus) (status : Status)
      → IsUnderWay s
      → healthy w key route d s status ≡ order_step w key route status
  unfolding healthy
  healthy-under_way d pending status h = provision-under_way pending status h
  healthy-under_way d processing status h = provision-under_way processing status h
  healthy-under_way d ready status h = provision-under_way ready status h
  healthy-under_way d _ status h = absurd h

  pub decide-under_way :
      (cause : Reason) (d : Duration) (status : Status)
      → IsUnderWay status.provisioning.order_status
      → decide w key route cause d status ≡ order_step w key route status
  unfolding decide
  decide-under_way no_reason d status h = healthy-under_way d _ status h
  decide-under_way _ d status h = provision-under_way _ status h

  module _ (client : Client) (chosen : client_for w route ≡ ok client) (status : Status)
      (given : is_empty status.provisioning.order_uri ≡ false) (order : Order)
      (asked : client.get_order status.provisioning.order_uri ≡ ok order) where
    pub order_step-known :
        order_step w key route status
        ≡ prefixed (get_order status.provisioning.order_uri) (
            step_order w client key route order.status status.provisioning.order_status
              (record status {
                provisioning = record (status.provisioning) { order_status = order.status };
              })
              (record order { uri = status.provisioning.order_uri }))
    unfolding order_step continue_order with_order ◌>>=◌
    order_step-known = rw (chosen, given) (rw asked refl)

-- The server issues a certificate for the order, and the API server takes it with the first attempt.
pub record IsIssued (w : World) (client : Client) (route : Route) (order : Order) (status : Status)
    (updated : Route) : Type 0 where
  pub private_key : Bytes
  pub generated : w.packages.generate_key ≡ ok private_key
  pub request : Bytes
  pub requested : w.packages.create_csr private_key route.host ≡ ok request
  pub der : List Bytes
  pub issued : client.create_order_cert order.finalize_url request ≡ ok der
  pub pem : CertPemData
  pub encoded : new_certificate_from_der w.x509 der private_key ≡ ok pem
  pub fresh : Route
  pub fetched : w.api.get_route 0 route.meta.namespace route.meta.name ≡ ok fresh
  pub marked : ObjectMeta × Status
  pub marks : set_status w.codec fresh.meta (certified status) ≡ ok marked
  pub is_updated :
      updated ≡ record fresh { meta = marked.0; tls = some (with_certificate fresh.tls pem) }
  pub accepted : w.api.update_route 0 updated ≡ ok tt

module _ (w : World) (client : Client) (key : String) (route : Route) (order : Order)
    (status : Status) (updated : Route) (i : IsIssued w client route order status updated) where
  store_certificate-stores :
      store_certificate w route i.pem (certified status) 0
      ≡ (get_route route.meta.namespace route.meta.name ∷ update_route updated ∷ [], ok tt)
  unfolding store_certificate ◌>>=◌
  store_certificate-stores =
      rw (i.fetched) (rw (i.marks) (rw (sym i.is_updated) (rw (i.accepted) refl)))

  finalize-stores :
      (uri : String) (s : AcmeStatus)
      → AcceptsSuccess w.packages
      → finalize w client key route
          (record status { provisioning = record (status.provisioning) { order_status = s } })
          (record order { uri = uri })
        ≡ (
          create_order_cert order.finalize_url
              ∷ get_route route.meta.namespace route.meta.name
              ∷ update_route updated
              ∷ delete_exposers route.meta.namespace route.meta.uid
              ∷ [],
          ok tt,
        )
  unfolding finalize cleanup_exposer_objects
  finalize-stores uri s takes =
      let stores = store_certificate-stores in
      let retried =
        takes (store_certificate w route i.pem (certified status))
          (ap (λ (m : Eff (Unit {0})). m.1) stores)
        ∙ stores in
      >>=-after _ (ap lift i.generated) (
        >>=-after _ (ap lift i.requested) (
          >>=-after _ (ap (call _) i.issued)
            (>>=-after _ (ap lift i.encoded) (>>=-after _ retried (ignore_error-ok _)))))

step_order-ready :
    (w : World) (client : Client) (key : String) (route : Route) (s previous : AcmeStatus)
    (status : Status) (order : Order)
    → s ≡ ready
    → step_order w client key route s previous status order
      ≡ finalize w client key route status order
unfolding step_order
step_order-ready w client key route s previous status order h = rw h refl

module _ (w : World) (key : String) {parts : String × String}
    (named : w.packages.split_key key ≡ ok parts) (route : Route) (reached : IsReached w key route)
    (status : Status) (stored : get_status w.codec route ≡ ok status) (cause : Reason)
    (d : Duration) (checked : needs_cert_key w.x509 w.clock.at_check route ≡ ok (cause, d))
    (client : Client) (chosen : client_for w route ≡ ok client) where
  -- If an order is under way, its URL is known, and the server reports that it is ready, then a
  -- reconciliation ends with success and the route updated, provided that the server issues a
  -- certificate for a request with a new key and that the API server accepts the update. It makes
  -- these calls and no other: it asks for the order, for the certificate and for the route, updates
  -- the route, and deletes the exposer objects.
  pub ready_order_installs :
      (order : Order) (updated : Route)
      → AcceptsSuccess w.packages
      → IsUnderWay status.provisioning.order_status
      → is_empty status.provisioning.order_uri ≡ false
      → client.get_order status.provisioning.order_uri ≡ ok order
      → order.status ≡ ready
      → IsIssued w client route order (with_backoff w key route status) updated
      → sync w key ≡ (
        get_order status.provisioning.order_uri
            ∷ create_order_cert order.finalize_url
            ∷ get_route route.meta.namespace route.meta.name
            ∷ update_route updated
            ∷ delete_exposers route.meta.namespace route.meta.uid
            ∷ [],
        ok tt,
      )
  unfolding with_backoff
  ready_order_installs order updated takes under_way given asked is_ready i =
      let delayed = with_backoff w key route status in
      sync-decide w key named route reached status stored cause d checked
      ∙ decide-under_way w key route cause d delayed under_way
      ∙ order_step-known w key route client chosen delayed given order asked
      ∙ ap (prefixed _) (
          step_order-ready w client key route order.status _ _ _ is_ready
          ∙ finalize-stores w client key route order delayed updated i status.provisioning.order_uri
              order.status takes)
