-- ===== src/Reconcile/Sync.antt =====
-- pkg/controller/route/route.go, `sync`: the reconciliation of the route with a key.
use openshift_acme.Common.{
  String, Bool, true, false, ◌||◌, not, Option, none, some, if◌then◌else◌, is_empty, pos, ◌+ℤ◌,
  ltb_ℤ,
}
use openshift_acme.Errors.{Result, ok, err, is_not_found}
use openshift_acme.Kube.{Route, Duration, Time}
use openshift_acme.Kube.Managed.{is_managed}
use openshift_acme.Kube.Admitted.{is_admitted}
use openshift_acme.Acme.{
  AcmeStatus, none_yet, pending, processing, ready, valid, invalid, expired, revoked, deactivated,
  is_none_yet, Order, Client,
}
use openshift_acme.Effects.{
  Eff, pure, fail, lift, call, act, ◌>>=◌, ◌>>◌, add_after, authorize_order, get_order,
}
use openshift_acme.Status.{Status, get_status}
use openshift_acme.Renewal.{Reason, no_reason, needs_cert_key, time_sub}
use openshift_acme.Backoff.{order_backoff}
use openshift_acme.Reconcile.ClientFor.{client_for}
use openshift_acme.World.{World}
use openshift_acme.Reconcile.Order.{save, step_order}

-- The two fields of the order, reset.
abbrev pub without_order : Status → Status
without_order s = record s {
  provisioning = record (s.provisioning) { order_uri = ""; order_status = none_yet };
}

module _ (w : World) (client : Client) (key : String) (route : Route) where
  -- There is no order yet.
  unfoldable pub create_order : Status → Eff (Unit {0})
  create_order status = do
    order ← call (authorize_order route.host) (client.authorize_order route.host)
    save w route (record status {
      provisioning = record (status.provisioning) {
        started_at = w.clock.at_order;
        order_uri = order.uri;
        order_status = order.status;
      };
    })

  -- The reply to the request for the order.
  unfoldable pub with_order : Status → Result Order → Eff (Unit {0})
  with_order status (ok order) =
      step_order w client key route order.status status.provisioning.order_status
        (record status {
          provisioning = record (status.provisioning) { order_status = order.status };
        })
        (record order { uri = status.provisioning.order_uri })
  with_order status (err e) =
      if is_not_found e
      then save w route
          (record status { provisioning = record (status.provisioning) { order_uri = "" } })
      else fail e

  unfoldable pub continue_order : Status → Eff (Unit {0})
  unfolding with_order
  continue_order status = do
    act (get_order status.provisioning.order_uri)
    with_order status (client.get_order status.provisioning.order_uri)

module _ (w : World) (key : String) (route : Route) where
  -- From the choice of the issuer on.
  unfoldable pub order_step : Status → Eff (Unit {0})
  order_step status = do
    client ← lift (client_for w route)
    if is_empty status.provisioning.order_uri
        then create_order w client key route status
        else continue_order w client key route status

  -- A failed order is kept until its delay is over.
  unfoldable pub retry_failed : Status → Eff (Unit {0})
  retry_failed status =
      let delay = time_sub status.provisioning.earliest_attempt_at w.clock.at_delay in
      if ltb_ℤ (pos 0) delay
      then (do act (add_after key delay); save w route status)
      else order_step (without_order status)

  -- A new certificate is needed, or an order is under way.
  unfoldable pub provision : AcmeStatus → Status → Eff (Unit {0})
  unfolding retry_failed
  provision none_yet status = order_step (without_order status)
  provision valid status = order_step (without_order status)
  provision invalid status = retry_failed status
  provision expired status = retry_failed status
  provision revoked status = retry_failed status
  provision deactivated status = retry_failed status
  provision _ status = order_step status

  -- No new certificate is needed and no order is under way.
  unfoldable pub rest_until : Duration → Status → Eff (Unit {0})
  rest_until requeue_after status = do
    if ltb_ℤ (pos 0) requeue_after then act (add_after key requeue_after) else pure tt
    if not (is_empty status.provisioning.order_uri)
          || not (is_none_yet status.provisioning.order_status)
        then save w route (without_order status)
        else pure tt

  unfoldable pub healthy : Duration → AcmeStatus → Status → Eff (Unit {0})
  healthy requeue_after pending status = provision pending status
  healthy requeue_after processing status = provision processing status
  healthy requeue_after ready status = provision ready status
  healthy requeue_after _ status = rest_until requeue_after status

  -- `switch` on the reason.
  unfoldable pub decide : Reason → Duration → Status → Eff (Unit {0})
  unfolding rest_until healthy
  decide no_reason requeue_after status =
      healthy requeue_after status.provisioning.order_status status
  decide _ requeue_after status = provision status.provisioning.order_status status

  -- `EarliestAttemptAt`, from the number of the failures.
  unfoldable pub with_backoff : Status → Status
  with_backoff status =
      let delay =
        order_backoff w.config.cert_order_backoff_initial w.config.cert_order_backoff_max
          status.provisioning.failures in
      record status {
        provisioning = record (status.provisioning) {
          earliest_attempt_at = status.provisioning.started_at +ℤ delay;
        };
      }

  -- The reconciliation of a route that is managed and admitted.
  unfoldable pub sync_managed : Eff (Unit {0})
  sync_managed = do
    status ← lift (get_status w.codec route)
    (reason, requeue_after) ← lift (needs_cert_key w.x509 w.clock.at_check route)
    decide reason requeue_after (with_backoff status)

unfoldable pub is_deleted : Option Time → Bool
is_deleted none = false
is_deleted (some t) = true

unfoldable pub sync_found : World → String → Option Route → Eff (Unit {0})
unfolding is_deleted
sync_found w key none = pure tt
sync_found w key (some route) =
    if is_deleted route.meta.deletion_timestamp
    then pure tt
    else if not (is_managed route.meta w.config.annotation)
    then pure tt
    else if not (is_admitted route)
    then pure tt
    else sync_managed w key route

unfoldable pub sync : World → String → Eff (Unit {0})
sync w key = do
  parts ← lift (w.packages.split_key key)
  found ← lift (w.caches.route_by_key key)
  sync_found w key found
