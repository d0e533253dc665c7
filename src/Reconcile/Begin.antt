-- ===== src/Reconcile/Begin.antt =====
-- The first reconciliation of a route that needs a certificate.
use openshift_acme.Common.{String, ◌≡◌, ◌≢◌, refl, ap, ◌∙◌, some, [], ◌∷◌, lookup}
use openshift_acme.Errors.{ok}
use openshift_acme.Kube.{Route, Duration}
use openshift_acme.Kube.Key
use openshift_acme.Acme.{AcmeStatus, none_yet, valid, Order, Client}
use openshift_acme.Effects.{lift, call, authorize_order, patch_status, >>=-after}
use openshift_acme.Status.{Status, get_status}
use openshift_acme.Status.Patch.{update_status_lem}
use openshift_acme.Renewal.{Reason, no_reason, needs_cert_key}
use openshift_acme.World.{World}
use openshift_acme.Reconcile.ClientFor.{client_for}
use openshift_acme.Reconcile.Order.{save}
use openshift_acme.Reconcile.Sync.{
  sync, provision, with_backoff, order_step, without_order, create_order,
}
use openshift_acme.Reconcile.Reached.{IsReached}
use openshift_acme.Reconcile.Outcomes.{sync-decide, decide-needed}

-- The statuses that stand for no order: none was made, or its certificate was stored.
abbrev pub IsEnded : AcmeStatus → Type 0
IsEnded none_yet = Unit
IsEnded valid = Unit
IsEnded _ = ⊥

module _ (w : World) (key : String) (route : Route) where
  -- The status with a new order.
  abbrev pub ordered : Status → Order → Status
  ordered status order = record status {
    provisioning = record (status.provisioning) {
      started_at = w.clock.at_order;
      order_uri = order.uri;
      order_status = order.status;
    };
  }

  provision-ended :
      (s : AcmeStatus) (status : Status)
      → IsEnded s
      → provision w key route s status ≡ order_step w key route (without_order status)
  unfolding provision
  provision-ended none_yet status h = refl
  provision-ended valid status h = refl
  provision-ended _ status h = absurd h

  module _ (client : Client) (chosen : client_for w route ≡ ok client) (order : Order)
      (made : client.authorize_order route.host ≡ ok order) (status : Status) where
    order_step-new : order_step w key route (without_order status) ≡ (
      authorize_order route.host ∷ (save w route (ordered status order)).0,
      (save w route (ordered status order)).1,
    )
    unfolding order_step create_order
    order_step-new =
        >>=-after _ (ap lift chosen)
          (>>=-after _ (ap (call (authorize_order route.host)) made) refl)

module _ (w : World) (key : String) {parts : String × String}
    (named : w.packages.split_key key ≡ ok parts) (route : Route) (reached : IsReached w key route)
    (status : Status) (stored : get_status w.codec route ≡ ok status) (cause : Reason)
    (d : Duration) (checked : needs_cert_key w.x509 w.clock.at_check route ≡ ok (cause, d))
    (client : Client) (chosen : client_for w route ≡ ok client) where
  -- The text of the status with the new order, once as YAML and once as JSON.
  abbrev pub IsText : Order → String → String → Type 0
  IsText order text json =
      let status' = record (ordered w key route (with_backoff w key route status) order) {
        observed_generation = route.meta.generation;
      } in
      (w.codec.encode_yaml status' ≡ some text) × (w.codec.encode_json status' ≡ some json)

  -- Where a certificate is needed and no order is under way or has failed, a reconciliation creates an
  -- order for the host of the route and writes it into the status, with the result of that write, and
  -- makes no other call, provided that the server takes the order, that the status can be encoded and
  -- that its YAML text is not in the annotation yet.
  pub needed_certificate_ordered :
      (order : Order) (text json : String)
      → cause ≢ no_reason
      → IsEnded status.provisioning.order_status
      → client.authorize_order route.host ≡ ok order
      → IsText order text json
      → lookup Key.status route.meta.annotations ≢ some text
      → sync w key ≡ (
        authorize_order route.host ∷ patch_status route.meta.namespace route.meta.name json ∷ [],
        w.api.patch_status json,
      )
  unfolding with_backoff
  needed_certificate_ordered order text json needed ended made texts differs =
      let delayed = with_backoff w key route status in
      let saves =
        (update_status_lem w.codec w.api.patch_status route (ordered w key route delayed order) text
            json texts.0 texts.1).1
          differs in
      sync-decide w key named route reached status stored cause d checked
      ∙ decide-needed w key route cause d delayed needed
      ∙ provision-ended w key route status.provisioning.order_status delayed ended
      ∙ order_step-new w key route client chosen order made delayed
      ∙ rw saves refl
