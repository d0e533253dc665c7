-- ===== src/Reconcile/Saved/Decisions.antt =====
-- Reconcile.Saved: the statuses that the decision on a route writes.
use openshift_acme.Common.{String, ◌≡◌, refl, pos, ltb_ℤ, is_empty, empty_text}
use openshift_acme.Errors.{Result, ok, err, is_not_found}
use openshift_acme.Kube.{Route, Duration}
use openshift_acme.Acme.{
  AcmeStatus, none_yet, pending, processing, ready, valid, invalid, expired, revoked, deactivated,
  Order, Client,
}
use openshift_acme.Effects.{
  fail, lift, call, act, ◌>>◌, Only, Only-bind, Only-call, Only-lift, Only-fail, Only-act, Only-if,
  get_order, authorize_order, add_after,
}
use openshift_acme.Status.{Status}
use openshift_acme.Renewal.{Reason, no_reason, time_sub}
use openshift_acme.World.{World}
use openshift_acme.Reconcile.ClientFor.{client_for}
use openshift_acme.Reconcile.Order.{save}
use openshift_acme.Reconcile.Sync.{
  without_order, create_order, with_order, continue_order, order_step, retry_failed, provision,
  rest_until, healthy, decide,
}
use openshift_acme.Reconcile.Acceptance.{only_rules}
use openshift_acme.Reconcile.Justified.{RunsOnly}
use openshift_acme.Reconcile.Machine.{IsOpen, IsFailed, IsIdle, rests, waits, creates, loses}
use openshift_acme.Reconcile.Saved.{Moves, save-Moves}
use openshift_acme.Reconcile.Saved.Orders.{step_order-Moves}

module _ (w : World) (key : String) (route : Route) (runs_only : RunsOnly w.packages)
    (status : Status) where
  create_order-Moves :
      (status' : Status) (client : Client)
      → client_for w route ≡ ok client
      → status'.provisioning.failures ≡ status.provisioning.failures
      → (IsOpen status.provisioning.order_status → status.provisioning.order_uri ≡ "")
      → Only (Moves w route status) (create_order w client key route status')
  unfolding create_order
  create_order-Moves status' client chosen same guard =
      Only-bind (call (authorize_order route.host) (client.authorize_order route.host)) _
        (Only-call _ _ (refl, guard))
        λ order made.
          save-Moves w route status _ (rw same (creates _ client order chosen made guard))

  with_order-Moves :
      (client : Client) (r : Result Order)
      → client_for w route ≡ ok client
      → IsOpen status.provisioning.order_status
      → client.get_order status.provisioning.order_uri ≡ r
      → Only (Moves w route status) (with_order w client key route status r)
  unfolding with_order
  with_order-Moves client (ok order) chosen is_open asked =
      step_order-Moves w key route status runs_only client chosen is_open order asked order.status _
        refl
  with_order-Moves client (err e) chosen is_open asked =
      Only-if (is_not_found e) _ (fail e)
        (λ missing. save-Moves w route status _ (loses _ client e chosen is_open asked missing))
        (λ other. Only-fail e)

  continue_order-Moves :
      (client : Client)
      → client_for w route ≡ ok client
      → IsOpen status.provisioning.order_status
      → Only (Moves w route status) (continue_order w client key route status)
  unfolding continue_order
  continue_order-Moves client chosen is_open =
      Only-bind (act (get_order status.provisioning.order_uri)) _ (Only-act _ tt)
        λ _ _. with_order-Moves client _ chosen is_open refl

  open_step-Moves :
      IsOpen status.provisioning.order_status
      → Only (Moves w route status) (order_step w key route status)
  unfolding order_step
  open_step-Moves is_open = Only-bind (lift (client_for w route)) _ (Only-lift _) λ client chosen.
      Only-if (is_empty status.provisioning.order_uri) (create_order w client key route status)
        (continue_order w client key route status)
        (λ missing. create_order-Moves status client chosen refl λ _. empty_text _ missing)
        (λ given. continue_order-Moves client chosen is_open)

  new_step-Moves :
      (IsOpen status.provisioning.order_status → ⊥)
      → Only (Moves w route status) (order_step w key route (without_order status))
  unfolding order_step
  new_step-Moves closed = Only-bind (lift (client_for w route)) _ (Only-lift _) λ client chosen.
      create_order-Moves (without_order status) client chosen refl
        λ is_open. absurd (closed is_open)

  retry_failed-Moves :
      IsFailed status.provisioning.order_status
      → (IsOpen status.provisioning.order_status → ⊥)
      → Only (Moves w route status) (retry_failed w key route status)
  unfolding retry_failed
  retry_failed-Moves failed closed =
      let delay = time_sub status.provisioning.earliest_attempt_at w.clock.at_delay in
      Only-if (ltb_ℤ (pos 0) delay) (act (add_after key delay) >> save w route status)
        (order_step w key route (without_order status))
        (λ early.
          Only-bind _ _ (Only-act _ tt) λ _ _. save-Moves w route status status (waits _ failed))
        (λ due. new_step-Moves closed)

  provision-Moves :
      (s : AcmeStatus)
      → status.provisioning.order_status ≡ s
      → Only (Moves w route status) (provision w key route s status)
  unfolding provision
  provision-Moves none_yet e = new_step-Moves (rw e λ h. h)
  provision-Moves valid e = new_step-Moves (rw e λ h. h)
  provision-Moves invalid e = retry_failed-Moves (rw e tt) (rw e λ h. h)
  provision-Moves expired e = retry_failed-Moves (rw e tt) (rw e λ h. h)
  provision-Moves revoked e = retry_failed-Moves (rw e tt) (rw e λ h. h)
  provision-Moves deactivated e = retry_failed-Moves (rw e tt) (rw e λ h. h)
  provision-Moves _ e = open_step-Moves (rw e tt)

  rest_until-Moves :
      (d : Duration)
      → IsIdle status.provisioning.order_status
      → Only (Moves w route status) (rest_until w key route d status)
  unfolding rest_until
  rest_until-Moves d idle = search (only_rules, save-Moves w route status, rests, idle, tt)

  healthy-Moves :
      (d : Duration) (s : AcmeStatus)
      → status.provisioning.order_status ≡ s
      → Only (Moves w route status) (healthy w key route d s status)
  unfolding healthy
  healthy-Moves d pending e = provision-Moves pending e
  healthy-Moves d processing e = provision-Moves processing e
  healthy-Moves d ready e = provision-Moves ready e
  healthy-Moves d _ e = rest_until-Moves d (rw e tt)

  pub decide-Moves :
      (r : Reason) (d : Duration) → Only (Moves w route status) (decide w key route r d status)
  unfolding decide
  decide-Moves no_reason d = healthy-Moves d _ refl
  decide-Moves _ d = provision-Moves _ refl
