-- ===== src/Reconcile/Saved/Orders.antt =====
-- Reconcile.Saved: the steps of an order that the server knows.
use openshift_acme.Common.{ℕ, String, ◌≡◌, refl, sym, pos, ◌+ℤ◌, Bool-cases, inl, inr, ◌⊎◌}
use mathlib.Core.Path.{subst}
use openshift_acme.Errors.{ok}
use openshift_acme.Kube.{Route}
use openshift_acme.Cert.{CertPemData, new_certificate_from_der}
use openshift_acme.Acme.{
  AcmeStatus, none_yet, pending, processing, ready, valid, invalid, expired, revoked, deactivated,
  unknown, same_status, Order, Client,
}
use openshift_acme.Acme.Same.{same_status-eq}
use openshift_acme.Effects.{
  Eff, lift, call, ignore_error, ◌>>◌, Only, Only-bind, Only-call, Only-lift, Only-fail, Only-act,
  Only-ignore_error, get_route, create_order_cert,
}
use openshift_acme.Status.{Status, CertProvisioningStatus, set_status}
use openshift_acme.World.{World}
use openshift_acme.Reconcile.ClientFor.{client_for}
use openshift_acme.Reconcile.Order.{
  save, step_order, finalize, store_certificate, abandon, count_failure, cleanup_exposer_objects,
}
use openshift_acme.Reconcile.Justified.{RunsOnly}
use openshift_acme.Reconcile.Machine.{
  order_state, state_of, IsOpen, IsFailed, IsReported, goes_on, certifies, finishes, fails,
}
use openshift_acme.Reconcile.Quiet.{authorize_all-Quiet, cleanup_exposer_objects-Quiet}
use openshift_acme.Reconcile.Saved.{Moves, Quiet-Moves, save-Moves}

module _ (w : World) (key : String) (route : Route) (status : Status)
    (runs_only : RunsOnly w.packages) (client : Client) (chosen : client_for w route ≡ ok client)
    (is_open : IsOpen status.provisioning.order_status) (order : Order)
    (asked : client.get_order status.provisioning.order_uri ≡ ok order) where
  p : CertProvisioningStatus
  p = status.provisioning

  reported : IsReported w route (state_of p) order
  unfolding p
  reported = record { client = client; chosen = chosen; is_open = is_open; reported = asked }

  -- The status with the one that the server has reported.
  asked_status : Status
  unfolding p
  asked_status = record status { provisioning = record p { order_status = order.status } }

  -- A status that is not open differs from the one of the order before.
  counts :
      (IsOpen order.status → ⊥)
      → count_failure p.order_status asked_status.provisioning
        ≡ record p { order_status = order.status; failures = p.failures +ℤ pos 1 }
  unfolding count_failure p asked_status
  counts closed = elim (Bool-cases (same_status order.status status.provisioning.order_status)) [
    | inl same ↦ absurd (
        closed (
          subst IsOpen (sym (same_status-eq order.status status.provisioning.order_status same))
            is_open))
    | inr differs ↦ rw differs refl
  ]

  cleaned-Moves :
      {A : Type 0} (m : Eff A)
      → Only (Moves w route status) m
      → Only (Moves w route status) (ignore_error (cleanup_exposer_objects w route) >> m)
  cleaned-Moves m h =
      Only-bind (ignore_error (cleanup_exposer_objects w route)) _
        (Only-ignore_error _
          (cleanup_exposer_objects-Quiet w client key route (Quiet-Moves w route status)))
        λ _ _. h

  fail-Moves :
      IsFailed order.status
      → (IsOpen order.status → ⊥)
      → Only (Moves w route status) (
          save w route (record status {
            provisioning = count_failure p.order_status asked_status.provisioning;
          }))
  unfolding p
  fail-Moves failed closed =
      save-Moves w route status _ (rw (counts closed) (fails (state_of p) order reported failed))

  finish-Moves :
      order.status ≡ valid
      → Only (Moves w route status) (
          save w route (record status {
            provisioning = record (count_failure p.order_status asked_status.provisioning) {
              order_uri = "";
              order_status = none_yet;
            };
          }))
  unfolding p
  finish-Moves e =
      save-Moves w route status _
        (rw (counts (λ h. subst IsOpen e h)) (finishes (state_of p) order reported e))

  store_certificate-Moves :
      (pem : CertPemData) (certified : Status) (attempt : ℕ)
      → order.status ≡ ready
      → state_of certified.provisioning ≡ order_state p.order_uri valid (pos 0)
      → Only (Moves w route status) (store_certificate w route pem certified attempt)
  unfolding store_certificate p
  store_certificate-Moves pem certified attempt e is_certified =
      Only-bind (call (get_route route.meta.namespace route.meta.name) _) _ (Only-call _ _ tt)
        λ fresh fetched.
          Only-bind (lift (set_status w.codec fresh.meta certified)) _ (Only-lift _) λ marked marks.
            Only-call _ _ (record {
              fresh = fresh;
              status = certified;
              seen = marked.1;
              marks = marks;
              moves = rw is_certified (certifies (state_of p) order reported e);
            })

  finalize-Moves :
      (order' : Order)
      → order.status ≡ ready
      → Only (Moves w route status) (finalize w client key route asked_status order')
  unfolding finalize asked_status p
  finalize-Moves order' e =
      Only-bind (lift w.packages.generate_key) _ (Only-lift _) λ private_key generated.
        Only-bind (lift (w.packages.create_csr private_key route.host)) _ (Only-lift _)
          λ csr requested.
            Only-bind
              (call (create_order_cert order'.finalize_url)
                (client.create_order_cert order'.finalize_url csr))
              _ (Only-call _ _ tt)
              λ der issued.
                Only-bind (lift (new_certificate_from_der w.x509 der private_key)) _ (Only-lift _)
                  λ pem encoded.
                    Only-bind (w.packages.retry_on_conflict _) _
                      (runs_only _ _ λ attempt. store_certificate-Moves pem _ attempt e refl)
                      λ _ _. Only-ignore_error _ (
                        cleanup_exposer_objects-Quiet w client key route
                          (Quiet-Moves w route status))

  goes_on-Moves :
      (order.status ≡ pending) ⊎ (order.status ≡ processing)
      → Only (Moves w route status) (save w route asked_status)
  unfolding asked_status p
  goes_on-Moves e = save-Moves w route status _ (goes_on (state_of p) order reported e)

  pub step_order-Moves :
      (s : AcmeStatus) (order' : Order)
      → order.status ≡ s
      → Only (Moves w route status) (
          step_order w client key route s status.provisioning.order_status
            (record status {
              provisioning = record (status.provisioning) { order_status = order.status };
            })
            order')
  unfolding step_order abandon p asked_status
  step_order-Moves pending order' e =
      authorize_all-Quiet w client key route (Quiet-Moves w route status) order'.authz_urls _
        (goes_on-Moves (inl e))
  step_order-Moves processing order' e = Only-bind _ _ (Only-act _ tt) λ _ _. goes_on-Moves (inr e)
  step_order-Moves ready order' e = finalize-Moves order' e
  step_order-Moves valid order' e = cleaned-Moves _ (finish-Moves e)
  step_order-Moves invalid order' e =
      Only-bind _ _ (Only-act _ tt) λ _ _. cleaned-Moves _ (fail-Moves (rw e tt) (rw e λ h. h))
  step_order-Moves expired order' e = cleaned-Moves _ (fail-Moves (rw e tt) (rw e λ h. h))
  step_order-Moves revoked order' e = cleaned-Moves _ (fail-Moves (rw e tt) (rw e λ h. h))
  step_order-Moves deactivated order' e = cleaned-Moves _ (fail-Moves (rw e tt) (rw e λ h. h))
  step_order-Moves none_yet order' e = Only-fail _
  step_order-Moves (unknown t) order' e = Only-fail _
